-- ===== src/Diagnostics/Control/Ended.antt =====
-- `performOperation` ends.
use mathlib.Core.Path.{subst}
use backend_client.Base.{
  ℕ, suc, ◌-◌, ◌≤◌, ◌≡◌, arith, Bool, Option, none, some, List, [], ◌∷◌, Bool-cases, inl, inr, eqb,
}
use backend_client.Base.Exceptions.{Result, ok, err}
use backend_client.Diagnostics.Control.{SetDiagnostics, KnownSink, is_all_responses_received}
use backend_client.Diagnostics.Control.Sending.{
  Operation, not_started, polling, ended, raised, begun, begin_operation, System, Event, respond,
  poll, abort_requested, polled, poll_round, start, step, steps,
}

-- The operation has a result, or has raised an exception.
abbrev pub IsOver : Operation → Type 0
IsOver not_started = ⊥
IsOver (polling n) = ⊥
IsOver (ended result) = Unit
IsOver (raised x) = Unit

-- The seconds that pass
abbrev pub polls : List Event → ℕ
polls [] = 0
polls (poll ∷ events) = suc (polls events)
polls (_ ∷ events) = polls events

-- It is over, or has at most n seconds left.
abbrev Within : ℕ → Operation → Type 0
Within n not_started = ⊥
Within n (polling m) = (1 ≤ m) × (m ≤ n)
Within n (ended result) = Unit
Within n (raised x) = Unit

poll_round-Within : (n m : ℕ) (s : SetDiagnostics) → 1 ≤ m → m ≤ suc n → Within n (poll_round m s).0
unfolding poll_round
poll_round-Within n m s h l = elim (Bool-cases s.processing_active) [
  | inr aborted ↦ rw aborted tt
  | inl active ↦ elim (Bool-cases (eqb (m - 1) 0)) [
    | inl timeout ↦ rw (active, timeout) tt
    | inr left ↦ elim (Bool-cases (is_all_responses_received s.statuses)) [
      | inl all ↦ rw (active, left, all) tt
      | inr waiting ↦ rw (active, left, waiting) (ground arith)
    ]
  ]
]

-- A second takes one off what is left.
polled-Within :
    (n : ℕ) (operation : Operation) (s : SetDiagnostics)
    → Within n operation
    → Within (n - 1) (polled operation s).0
polled-Within n not_started s h = absurd h
polled-Within n (polling m) s h = poll_round-Within (n - 1) m s h.0 (omega (arith, h.1, h.0))
polled-Within n (ended result) s h = tt
polled-Within n (raised x) s h = tt

Within-zero : (operation : Operation) → Within 0 operation → IsOver operation
Within-zero not_started h = h
Within-zero (polling m) h = absurd (omega (arith, h.0, h.1))
Within-zero (ended result) h = tt
Within-zero (raised x) h = tt

module _ (draw : ℕ → ℕ) where
  steps-IsOver :
      (events : List Event) (n : ℕ) (system : System)
      → Within n system.operation
      → n ≤ polls events
      → IsOver (steps draw events system).operation
  unfolding steps step
  steps-IsOver [] n system h l =
      Within-zero system.operation (subst (λ k. Within k system.operation) (the_end n l) h)
    where
      the_end : (k : ℕ) → k ≤ 0 → k ≡ 0
      the_end k p = omega arith
  steps-IsOver (respond message now ∷ events) n system h l =
      steps-IsOver events n (step draw (respond message now) system) h l
  steps-IsOver (abort_requested ∷ events) n system h l =
      steps-IsOver events n (step draw abort_requested system) h l
  steps-IsOver (poll ∷ events) n system h l =
      steps-IsOver events (n - 1) (step draw poll system)
        (polled-Within n system.operation system.object h) (omega arith)

  begun-Within : (result : Result (Option Bool)) → Within 30 (begun result)
  begun-Within (err x) = tt
  begun-Within (ok (some result)) = tt
  begun-Within (ok none) = (omega arith, omega arith)

  -- Thirty seconds after its start the operation is over, whatever is answered and whether or not it is
  -- aborted meanwhile: it has ended with a result, or raised an exception when it started.
  pub start-IsOver :
      (sinks : List KnownSink) (now later : Result ℕ) (s : SetDiagnostics) (events : List Event)
      → 30 ≤ polls events
      → IsOver (steps draw events (start draw sinks now later s)).operation
  unfolding start
  start-IsOver sinks now later s events h =
      steps-IsOver events 30 (start draw sinks now later s)
        (begun-Within (begin_operation draw sinks now later s).0) h
