-- ===== src/Kpi/Rounds.antt =====
-- The loop of the inventory test: how it ends, and that it does.
use mathlib.Core.Path.{subst}
use backend_client.Base.{
  ℕ, ◌≤◌, ◌≡◌, ◌⊎◌, ◌↔◌, refl, sym, ap, Bool, true, false, List, [], ◌∷◌, inl, inr, ◌∙◌, ◌||◌,
  Bool-cases,
}
use backend_client.Base.Dict.{Dict}
use backend_client.Base.Exceptions.{Result, ok}
use backend_client.Base.State.{◌>>=◌, >>=-ok, done}
use backend_client.Advertiser.{Advertised}
use backend_client.Inventory.{Inventory, is_out_of_time, is_complete}
use backend_client.Inventory.Counts.{is_otaped, is_frequency_reached}
use backend_client.Inventory.Completion.{IsComplete, is_complete_iff}
use backend_client.Kpi.{
  Manager, M, Turn, exit, received, empty, Outcome, waiting, exited, out_of_time, completed, otaped,
  frequency_reached, put_inventory, add_nodes, on_inventory, break_if, store, round, go_on,
  while_not, set_exit, loop,
}
use backend_client.Kpi.Kept.{received-same_signal, empty-same_signal}
use backend_client.Kpi.Ready.{
  IsReady, AreOtaped, AreCounted, add_nodes-IsReady, is_out_of_time-ready, is_otaped-ready,
  is_frequency_reached-ready,
}

-- The signal is among the turns; a turn comes at the deadline or later.
abbrev pub HasExit : List Turn → Type 0
HasExit [] = ⊥
HasExit (exit ∷ turns) = Unit
HasExit (received adv now ∷ turns) = HasExit turns
HasExit (empty now ∷ turns) = HasExit turns

abbrev pub IsLate : ℕ → List Turn → Type 0
IsLate deadline [] = ⊥
IsLate deadline (exit ∷ turns) = IsLate deadline turns
IsLate deadline (received adv now ∷ turns) = (deadline ≤ now) ⊎ IsLate deadline turns
IsLate deadline (empty now ∷ turns) = (deadline ≤ now) ⊎ IsLate deadline turns

-- The loop has a reason to end: the signal was set before it, or by one of the turns, or it is late.
abbrev pub HasReason : ℕ → Bool → List Turn → Type 0
HasReason deadline set turns = (set ≡ true) ⊎ (HasExit turns ⊎ IsLate deadline turns)

-- Why the loop was left as it was, where `set` is the exit signal before it
abbrev pub Justifies : ℕ → Bool → List Turn → Outcome → Inventory → Type 0
Justifies deadline set turns waiting inv = HasReason deadline set turns → ⊥
Justifies deadline set turns exited inv = (set ≡ true) ⊎ HasExit turns
Justifies deadline set turns out_of_time inv = IsLate deadline turns
Justifies deadline set turns completed inv = IsComplete inv
Justifies deadline set turns otaped inv = AreOtaped inv
Justifies deadline set turns frequency_reached inv = AreCounted inv

-- The code returns an outcome that is justified, and the inventory is ready for more.
abbrev pub Leaves : ℕ → ℕ → Bool → List Turn → Result Outcome × Manager → Type 0
Leaves start deadline set turns q =
    (o : Outcome) × (q.0 ≡ ok o)
    × Justifies deadline set turns o q.1.inventory
    × IsReady start deadline q.1.inventory

abbrev pub is_exited : Outcome → Bool
is_exited exited = true
is_exited _ = false

-- And the exit signal is set if it was, or if it ended the loop.
abbrev pub LeavesLoop : ℕ → ℕ → Bool → List Turn → Result Outcome × Manager → Type 0
LeavesLoop start deadline set turns q =
    (o : Outcome) × (q.0 ≡ ok o)
    × Justifies deadline set turns o q.1.inventory
    × IsReady start deadline q.1.inventory
    × (q.1.exit_signal ≡ (set || is_exited o))

-- A test of the loop, and what follows it
break_if-Leaves :
    (start deadline : ℕ) (turns : List Turn) (test : Inventory → Result Bool) (o : Outcome)
    (next : M Outcome) (m : Manager)
    → (tested : (b : Bool) × (test m.inventory ≡ ok b))
    → (tested.0 ≡ true → Leaves start deadline false turns (ok o, m))
    → (tested.0 ≡ false → Leaves start deadline false turns (next m))
    → Leaves start deadline false turns (break_if test o next m)
break_if-Leaves start deadline turns test o next m (true, p) leave stay = rw p (leave refl)
break_if-Leaves start deadline turns test o next m (false, p) leave stay = rw p (stay refl)

-- After a test of the time that fails, a turn was no reason to end.
in_time :
    {deadline now : ℕ} {b : Bool}
    → (b ≡ true ↔ deadline ≤ now)
    → b ≡ false
    → (false ≡ true) ⊎ (⊥ ⊎ (deadline ≤ now ⊎ ⊥))
    → ⊥
in_time h q (inl set) = cc
in_time h q (inr (inl none_left)) = none_left
in_time h q (inr (inr (inl late))) = absurd (let p = h.1 late in cc)
in_time h q (inr (inr (inr none_left))) = none_left

module _ {start deadline : ℕ} (m : Manager) (r : IsReady start deadline m.inventory) where
  -- The tests after a message
  tests-Leaves :
      (adv : Dict ℕ Advertised) (now : ℕ)
      → Leaves start deadline false (received adv now ∷ []) (
          break_if
            (is_out_of_time now)
            out_of_time
            (break_if (is_complete now) completed (
              break_if
                (is_otaped now)
                otaped
                (break_if is_frequency_reached frequency_reached (done waiting))))
            m)
  tests-Leaves adv now =
      let turns = received adv now ∷ [] in
      let counted_next : M Outcome =
        break_if is_frequency_reached frequency_reached (done waiting) in
      let otaped_next : M Outcome = break_if (is_otaped now) otaped counted_next in
      let complete_next : M Outcome = break_if (is_complete now) completed otaped_next in
      let (late, p, h) = is_out_of_time-ready now m.inventory r in
      let (complete, pc, hc) = is_complete_iff now m.inventory start r.starts in
      let (all_otaped, po, ho) = is_otaped-ready now m.inventory r in
      let (counted, pf, hf) = is_frequency_reached-ready now m.inventory r in
      break_if-Leaves start deadline turns (is_out_of_time now) out_of_time complete_next m
        (late, p) (λ q. (out_of_time, refl, inl (h.0 q), r))
        (λ q.
          break_if-Leaves start deadline turns (is_complete now) completed otaped_next m
            (complete, pc) (λ q'. (completed, refl, hc.0 q', r))
            (λ _.
              break_if-Leaves start deadline turns (is_otaped now) otaped counted_next m
                (all_otaped, po) (λ q'. (otaped, refl, ho q', r))
                (λ _.
                  break_if-Leaves start deadline turns is_frequency_reached frequency_reached
                    (done waiting) m (counted, pf) (λ q'. (frequency_reached, refl, hf q', r))
                    (λ _. (waiting, refl, in_time h q, r)))))

module _ {start deadline : ℕ} (m : Manager) (r : IsReady start deadline m.inventory) where
  empty-Leaves : (now : ℕ) → Leaves start deadline false (empty now ∷ []) (round (empty now) m)
  unfolding round
  empty-Leaves now =
      let (late, p, h) = is_out_of_time-ready now m.inventory r in
      break_if-Leaves start deadline (empty now ∷ []) (is_out_of_time now) out_of_time
        (done waiting) m (late, p) (λ q. (out_of_time, refl, inl (h.0 q), r))
        (λ q. (waiting, refl, in_time h q, r))

  received-Leaves :
      (adv : Dict ℕ Advertised) (now : ℕ)
      → Leaves start deadline false (received adv now ∷ []) (round (received adv now) m)
  unfolding round
  received-Leaves adv now =
      let (inv, p, ready) = add_nodes-IsReady adv m.inventory r in
      let added : on_inventory (add_nodes adv) (store adv m)
          ≡ (ok tt, put_inventory inv (store adv m)) =
        ap (λ q. (q.0, put_inventory q.1 (store adv m))) p in
      subst (Leaves start deadline false (received adv now ∷ []))
        (sym (
          >>=-ok (on_inventory (add_nodes adv))
            (λ _. break_if (is_out_of_time now) out_of_time (
              break_if (is_complete now) completed (
                break_if (is_otaped now) otaped
                  (break_if is_frequency_reached frequency_reached (done waiting)))))
            added))
        (tests-Leaves (put_inventory inv (store adv m)) ready adv now)

-- A turn that does not set the signal
abbrev IsQuiet : Turn → Type 0
IsQuiet turn = HasExit (turn ∷ []) → ⊥

IsLate-cons :
    (deadline : ℕ) (turn : Turn) (turns : List Turn)
    → IsLate deadline (turn ∷ [])
    → IsLate deadline (turn ∷ turns)
IsLate-cons deadline exit turns h = elim h [ ]
IsLate-cons deadline (received adv now) turns h = elim h [ inl l ↦ inl l | inr e ↦ elim e [ ] ]
IsLate-cons deadline (empty now) turns h = elim h [ inl l ↦ inl l | inr e ↦ elim e [ ] ]

-- A reason among the other turns is one too.
HasExit-tail : (turn : Turn) (turns : List Turn) → HasExit turns → HasExit (turn ∷ turns)
HasExit-tail exit turns h = tt
HasExit-tail (received adv now) turns h = h
HasExit-tail (empty now) turns h = h

IsLate-tail :
    (deadline : ℕ) (turn : Turn) (turns : List Turn)
    → IsLate deadline turns
    → IsLate deadline (turn ∷ turns)
IsLate-tail deadline exit turns h = h
IsLate-tail deadline (received adv now) turns h = inr h
IsLate-tail deadline (empty now) turns h = inr h

-- Where neither the first turn nor the others are a reason, none is.
no_reason :
    (deadline : ℕ) (turn : Turn) (turns : List Turn)
    → (HasReason deadline false (turn ∷ []) → ⊥)
    → (HasReason deadline false turns → ⊥)
    → HasReason deadline false (turn ∷ turns)
    → ⊥
no_reason deadline turn turns first others (inl set) = cc
no_reason deadline exit turns first others (inr h) = first (inr (inl tt))
no_reason deadline (received adv now) turns first others (inr (inl e)) = others (inr (inl e))
no_reason deadline (received adv now) turns first others (inr (inr (inl l))) =
    first (inr (inr (inl l)))
no_reason deadline (received adv now) turns first others (inr (inr (inr l))) = others (inr (inr l))
no_reason deadline (empty now) turns first others (inr (inl e)) = others (inr (inl e))
no_reason deadline (empty now) turns first others (inr (inr (inl l))) = first (inr (inr (inl l)))
no_reason deadline (empty now) turns first others (inr (inr (inr l))) = others (inr (inr l))

Justifies-tail :
    (deadline : ℕ) (turn : Turn) (turns : List Turn) (o : Outcome) (inv : Inventory)
    → (HasReason deadline false (turn ∷ []) → ⊥)
    → Justifies deadline false turns o inv
    → Justifies deadline false (turn ∷ turns) o inv
Justifies-tail deadline turn turns waiting inv first j = no_reason deadline turn turns first j
Justifies-tail deadline turn turns exited inv first j = elim j [
  | inl set ↦ inl set
  | inr e ↦ inr (HasExit-tail turn turns e)
]
Justifies-tail deadline turn turns out_of_time inv first j = IsLate-tail deadline turn turns j
Justifies-tail deadline turn turns completed inv first j = j
Justifies-tail deadline turn turns otaped inv first j = j
Justifies-tail deadline turn turns frequency_reached inv first j = j

-- What the loop does after a round, where it would leave `turns`
after_round :
    (start deadline : ℕ) (turn : Turn) (turns : List Turn) (o : Outcome) (m : Manager)
    → IsQuiet turn
    → Justifies deadline false (turn ∷ []) o m.inventory
    → IsReady start deadline m.inventory
    → m.exit_signal ≡ false
    → LeavesLoop start deadline false turns (loop turns m)
    → LeavesLoop start deadline false (turn ∷ turns) (go_on o (loop turns) m)
after_round start deadline turn turns waiting m quiet j r unset (o, p, later, ready, signal) =
    (o, p, Justifies-tail deadline turn turns o (loop turns m).1.inventory j later, ready, signal)
after_round start deadline turn turns exited m quiet j r unset later =
    absurd (elim j [ inl set ↦ cc | inr e ↦ quiet e ])
after_round start deadline turn turns out_of_time m quiet j r unset later =
    (out_of_time, refl, IsLate-cons deadline turn turns j, r, unset)
after_round start deadline turn turns completed m quiet j r unset later =
    (completed, refl, j, r, unset)
after_round start deadline turn turns otaped m quiet j r unset later = (otaped, refl, j, r, unset)
after_round start deadline turn turns frequency_reached m quiet j r unset later =
    (frequency_reached, refl, j, r, unset)

-- Where the signal is set the loop is left at once.
loop-exited :
    (turns : List Turn) (m : Manager) → m.exit_signal ≡ true → loop turns m ≡ (ok exited, m)
unfolding loop
loop-exited [] m set = rw set refl
loop-exited (turn ∷ turns) m set = rw set refl

-- Where it is not, the next turn counts.
loop-cons :
    (turn : Turn) (turns : List Turn) (m : Manager) (o : Outcome)
    → m.exit_signal ≡ false
    → (round turn m).0 ≡ ok o
    → loop (turn ∷ turns) m ≡ go_on o (loop turns) (round turn m).1
unfolding loop
loop-cons turn turns m o unset p =
    ap (λ b. while_not (round turn >>= λ o. go_on o (loop turns)) b m) unset
    ∙ >>=-ok (round turn) (λ o. go_on o (loop turns)) (ap (λ q. (q, (round turn m).1)) p)

unset-LeavesLoop :
    (start deadline : ℕ) (turns : List Turn) (m : Manager)
    → IsReady start deadline m.inventory
    → m.exit_signal ≡ false
    → LeavesLoop start deadline false turns (loop turns m)
unset-LeavesLoop start deadline [] m r unset =
    unfold loop in
    rw unset (
      waiting,
      refl,
      λ z. elim z [ inl set ↦ cc | inr e ↦ elim e [ inl e ↦ e | inr e ↦ e ] ],
      r,
      refl,
    )
unset-LeavesLoop start deadline (exit ∷ turns) m r unset =
    let once : round exit m ≡ (ok waiting, set_exit m) = unfold round in refl in
    subst (LeavesLoop start deadline false (exit ∷ turns))
      (sym (
        loop-cons exit turns m waiting unset (ap (λ q. q.0) once)
        ∙ ap (λ q. loop turns q.1) once
        ∙ loop-exited turns (set_exit m) refl))
      (exited, refl, inr tt, r, refl)
unset-LeavesLoop start deadline (empty now ∷ turns) m r unset =
    let (o, p, j, ready) = empty-Leaves m r now in
    let after = (round (empty now) m).1 in
    let still = empty-same_signal now m ∙ unset in
    subst (LeavesLoop start deadline false (empty now ∷ turns))
      (sym (loop-cons (empty now) turns m o unset p))
      (after_round start deadline (empty now) turns o after (λ e. e) j ready still
        (unset-LeavesLoop start deadline turns after ready still))
unset-LeavesLoop start deadline (received adv now ∷ turns) m r unset =
    let (o, p, j, ready) = received-Leaves m r adv now in
    let after = (round (received adv now) m).1 in
    let still = received-same_signal adv now m ∙ unset in
    subst (LeavesLoop start deadline false (received adv now ∷ turns))
      (sym (loop-cons (received adv now) turns m o unset p))
      (after_round start deadline (received adv now) turns o after (λ e. e) j ready still
        (unset-LeavesLoop start deadline turns after ready still))

pub loop-LeavesLoop :
    (start deadline : ℕ) (turns : List Turn) (m : Manager)
    → IsReady start deadline m.inventory
    → LeavesLoop start deadline m.exit_signal turns (loop turns m)
loop-LeavesLoop start deadline turns m r = elim (Bool-cases m.exit_signal) [
  | inl set ↦
      subst (λ b. LeavesLoop start deadline b turns (loop turns m)) (sym set)
        (subst (LeavesLoop start deadline true turns) (sym (loop-exited turns m set))
          (exited, refl, inl refl, r, set))
  | inr unset ↦
      subst (λ b. LeavesLoop start deadline b turns (loop turns m)) (sym unset)
        (unset-LeavesLoop start deadline turns m r unset)
]
