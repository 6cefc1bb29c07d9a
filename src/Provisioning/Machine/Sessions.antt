-- ===== src/Provisioning/Machine/Sessions.antt =====
-- What a whole session can report and send, and how it ends when nothing comes back.
use native.Mathlib.Numerals.{add-one}
use mathlib.Core.Path.{ap₂}
use mathlib.Core.List.{append-nil, append_assoc}
use backend_client.Base.{
  ap, ◌∙◌, ℕ, zero, suc, ◌+◌, ◌≤◌, ◌≡◌, refl, true, List, [], ◌∷◌, ◌++◌, sym, arith, inl, inr,
  length, Bool-cases,
}
use backend_client.Base.Int.{pos, pos_part}
use backend_client.Base.Exceptions.{Result, ok, err}
use backend_client.Provisioning.Message.{MessageId}
use backend_client.Provisioning.Data.{ProvisioningData}
use backend_client.Provisioning.Events.{Event, timeout}
use backend_client.Provisioning.Machine.Defs.{
  Machine, Packet, Crypto, wait_data_sent, wait_response, ongoing, error_sending_data,
  error_no_response,
}
use backend_client.Provisioning.Machine.Monad.{◌>>◌}
use backend_client.Provisioning.Machine.Actions.{timer_cancel}
use backend_client.Provisioning.Machine.{
  step, run, new_machine, is_ongoing, dispatch, process_error_data, state_wait_data_sent,
  state_wait_response,
}
use backend_client.Provisioning.Machine.Invariant.{Inv, step-Inv}
use backend_client.Provisioning.Machine.Rounds.{starts, seq_rule, step-IsRound}
use backend_client.Provisioning.Machine.Invariant.{new_machine-Inv}

module _ (crypto : Crypto) where
  run_bounded :
      (es : List Event) (m : Machine)
      → Inv m
      → length (run crypto es m).1.sent + pos_part (run crypto es m).1.retry
        ≤ length m.sent + pos_part m.retry + starts es
  unfolding run
  run_bounded [] m i = omega arith
  run_bounded (e ∷ es) m i = elim (Bool-cases (is_ongoing m.status)) [
    | inr over ↦ rw over (omega arith)
    | inl live ↦
        let o : m.status ≡ ongoing = ground arith in
        rw live (
          seq_rule
            (λ r.
              length r.1.sent + pos_part r.1.retry
              ≤ length m.sent + pos_part m.retry + starts (e ∷ es))
            (step crypto e) (run crypto es) m
            (λ x. omega (arith, (step-IsRound crypto e m o i).bounded))
            (λ _. omega (
              arith,
              (step-IsRound crypto e m o i).bounded,
              run_bounded es (step crypto e m).1 (step-Inv crypto e m o i),
            )))
  ]

-- A session sends at most one packet for each START packet that it received, and one repetition.
pub session_bounded :
    (crypto : Crypto) (es : List Event) (id : MessageId) (whitelist : ProvisioningData)
    (counter : ℕ)
    → length (run crypto es (new_machine id whitelist counter)).1.sent ≤ starts es + 1
session_bounded crypto es id whitelist counter = omega (
  arith,
  run_bounded crypto es (new_machine id whitelist counter) (new_machine-Inv id whitelist counter),
)

-- `n` timeouts, one after the other
abbrev pub timeouts : ℕ → List Event
timeouts zero = []
timeouts (suc n) = timeout ∷ timeouts n

-- The packet that carries a machine's DATA packet to its node, and n such packets
abbrev pub repetition : Machine → Packet
repetition m = record {
  sink_id = m.sink_id;
  gw_id = m.gw_id;
  dest_add = m.sm_id.0;
  src_ep = 255;
  dst_ep = 246;
  qos = 1;
  payload = m.data_pkt;
}

abbrev pub repetitions : ℕ → Packet → List Packet
repetitions zero packet = []
repetitions (suc n) packet = packet ∷ repetitions n packet

module _ (crypto : Crypto) where
  timeout_repeats :
      (m : Machine) (r : ℕ)
      → m.state ≡ wait_data_sent
      → m.retry ≡ pos (suc r)
      → let (q, m') = step crypto timeout m in
        (q ≡ ok tt)
        × (m'.state ≡ wait_data_sent)
        × (m'.retry ≡ pos r)
        × (m'.status ≡ m.status)
        × (m'.sent ≡ m.sent ++ repetition m ∷ [])
        × (repetition m' ≡ repetition m)
  unfolding step dispatch state_wait_data_sent process_error_data
  timeout_repeats m r s t = grind arith

  timeout_gives_up :
      (m : Machine)
      → m.state ≡ wait_data_sent
      → m.retry ≡ pos 0
      → let (q, m') = step crypto timeout m in
        (q ≡ ok tt) × (m'.status ≡ error_sending_data) × (m'.sent ≡ m.sent)
  unfolding step dispatch state_wait_data_sent process_error_data
  timeout_gives_up m s t = ground arith

  timeout_no_response :
      (m : Machine)
      → m.state ≡ wait_response
      → let (q, m') = step crypto timeout m in
        (q ≡ ok tt) × (m'.status ≡ error_no_response) × (m'.sent ≡ m.sent)
  unfolding step dispatch state_wait_response timer_cancel
  timeout_no_response m s = ground arith

  run-cons :
      (e : Event) (es : List Event) (m : Machine)
      → m.status ≡ ongoing
      → (step crypto e m).0 ≡ ok tt
      → run crypto (e ∷ es) m ≡ run crypto es (step crypto e m).1
  unfolding run
  run-cons e es m o d =
      let live : is_ongoing m.status ≡ true = ap is_ongoing o in rw live (go (step crypto e m) d)
    where
      go :
          (r : Result (Unit {0}) × Machine)
          → r.0 ≡ ok tt
          → ◌>>◌ (λ _. r) (run crypto es) m ≡ run crypto es r.1
      go (ok tt', m') p = refl
      go (err x, m') p = cc

  run-timeouts-suc :
      (r : ℕ) (m : Machine)
      → m.status ≡ ongoing
      → m.state ≡ wait_data_sent
      → m.retry ≡ pos r
      → let (q, m') = run crypto (timeouts (suc r)) m in
        (q ≡ ok tt)
        × (m'.status ≡ error_sending_data)
        × (m'.sent ≡ m.sent ++ repetitions r (repetition m))
  run-timeouts-suc zero m o s t =
      let (q, over, same) = timeout_gives_up m s t in
      rw (run-cons timeout [] m o q) (unfold run in (refl, over, same ∙ sym (append-nil m.sent)))
  run-timeouts-suc (suc r) m o s t =
      let (q, waits, left, live, more, same) = timeout_repeats m r s t in
      let m' = (step crypto timeout m).1 in
      let (q', over, sent) = run-timeouts-suc r m' (live ∙ o) waits left in
      rw (run-cons timeout (timeouts (suc r)) m o q) (
        q',
        over,
        sent
            ∙ ap₂ (λ before packet. before ++ repetitions r packet) more same
            ∙ append_assoc m.sent (repetition m ∷ []) (repetitions r (repetition m)),
      )

  -- With `r` retries left a machine that waits for its DATA packet to be sent repeats that packet, to
  -- its node and by its gateway and sink, `r` times, once at each timeout, sends nothing else, and gives
  -- up with ERROR_SENDING_DATA at the next timeout.
  pub run-timeouts :
      (r : ℕ) (m : Machine)
      → m.status ≡ ongoing
      → m.state ≡ wait_data_sent
      → m.retry ≡ pos r
      → let (q, m') = run crypto (timeouts (r + 1)) m in
        (q ≡ ok tt)
        × (m'.status ≡ error_sending_data)
        × (m'.sent ≡ m.sent ++ repetitions r (repetition m))
  run-timeouts r m o s t = rw add-one (run-timeouts-suc r m o s t)
