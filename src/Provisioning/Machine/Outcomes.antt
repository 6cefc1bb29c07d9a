-- ===== src/Provisioning/Machine/Outcomes.antt =====
-- What the parts of `_process_start` change of the machine, and what they leave.
use backend_client.Base.{
  ℕ, ◌+◌, ◌≤◌, ◌≡◌, ◌≢◌, refl, Bool, true, false, none, some, arith, ◌⊎◌, inl, inr, Bytes, length,
  length-append, Bool-cases,
}
use backend_client.Base.Exceptions.{Result, ok, err, Result-cases}
use backend_client.Provisioning.Message.{Start, NackReason, Method, unsecured, secured}
use backend_client.Provisioning.Data.{get_cbor, bytes}
use mathlib.Core.Path.{subst, sym}
use backend_client.Provisioning.Machine.Monad.{◌>>=◌, ◌>>◌}
use backend_client.Provisioning.Machine.Defs.{
  Machine, Crypto, wait_data_sent, wait_nack_sent, error_not_authorized, started,
}
use backend_client.Provisioning.Machine.Actions.{timer_start, set_state}
use backend_client.Provisioning.Machine.Packets.{
  send_data, send_content, send_nack, protect, encrypt_packet,
}
use backend_client.Provisioning.Machine.{process_start, is_authorized, refusal}

-- What `send_data` may change: the counter, and if it succeeds the packet, which it has sent.
pub record SendsData (m : Machine) (r : Result (Unit {0}) × Machine) : Type 0 where
  pub state : r.1.state ≡ m.state
  pub status : r.1.status ≡ m.status
  pub retry : r.1.retry ≡ m.retry
  pub timer : r.1.timer ≡ m.timer
  pub delay : r.1.delay ≡ m.delay
  pub whitelist : r.1.whitelist ≡ m.whitelist
  pub packet : r.0 ≡ ok tt → r.1.data_pkt ≢ none
  pub grows : length r.1.sent ≤ length m.sent + 1
  pub same_id : r.1.sm_id ≡ m.sm_id
  pub kept : r.0 ≢ ok tt → (r.1.data_pkt ≡ m.data_pkt) × (r.1.sent ≡ m.sent)

send_content-SendsData :
    (c : Bytes × ℕ) (n : ℕ) (m : Machine) → SendsData m (send_content c (record m { counter = n }))
unfolding send_content
send_content-SendsData c n m = grind (arith, length-append)

-- The rest of `send_data`, after a step that has changed at most the counter.
after_protect :
    (m : Machine) (r : Result (Bytes × ℕ) × Machine)
    → r.1 ≡ record m { counter = r.1.counter }
    → SendsData m (◌>>=◌ (λ _. r) send_content m)
after_protect m (ok c, m') h =
    subst (λ z. SendsData m (send_content c z)) (sym h) (send_content-SendsData c m'.counter m)
after_protect m (err x, m') h = subst (λ z. SendsData m (err x, z)) (sym h) (ground arith)

module _ (crypto : Crypto) where
  encrypt_packet_counter :
      (uid iv plain : Bytes) (m : Machine)
      → let r = encrypt_packet crypto uid iv plain m in r.1 ≡ record m { counter = r.1.counter }
  unfolding encrypt_packet
  encrypt_packet_counter uid iv plain m = ground arith

  protect_counter :
      (k : Method) (uid iv plain : Bytes) (m : Machine)
      → let r = protect crypto k uid iv plain m in r.1 ≡ record m { counter = r.1.counter }
  unfolding protect
  protect_counter unsecured uid iv plain m = refl
  protect_counter secured uid iv plain m = ground (arith, encrypt_packet_counter uid iv plain m)

  send_data-SendsData : (msg : Start) (m : Machine) → SendsData m (send_data crypto msg m)
  unfolding send_data
  send_data-SendsData msg m =
      elim (Result-cases (get_cbor crypto.dumps (bytes msg.uid) m.whitelist)) [
        | inr (x, e) ↦ rw e (ground arith)
        | inl (plain, e) ↦ rw e (
            after_protect m (protect crypto msg.method msg.uid msg.iv plain m)
              (protect_counter msg.method msg.uid msg.iv plain m))
      ]

-- What `send_nack` may change: only what was sent.
send_nack_sent :
    (reason : NackReason) (m : Machine)
    → let r = send_nack reason m in
      (r.1 ≡ record m { sent = r.1.sent }) × (length r.1.sent ≤ length m.sent + 1)
unfolding send_nack
send_nack_sent reason m = grind (arith, length-append)

-- What `_process_start` has done: it refused the node, or it sent the DATA packet and waits, or it
-- raised and has left the session as it was.
pub record StartsSession (authorized : Bool) (m : Machine) (r : Result (Unit {0}) × Machine)
    : Type 0 where
  pub outcome :
      (r.1.status ≡ error_not_authorized)
      ⊎ ((r.0 ≡ ok tt)
          × (authorized ≡ true)
          × (r.1.status ≡ m.status)
          × (r.1.state ≡ wait_data_sent)
          × (r.1.timer ≡ some (started r.1.delay))
          × (r.1.data_pkt ≢ none))
      ⊎ ((r.0 ≢ ok tt)
          × (r.1.status ≡ m.status)
          × (r.1.state ≡ m.state)
          × (r.1.timer ≡ m.timer)
          × (r.1.data_pkt ≡ m.data_pkt))
  pub retry : r.1.retry ≡ m.retry
  pub delay : r.1.delay ≡ m.delay
  pub whitelist : r.1.whitelist ≡ m.whitelist
  pub grows : length r.1.sent ≤ length m.sent + 1
  pub same_id : r.1.sm_id ≡ m.sm_id

after_send_data :
    (m : Machine) (r : Result (Unit {0}) × Machine)
    → SendsData m r
    → StartsSession true m (◌>>◌ (λ _. r) (timer_start >> set_state wait_data_sent) m)
unfolding timer_start
after_send_data m (ok tt', m') h = ground arith
after_send_data m (err x, m') h = ground arith

after_send_nack :
    (m : Machine) (r : Result (Unit {0}) × Machine)
    → let m0 = record m { status = error_not_authorized } in
      (r.1 ≡ record m0 { sent = r.1.sent }) × (length r.1.sent ≤ length m.sent + 1)
      → StartsSession false m (◌>>◌ (λ _. r) (timer_start >> set_state wait_nack_sent) m)
unfolding timer_start
after_send_nack m (ok tt', m') h = ground arith
after_send_nack m (err x, m') h = ground arith

pub process_start-StartsSession :
    (crypto : Crypto) (msg : Start) (m : Machine)
    → StartsSession (is_authorized msg m.whitelist) m (process_start crypto msg m)
unfolding process_start timer_start
process_start-StartsSession crypto msg m = elim (Bool-cases (is_authorized msg m.whitelist)) [
  | inl yes' ↦
      rw yes' (after_send_data m (send_data crypto msg m) (send_data-SendsData crypto msg m))
  | inr no' ↦ rw no' (
      let m0 = record m { status = error_not_authorized } in
      after_send_nack m (send_nack (refusal msg m0.whitelist) m0)
        (send_nack_sent (refusal msg m0.whitelist) m0))
]
