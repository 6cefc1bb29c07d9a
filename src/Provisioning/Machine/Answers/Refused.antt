-- ===== src/Provisioning/Machine/Answers/Refused.antt =====
-- The NACK packet that refuses a node.
use backend_client.Base.{
  ◌<◌, ◌≡◌, ◌⊎◌, ◌↔◌, ap, arith, false, none, some, [], ◌∷◌, ◌++◌, lt→ltb, Bytes,
}
use mathlib.Core.List.{append_assoc}
use backend_client.Base.Dict.{lookup}
use backend_client.Base.Exceptions.{ok}
use backend_client.Provisioning.Message.{
  Start, NackReason, not_authorized, method_not_supported, reason_code, nack_payload, plain_header,
}
use backend_client.Provisioning.Data.{bytes, value_eq}
use backend_client.Provisioning.Machine.Defs.{
  Machine, Crypto, error_not_authorized, wait_nack_sent, started,
}
use backend_client.Provisioning.Machine.Monad.{◌>>◌, >>=-ok}
use backend_client.Provisioning.Machine.Actions.{timer_start, set_state}
use backend_client.Provisioning.Machine.Packets.{send_nack}
use backend_client.Provisioning.Machine.{process_start, is_authorized, refusal}
use backend_client.Provisioning.Machine.Answers.{packet_of}
use backend_client.Provisioning.Message.RoundTrip.{byte-reason_code}

-- The bytes of a NACK packet of this machine.
abbrev pub nack_packet : Machine → NackReason → Bytes
nack_packet m r = 4 ∷ (m.sm_id.1 ++ m.sm_id.2 ∷ reason_code r ∷ [])

-- The machine after it has refused a node.
abbrev pub after_nack : Machine → NackReason → Machine
after_nack m r = record m {
  status = error_not_authorized;
  sent = m.sent ++ packet_of m (nack_packet m r) ∷ [];
  timer = some (started m.delay);
  state = wait_nack_sent;
}

nack_payload_lem :
    (m : Machine) (r : NackReason)
    → m.sm_id.2 < 256
    → nack_payload (record { header = plain_header m.sm_id.1 m.sm_id.2; reason = r })
      ≡ ok (nack_packet m r)
unfolding nack_payload
nack_payload_lem m r s =
    rw (lt→ltb _ _ s, byte-reason_code r)
      (ap (λ b. ok (4 ∷ b)) (append_assoc m.sm_id.1 (m.sm_id.2 ∷ []) (reason_code r ∷ [])))

send_nack_lem :
    (m : Machine) (r : NackReason)
    → m.sm_id.2 < 256
    → send_nack r m ≡ (ok tt, record m { sent = m.sent ++ packet_of m (nack_packet m r) ∷ [] })
unfolding send_nack
send_nack_lem m r s = rw (nack_payload_lem m r s)

-- A START packet of a node that is not authorised with its method is answered with a NACK packet,
-- and the session is over with ERROR_NOT_AUTHORIZED. The reason is NOT_AUTHORIZED exactly if the UID
-- is unknown, and METHOD_NOT_SUPPORTED otherwise. The session identifier is a byte.
pub process_start-refused :
    (crypto : Crypto) (msg : Start) (m : Machine)
    → is_authorized msg m.whitelist ≡ false
    → m.sm_id.2 < 256
    → (r : NackReason) × (process_start crypto msg m ≡ (ok tt, after_nack m r))
      × (r ≡ not_authorized ↔ lookup (bytes msg.uid) m.whitelist ≡ none)
      × ((r ≡ not_authorized) ⊎ (r ≡ method_not_supported))
unfolding process_start timer_start refusal
process_start-refused crypto msg m no' s =
    let r = refusal msg m.whitelist in
    let m0 = record m { status = error_not_authorized } in
    (
      r,
      rw no' (
          >>=-ok (send_nack r) (λ _. timer_start >> set_state wait_nack_sent)
            (send_nack_lem m0 r s)),
      ground arith,
      ground arith,
    )
