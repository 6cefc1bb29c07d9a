-- ===== src/Provisioning/Machine/Answers.antt =====
-- The packets with which a machine answers a START packet, byte by byte.
pub mod Little
pub mod Secured
pub mod Unsecured
pub mod Refused
use mathlib.Core.List.{append_assoc, append-nil}
use backend_client.Base.{
  ℕ, suc, ◌+◌, ◌*◌, ◌/◌, ◌%◌, ◌^◌, ◌≤◌, ◌<◌, ◌≡◌, ◌≢◌, ◌∙◌, refl, ap, sym, Bool, true, false,
  Option, none, some, List, [], ◌∷◌, ◌++◌, arith, ◌⊎◌, inl, inr, length, Bytes, take, slice, ltb,
  lt→ltb, ◌==◌, ==_refl,
}
use backend_client.Base.Dict.{lookup}
use backend_client.Base.Int.{ℤ, pos}
use backend_client.Base.Exceptions.{Exception, Result, ok, err, overflow_error}
use backend_client.Provisioning.Message.{
  Start, Method, unsecured, secured, method_code, new_data, data_payload, nack_payload,
  header_payload, byte, two_bytes, NackReason, reason_code, plain_header,
}
use backend_client.Provisioning.Data.{Value, bytes, int, value_eq, Entry, cbor_dict, get_cbor}
use backend_client.Provisioning.Machine.Defs.{
  Machine, Crypto, Packet, State, wait_data_sent, wait_nack_sent, error_not_authorized, started,
}
use backend_client.Provisioning.Machine.Monad.{M, ◌>>=◌, ◌>>◌, >>=-ok, >>=-err}
use backend_client.Provisioning.Machine.Actions.{timer_start, set_state}
use backend_client.Provisioning.Machine.Packets.{
  data_bytes, encrypt_packet, protect, send_content, send_data, send_nack, initial_value,
}
use backend_client.Provisioning.Machine.{process_start, is_authorized, refusal}

-- The bytes of the header of a DATA packet of this machine.
abbrev pub data_packet : Machine → ℕ → ℕ → Bytes → Bytes
data_packet m key_index counter content =
    2 ∷ (m.sm_id.1 ++ m.sm_id.2 ∷ key_index ∷ counter % 256 ∷ counter / 256 ∷ content)

module _ (m : Machine) (content : Bytes) (key : ℕ) (some_content : 0 < length content)
    (session : m.sm_id.2 < 256) (small_key : key < 256) where
  pub data_bytes_lem :
      m.counter < 65536 → data_bytes m content key ≡ ok (data_packet m key m.counter content)
  unfolding data_bytes
  data_bytes_lem c =
      rw
        (
          lt→ltb _ _ some_content,
          lt→ltb _ _ session,
          lt→ltb _ _ small_key,
          lt→ltb _ _ c,
          append-nil,
        )
        (ap (λ r. ok (2 ∷ r))
          (append_assoc m.sm_id.1 (m.sm_id.2 ∷ [])
            (key ∷ m.counter % 256 ∷ m.counter / 256 ∷ content)))

  pub data_bytes_overflow : 65536 ≤ m.counter → data_bytes m content key ≡ err overflow_error
  unfolding data_bytes
  data_bytes_overflow c = ground arith

-- The `send_data` request for a payload, from a machine.
abbrev pub packet_of : Machine → Bytes → Packet
packet_of m b = record {
  sink_id = m.sink_id;
  gw_id = m.gw_id;
  dest_add = m.sm_id.0;
  src_ep = 255;
  dst_ep = 246;
  qos = 1;
  payload = some b;
}

-- The machine after it has sent a DATA packet, with the counter of that packet.
abbrev pub after_data : Machine → ℕ → Bytes → Machine
after_data m n b = record m {
  counter = n;
  data_pkt = some b;
  sent = m.sent ++ packet_of m b ∷ [];
  timer = some (started m.delay);
  state = wait_data_sent;
}

module _ (crypto : Crypto) (msg : Start) (m : Machine) (e : Entry) where
  module _ (found : lookup (bytes msg.uid) m.whitelist ≡ some e)
      (same : e.method ≡ int (pos (method_code msg.method))) where
    pub authorized : is_authorized msg m.whitelist ≡ true
    unfolding is_authorized
    authorized = rw (found, same, ==_refl (int (pos (method_code msg.method))))

    pub get_cbor_found :
        get_cbor crypto.dumps (bytes msg.uid) m.whitelist ≡ ok (crypto.dumps (cbor_dict e))
    unfolding get_cbor
    get_cbor_found = rw found

    send_data-raised :
        {x : Exception} {m' : Machine}
        → protect crypto msg.method msg.uid msg.iv (crypto.dumps (cbor_dict e)) m ≡ (err x, m')
        → send_data crypto msg m ≡ (err x, m')
    unfolding send_data
    send_data-raised p = rw get_cbor_found (
        >>=-err (protect crypto msg.method msg.uid msg.iv (crypto.dumps (cbor_dict e))) send_content
          p)

    -- What the encryption raises, the answer raises.
    pub process_start-raised :
        {x : Exception} {m' : Machine}
        → protect crypto msg.method msg.uid msg.iv (crypto.dumps (cbor_dict e)) m ≡ (err x, m')
        → process_start crypto msg m ≡ (err x, m')
    unfolding process_start
    process_start-raised p = rw authorized (
        >>=-err (send_data crypto msg) (λ _. timer_start >> set_state wait_data_sent)
          (send_data-raised p))

    module _ (content : Bytes) (key n : ℕ)
        (protected : protect crypto msg.method msg.uid msg.iv (crypto.dumps (cbor_dict e)) m
          ≡ (ok (content, key), record m { counter = n }))
        (some_content : 0 < length content) (session : m.sm_id.2 < 256) (small_key : key < 256)
        (small : n < 65536) where
      abbrev packet : Bytes
      packet = data_packet m key n content

      abbrev sent_machine : Machine
      sent_machine = record m {
        counter = n;
        data_pkt = some packet;
        sent = m.sent ++ packet_of m packet ∷ [];
      }

      send_content-sent :
          send_content (content, key) (record m { counter = n }) ≡ (ok tt, sent_machine)
      unfolding send_content
      send_content-sent = rw (
          data_bytes_lem (record m { counter = n }) content key some_content session small_key
            small)

      send_data-sent : send_data crypto msg m ≡ (ok tt, sent_machine)
      unfolding send_data
      send_data-sent = rw get_cbor_found (
          >>=-ok (protect crypto msg.method msg.uid msg.iv (crypto.dumps (cbor_dict e)))
            send_content protected
          ∙ send_content-sent)

      pub process_start-sent : process_start crypto msg m ≡ (ok tt, after_data m n packet)
      unfolding process_start timer_start
      process_start-sent = rw authorized (
          >>=-ok (send_data crypto msg) (λ _. timer_start >> set_state wait_data_sent)
            send_data-sent)
