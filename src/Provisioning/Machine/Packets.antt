-- ===== src/Provisioning/Machine/Packets.antt =====
-- The packets that a machine builds and sends: `_send_packet`, `_encrypt_packet`, and the parts of
-- `_process_start` that make a DATA or a NACK packet.
use backend_client.Base.{
  ℕ, ◌+◌, ◌%◌, ◌^◌, ◌||◌, Option, none, some, [], ◌∷◌, ◌++◌, Bytes, length, slice, take, eqb,
  if◌then◌else◌,
}
use backend_client.Base.Dict.{lookup}
use backend_client.Base.Int.{pos}
use backend_client.Base.Exceptions.{Result, ok, err, key_error, type_error, value_error, or_raise}
use backend_client.Base.Exceptions
use backend_client.Provisioning.Message.{
  Start, NackReason, Method, unsecured, secured, plain_header, new_data, data_payload, nack_payload,
}
use backend_client.Base.Little.{unsigned_little, to_little}
use backend_client.Provisioning.Data.{Value, bytes, text, int, value_eq, get_cbor}
use backend_client.Provisioning.Machine.Defs.{Machine, Crypto}
use backend_client.Provisioning.Machine.Monad.{M, ◌>>=◌, ◌>>◌, gets, modify, lift, done}

-- `_send_packet`
unfoldable pub send_packet : Option Bytes → M (Unit {0})
send_packet payload = modify λ m. record m {
  sent =
      m.sent
      ++ record {
        sink_id = m.sink_id;
        gw_id = m.gw_id;
        dest_add = m.sm_id.0;
        src_ep = 255;
        dst_ep = 246;
        qos = 1;
        payload = payload;
      }
        ∷ [];
}

-- `v[i:j]`; an integer cannot be sliced.
abbrev pub value_slice : ℕ → ℕ → Value → Result Value
value_slice i j (bytes b) = ok (bytes (slice i j b))
value_slice i j (text s) = ok (text (slice i j s))
value_slice i j (int n) = err type_error

-- AES takes a key of 16, 24 or 32 bytes.
abbrev pub aes_key : Value → Result Bytes
aes_key (bytes b) =
    if eqb (length b) 16 || eqb (length b) 24 || eqb (length b) 32 then ok b else err value_error
aes_key _ = err type_error

-- `self.data[uid]["factory_key"]`
abbrev pub factory_key_of : Bytes → Machine → Result Value
factory_key_of uid m = elim (lookup (bytes uid) m.whitelist) [
  | none ↦ err key_error
  | some e ↦ or_raise e.factory_key key_error
]

-- The DATA packet of this machine, `ProvisioningMessageDATA(…).payload`
unfoldable pub data_bytes : Machine → Bytes → ℕ → Result Bytes
unfolding new_data data_payload
data_bytes m content key_index =
    Exceptions.◌>>=◌
      (new_data (plain_header m.sm_id.1 m.sm_id.2) (pos m.counter) content key_index [])
      data_payload

-- The initial counter block, as a number: it is written to 16 bytes and read back.
unfoldable pub initial_value : ℕ → Bytes → ℕ
unfolding to_little unsigned_little
initial_value counter iv = unsigned_little (to_little 16 ((counter + unsigned_little iv) % 2 ^ 128))

-- The DATA packet with a content and a key index is made, stored and sent.
unfoldable pub send_content : Bytes × ℕ → M (Unit {0})
unfolding send_packet
send_content content = do
  packet ← gets (λ m. data_bytes m content.0 content.1)
  data_packet ← lift packet
  modify (λ m. record m { data_pkt = some data_packet })
  send_packet (some data_packet)

module _ (crypto : Crypto) where
  -- `_encrypt_packet`
  unfoldable pub encrypt_packet : Bytes → Bytes → Bytes → M Bytes
  encrypt_packet uid iv plain_text = do
    factory ← gets (factory_key_of uid)
    enc_key ← lift (Exceptions.◌>>=◌ factory (value_slice 16 32))
    auth_key ← lift (Exceptions.◌>>=◌ factory (value_slice 0 16))
    modify λ m. record m { counter = m.counter + 1 }
    to_auth ← gets (λ m. data_bytes m plain_text 1)
    authenticated ← lift to_auth
    mac_key ← lift (aes_key auth_key)
    let mic = take 5 (crypto.cmac mac_key authenticated)
    counter ← gets (λ m. m.counter)
    key ← lift (aes_key enc_key)
    done (crypto.ctr key (initial_value counter iv) (plain_text ++ mic))

  -- The content of the DATA packet and the index of its key, by `msg.method`.
  unfoldable pub protect : Method → Bytes → Bytes → Bytes → M (Bytes × ℕ)
  protect unsecured uid iv plain = done (plain, 0)
  protect secured uid iv plain = do content ← encrypt_packet uid iv plain; done (content, 1)

  -- The part of `_process_start` that makes and sends the DATA packet.
  unfoldable pub send_data : Start → M (Unit {0})
  send_data msg = do
    plain ← gets (λ m. get_cbor crypto.dumps (bytes msg.uid) m.whitelist)
    data_plain ← lift plain
    content ← protect msg.method msg.uid msg.iv data_plain
    send_content content

-- A NACK packet with a reason is made and sent.
unfoldable pub send_nack : NackReason → M (Unit {0})
unfolding send_packet
send_nack reason = do
  packet ←
      gets
        (λ m. nack_payload (record { header = plain_header m.sm_id.1 m.sm_id.2; reason = reason }))
  nack_packet ← lift packet
  send_packet (some nack_packet)
