-- ===== src/Provisioning/Machine/Answers/Secured.antt =====
-- The DATA packet of a secured session: what is encrypted and authenticated, and with which keys.
use backend_client.Base.{
  ℕ, ◌+◌, ◌%◌, ◌^◌, ◌≤◌, ◌<◌, ◌≡◌, some, ◌++◌, arith, length, Bytes, take, drop, slice,
  length-append, length-take, length-drop,
}
use backend_client.Base.Dict.{lookup}
use backend_client.Base.Int.{pos}
use backend_client.Base.Exceptions.{ok, err, overflow_error}
use backend_client.Provisioning.Message.{Start, secured}
use backend_client.Base.Little.{unsigned_little}
use backend_client.Provisioning.Data.{bytes, int, value_eq, Entry, cbor_dict}
use backend_client.Provisioning.Machine.Defs.{Machine, Crypto}
use backend_client.Provisioning.Machine.Monad.{>>=-ok, >>=-err, done}
use backend_client.Provisioning.Machine.Packets.{encrypt_packet, protect, initial_value}
use backend_client.Provisioning.Machine.{process_start}
use backend_client.Provisioning.Machine.Answers.{
  data_packet, after_data, data_bytes_lem, data_bytes_overflow, process_start-sent,
  process_start-raised,
}
use backend_client.Provisioning.Machine.Answers.Little.{initial_value_lem}

-- AES in counter mode keeps the length of a text, and undoes itself under one key and counter.
pub record IsCounterMode (crypto : Crypto) : Type 0 where
  pub length_kept : (key : Bytes) (n : ℕ) (x : Bytes) → length (crypto.ctr key n x) ≡ length x
  pub inverse : (key : Bytes) (n : ℕ) (x : Bytes) → crypto.ctr key n (crypto.ctr key n x) ≡ x

module _ (crypto : Crypto) (msg : Start) (m : Machine) (e : Entry) (factory : Bytes) where
  abbrev pub auth_key : Bytes
  auth_key = slice 0 16 factory

  abbrev pub enc_key : Bytes
  enc_key = slice 16 32 factory

  abbrev pub plain : Bytes
  plain = crypto.dumps (cbor_dict e)

  -- The text and the first five bytes of the code of header and text.
  abbrev pub with_mic : Bytes
  with_mic = plain ++ take 5 (crypto.cmac auth_key (data_packet m 1 (m.counter + 1) plain))

  abbrev counted : Machine
  counted = record m { counter = m.counter + 1 }

  abbrev encrypted : Bytes
  encrypted = crypto.ctr enc_key (initial_value (m.counter + 1) msg.iv) with_mic

  module _ (found : lookup (bytes msg.uid) m.whitelist ≡ some e)
      (keyed : e.factory_key ≡ some (bytes factory)) (size : length factory ≡ 32)
      (some_plain : 0 < length plain) (session : m.sm_id.2 < 256) where
    encrypt_packet-encrypted :
        m.counter + 1 < 65536
        → encrypt_packet crypto msg.uid msg.iv plain m ≡ (ok encrypted, counted)
    unfolding encrypt_packet
    encrypt_packet-encrypted small = ground (
      arith,
      found,
      keyed,
      data_bytes_lem counted plain 1 some_plain session (omega arith) small,
      length-take 16 factory,
      length-take 16 (drop 16 factory),
      length-drop 16 factory,
    )

    encrypt_packet-overflow :
        65536 ≤ m.counter + 1
        → encrypt_packet crypto msg.uid msg.iv plain m ≡ (err overflow_error, counted)
    unfolding encrypt_packet
    encrypt_packet-overflow big = ground (
      arith,
      found,
      keyed,
      data_bytes_overflow counted plain 1 some_plain session (omega arith) big,
    )

    module _ (small : m.counter + 1 < 65536) (mode : IsCounterMode crypto) where
      protect-encrypted :
          msg.method ≡ secured
          → protect crypto msg.method msg.uid msg.iv plain m ≡ (ok (encrypted, 1), counted)
      unfolding protect
      protect-encrypted s = rw s (
          >>=-ok (encrypt_packet crypto msg.uid msg.iv plain) (λ c. done (c, 1))
            (encrypt_packet-encrypted small))

      some_encrypted : 0 < length encrypted
      some_encrypted = omega (
        arith,
        mode.length_kept enc_key (initial_value (m.counter + 1) msg.iv) with_mic,
        length-append {0} plain
            (take 5 (crypto.cmac auth_key (data_packet m 1 (m.counter + 1) plain))),
      )

-- A START packet with the secured method, of a node that is authorised with it and has a factory key
-- of 32 bytes, is answered with a DATA packet that carries the next counter and key index 1. The
-- second half of the factory key decrypts its content, in counter mode from the counter plus the
-- packet's IV modulo 2^128, to the node's CBOR data and five bytes of the code, under the first half,
-- of the packet's header and that data. The machine then waits with its timer started. The session
-- identifier is a byte, the encoder returns at least one byte, and the next counter fits two bytes.
pub process_start-secured :
    (crypto : Crypto) (msg : Start) (m : Machine) (e : Entry) (factory : Bytes)
    → IsCounterMode crypto
    → msg.method ≡ secured
    → lookup (bytes msg.uid) m.whitelist ≡ some e
    → e.method ≡ int (pos 1)
    → e.factory_key ≡ some (bytes factory)
    → length factory ≡ 32
    → 0 < length (crypto.dumps (cbor_dict e))
    → m.sm_id.2 < 256
    → m.counter + 1 < 65536
    → (content : Bytes) × (process_start crypto msg m
        ≡ (ok tt, after_data m (m.counter + 1) (data_packet m 1 (m.counter + 1) content)))
      × (crypto.ctr
            (slice 16 32 factory)
            ((m.counter + 1 + unsigned_little msg.iv) % 2 ^ 128)
            content
          ≡ crypto.dumps (cbor_dict e)
            ++ take 5 (
                crypto.cmac
                  (slice 0 16 factory)
                  (data_packet m 1 (m.counter + 1) (crypto.dumps (cbor_dict e)))))
process_start-secured crypto msg m e factory mode s found same keyed size d session small = (
  encrypted crypto msg m e factory,
  process_start-sent crypto msg m e found (rw s same) (encrypted crypto msg m e factory) 1
      (m.counter + 1)
      (protect-encrypted crypto msg m e factory found keyed size d session small mode s)
      (some_encrypted crypto msg m e factory found keyed size d session small mode) session
      (omega arith) small,
  rw (← initial_value_lem (m.counter + 1) msg.iv) (
      mode.inverse (slice 16 32 factory) (initial_value (m.counter + 1) msg.iv)
        (with_mic crypto msg m e factory)),
)

-- Where the next counter does not fit two bytes, the answer to such a START packet raises
-- `OverflowError`: nothing is sent, and status and state stay what they were.
pub process_start-overflow :
    (crypto : Crypto) (msg : Start) (m : Machine) (e : Entry) (factory : Bytes)
    → msg.method ≡ secured
    → lookup (bytes msg.uid) m.whitelist ≡ some e
    → e.method ≡ int (pos 1)
    → e.factory_key ≡ some (bytes factory)
    → length factory ≡ 32
    → 0 < length (crypto.dumps (cbor_dict e))
    → m.sm_id.2 < 256
    → 65536 ≤ m.counter + 1
    → process_start crypto msg m ≡ (err overflow_error, record m { counter = m.counter + 1 })
unfolding protect
process_start-overflow crypto msg m e factory s found same keyed size d session big =
    process_start-raised crypto msg m e found (rw s same) (
      rw s (
        >>=-err (encrypt_packet crypto msg.uid msg.iv (crypto.dumps (cbor_dict e)))
          (λ c. done (c, 1))
          (encrypt_packet-overflow crypto msg m e factory found keyed size d session big)))
