-- ===== src/Provisioning/Machine/Answers/Unsecured.antt =====
-- The DATA packet of an unsecured session.
use backend_client.Base.{◌<◌, ◌≡◌, refl, arith, some, length}
use backend_client.Base.Dict.{lookup}
use backend_client.Base.Int.{pos}
use backend_client.Base.Exceptions.{ok}
use backend_client.Provisioning.Message.{Start, unsecured}
use backend_client.Provisioning.Data.{bytes, int, value_eq, Entry, cbor_dict}
use backend_client.Provisioning.Machine.Defs.{Machine, Crypto}
use backend_client.Provisioning.Machine.Packets.{protect}
use backend_client.Provisioning.Machine.{process_start}
use backend_client.Provisioning.Machine.Answers.{data_packet, after_data, process_start-sent}

-- A START packet with the unsecured method, of a node that is authorised with it, is answered with a
-- DATA packet that carries the counter as it is, key index 0 and the node's CBOR data in clear; the
-- machine then waits with its timer started. The session identifier is a byte, the encoder returns
-- at least one byte, and the counter fits two bytes.
process_start-unsecured :
    (crypto : Crypto) (msg : Start) (m : Machine) (e : Entry)
    → msg.method ≡ unsecured
    → lookup (bytes msg.uid) m.whitelist ≡ some e
    → e.method ≡ int (pos 0)
    → 0 < length (crypto.dumps (cbor_dict e))
    → m.sm_id.2 < 256
    → m.counter < 65536
    → process_start crypto msg m
      ≡ (ok tt, after_data m m.counter (data_packet m 0 m.counter (crypto.dumps (cbor_dict e))))
unfolding protect
process_start-unsecured crypto msg m e u found same d session small =
    process_start-sent crypto msg m e found (rw u same) (crypto.dumps (cbor_dict e)) 0 m.counter
      (rw u refl) d session (omega arith) small
