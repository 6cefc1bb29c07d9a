-- ===== src/Provisioning/Machine/Answers/Little.antt =====
-- The counter block that `_encrypt_packet` makes and reads back.
use backend_client.Base.{ℕ, ◌+◌, ◌%◌, ◌^◌, ◌≡◌, arith, Bytes}
use backend_client.Base.Little.{unsigned_little, unsigned_little-to_little}
use backend_client.Provisioning.Machine.Packets.{initial_value}

pub initial_value_lem :
    (c : ℕ) (iv : Bytes) → initial_value c iv ≡ (c + unsigned_little iv) % 2 ^ 128
unfolding initial_value
initial_value_lem c iv =
    unsigned_little-to_little 16 ((c + unsigned_little iv) % 2 ^ 128) (omega arith)
