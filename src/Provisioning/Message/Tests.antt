-- ===== src/Provisioning/Message/Tests.antt =====
-- The messages of provisioning/message.py at concrete packets.
use backend_client.Base.{◌<◌, ◌≡◌, ◌↔◌, refl, [], ◌∷◌, ◌++◌, arith, Bytes, length}
use backend_client.Base.Exceptions.{index_error, provisioning_message, ok, err}
use backend_client.Provisioning.Message.{
  secured, invalid_key, Message, start_message, data_ack_message, nack_message, plain_header,
  payload,
}
use backend_client.Provisioning.Message.Factory.{GenericMessage, received_header, map_message}
use backend_client.Provisioning.Message.RoundTrip.{received_as, map-payload}
use backend_client.Provisioning.Message.Kept.{payload-map}
use backend_client.Provisioning.Message.Errors.{
  indexed, map_message-index_error_iff, map_message-data,
}

abbrev packet : Bytes → GenericMessage
packet b = record {
  data_payload = b;
  payload = [];
  source_address = 77;
  gw_id = "gateway";
  sink_id = "sink1";
  tx_time = 1000;
}

abbrev iv : Bytes
iv = 0 ∷ 1 ∷ 2 ∷ 3 ∷ 4 ∷ 5 ∷ 6 ∷ 7 ∷ 8 ∷ 9 ∷ 10 ∷ 11 ∷ 12 ∷ 13 ∷ 14 ∷ 15 ∷ []

abbrev start_bytes : Bytes
start_bytes = 1 ∷ 10 ∷ 20 ∷ 30 ∷ 40 ∷ 7 ∷ 1 ∷ (iv ++ 0xa1 ∷ 0xa2 ∷ [])

abbrev a_start : Message
a_start = start_message (record {
  header = plain_header (10 ∷ 20 ∷ 30 ∷ 40 ∷ []) 7;
  method = secured;
  iv = iv;
  uid = 0xa1 ∷ 0xa2 ∷ [];
})

map-payload_example :
    map_message (packet start_bytes) ≡ ok (received_as (packet start_bytes) a_start)
unfolding payload
map-payload_example =
    map-payload a_start (packet start_bytes) (refl, refl, omega arith) (λ e. cc) refl

-- A NACK packet with two bytes too many: they are not kept.
abbrev long_nack : Bytes
long_nack = 4 ∷ 10 ∷ 20 ∷ 30 ∷ 40 ∷ 7 ∷ 3 ∷ 99 ∷ 98 ∷ []

abbrev a_nack : Message
a_nack = nack_message (record {
  header = received_header (packet long_nack) (10 ∷ 20 ∷ 30 ∷ 40 ∷ []) 7;
  reason = invalid_key;
})

payload-map_example : payload a_nack ≡ ok (4 ∷ 10 ∷ 20 ∷ 30 ∷ 40 ∷ 7 ∷ 3 ∷ [])
unfolding map_message
payload-map_example = payload-map (packet long_nack) a_nack (omega arith) refl

-- Six bytes are enough for a DATA_ACK packet, and not for a NACK packet.
abbrev short_nack : Bytes
short_nack = 4 ∷ 10 ∷ 20 ∷ 30 ∷ 40 ∷ 7 ∷ []

map_message-index_error_iff_example :
    (map_message (packet short_nack) ≡ err index_error) ↔ (length short_nack < indexed short_nack)
map_message-index_error_iff_example = map_message-index_error_iff (packet short_nack)

ack_reads :
    map_message (packet (3 ∷ 10 ∷ 20 ∷ 30 ∷ 40 ∷ 7 ∷ []))
    ≡ ok (data_ack_message (received_header (packet []) (10 ∷ 20 ∷ 30 ∷ 40 ∷ []) 7))
unfolding map_message
ack_reads = refl

abbrev data_bytes : Bytes
data_bytes = 2 ∷ 10 ∷ 20 ∷ 30 ∷ 40 ∷ 7 ∷ 0 ∷ 1 ∷ 0 ∷ 0xa1 ∷ 0x00 ∷ 0x41 ∷ 1 ∷ 2 ∷ 3 ∷ 4 ∷ 5 ∷ []

map_message-data_example : map_message (packet data_bytes) ≡ err provisioning_message
map_message-data_example = map_message-data (packet data_bytes) refl (omega arith)
