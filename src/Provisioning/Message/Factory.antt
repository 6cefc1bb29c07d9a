-- ===== src/Provisioning/Message/Factory.antt =====
-- The `from_message` class methods of provisioning/message.py and `ProvisioningMessageFactory.map`.
use Prim.Native.String.{String}
use backend_client.Base.{ℕ, ◌-◌, some, Bytes, length, slice, drop}
use backend_client.Base.Little.{signed_little}
use backend_client.Base.Exceptions.{
  index, key_error, value_error, provisioning_message, Result, ok, err, ◌>>=◌, ◌>>◌, require,
}
use backend_client.Provisioning.Message.{
  MessageType, start, prov_data, data_ack, nack, message_type, same_type, provisioning_method,
  nack_reason, Header, Start, Payload, Nack, Message, start_message, data_message, data_ack_message,
  nack_message, new_start, new_data,
}

-- The attributes of a received `GenericMessage` that the parsers read. `payload` is the serialised
-- form that the base class of wirepas_messaging offers.
pub record GenericMessage : Type 0 where
  pub data_payload : Bytes
  pub payload : Bytes
  pub source_address : ℕ
  pub gw_id : String
  pub sink_id : String
  pub tx_time : ℕ

-- `try: … except ValueError: raise ProvisioningMessageException`
abbrev pub except_value_error {ℓ} : {A : Type ℓ} → Result A → Result A
except_value_error (err value_error) = err provisioning_message
except_value_error r = r

-- The arguments that each parser passes on from the received message.
abbrev pub received_header : GenericMessage → Bytes → ℕ → Header
received_header g node session = record {
  node_address = node;
  session_id = session;
  source_address = some g.source_address;
  gw_id = some g.gw_id;
  sink_id = some g.sink_id;
  tx_time = some g.tx_time;
}

-- The check of the message type with which each `from_message` begins.
unfoldable pub expect_type : MessageType → Bytes → Result (Unit {0})
unfolding message_type
expect_type t b =
    except_value_error
      (do found ← message_type (← index b 0); require (same_type found t) provisioning_message)

-- `ProvisioningMessageSTART.from_message`
unfoldable pub start_from_message : GenericMessage → Result Start
unfolding expect_type provisioning_method new_start
start_from_message g = do
  expect_type start g.data_payload
  method ← except_value_error (index g.data_payload 6 >>= provisioning_method)
  session ← index g.data_payload 5
  new_start (received_header g (slice 1 5 g.data_payload) session) method
      (slice 7 23 g.data_payload) (drop 23 g.data_payload)

-- `ProvisioningMessageDATA.from_message`: the content is `data_payload[9:-6]` and the code
-- `data_payload[:-5]`. A negative bound counts from the end and stops at the start.
unfoldable pub data_from_message : GenericMessage → Result Payload
unfolding expect_type new_data signed_little
data_from_message g = do
  expect_type prov_data g.data_payload
  let counter = signed_little (slice 7 9 g.payload)
  session ← index g.data_payload 5
  key_index ← index g.data_payload 6
  new_data (received_header g (slice 1 5 g.data_payload) session) counter
      (slice 9 (length g.data_payload - 6) g.data_payload) key_index
      (slice 0 (length g.data_payload - 5) g.data_payload)

-- `ProvisioningMessageDATA_ACK.from_message`
unfoldable pub data_ack_from_message : GenericMessage → Result Header
unfolding expect_type
data_ack_from_message g = do
  expect_type data_ack g.data_payload
  session ← index g.data_payload 5
  ok (received_header g (slice 1 5 g.data_payload) session)

-- `ProvisioningMessageNACK.from_message`
unfoldable pub nack_from_message : GenericMessage → Result Nack
unfolding expect_type nack_reason
nack_from_message g = do
  expect_type nack g.data_payload
  reason ← except_value_error (index g.data_payload 6 >>= nack_reason)
  session ← index g.data_payload 5
  ok (record { header = received_header g (slice 1 5 g.data_payload) session; reason = reason })

-- The dictionary `_type` and the call of the class's `from_message`.
unfoldable pub dispatch : MessageType → GenericMessage → Result Message
unfolding start_from_message data_from_message data_ack_from_message nack_from_message
dispatch start g = do m ← start_from_message g; ok (start_message m)
dispatch prov_data g = do m ← data_from_message g; ok (data_message m)
dispatch data_ack g = do h ← data_ack_from_message g; ok (data_ack_message h)
dispatch nack g = do m ← nack_from_message g; ok (nack_message m)

-- `except KeyError` and `except ValueError` of `map`
abbrev pub except_lookup {ℓ} : {A : Type ℓ} → Result A → Result A
except_lookup (err key_error) = err provisioning_message
except_lookup (err value_error) = err provisioning_message
except_lookup r = r

-- `ProvisioningMessageFactory.map`
unfoldable pub map_message : GenericMessage → Result Message
unfolding message_type dispatch
map_message g = except_lookup (do t ← message_type (← index g.data_payload 0); dispatch t g)
