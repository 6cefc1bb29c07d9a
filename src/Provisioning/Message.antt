-- ===== src/Provisioning/Message.antt =====
-- wirepas_backend_client/provisioning/message.py: the four messages of the provisioning protocol,
-- their constructors' checks, their bytes, and the factory that reads a received payload.
pub mod Factory
pub mod RoundTrip
pub mod Kept
pub mod Errors
mod Tests
use backend_client.Base.{
  ℕ, suc, ◌+◌, ◌-◌, ◌≡◌, refl, Bool, true, false, not, Option, none, some, List, [], ◌∷◌, ◌++◌,
  arith, Bytes, length, get_elem?, slice, drop, ltb, eqb, if◌then◌else◌, ◌||◌, ◌/◌, ◌%◌,
}
use backend_client.Base.Exceptions.{
  Exception, index_error, value_error, overflow_error, provisioning_message, Result, ok, err, ◌>>=◌,
  ◌>>◌, require, or_raise,
}
use backend_client.Base.Int.{ℤ, pos, negsuc}
use Prim.Native.String.{String}

-- `ProvisioningMessageTypes`
pub data MessageType : Type 0 where
  start prov_data data_ack nack : MessageType

abbrev pub type_code : MessageType → ℕ
type_code start = 1
type_code prov_data = 2
type_code data_ack = 3
type_code nack = 4

-- An enumeration called with a number that it does not have raises `ValueError`.
unfoldable pub message_type : ℕ → Result MessageType
message_type n =
    if eqb n 1
    then ok start
    else if eqb n 2
    then ok prov_data
    else if eqb n 3
    then ok data_ack
    else if eqb n 4
    then ok nack
    else err value_error

abbrev pub same_type : MessageType → MessageType → Bool
same_type a b = eqb (type_code a) (type_code b)

-- `ProvisioningMethod`
pub data Method : Type 0 where
  unsecured secured : Method

abbrev pub method_code : Method → ℕ
method_code unsecured = 0
method_code secured = 1

unfoldable pub provisioning_method : ℕ → Result Method
provisioning_method n =
    if eqb n 0 then ok unsecured else if eqb n 1 then ok secured else err value_error

-- `ProvisioningNackReason`
pub data NackReason : Type 0 where
  not_authorized method_not_supported invalid_data invalid_key : NackReason

abbrev pub reason_code : NackReason → ℕ
reason_code not_authorized = 0
reason_code method_not_supported = 1
reason_code invalid_data = 2
reason_code invalid_key = 3

unfoldable pub nack_reason : ℕ → Result NackReason
nack_reason n =
    if eqb n 0
    then ok not_authorized
    else if eqb n 1
    then ok method_not_supported
    else if eqb n 2
    then ok invalid_data
    else if eqb n 3
    then ok invalid_key
    else err value_error

-- The attributes that `ProvisioningMessage.__init__` stores beside the type. Times are instants,
-- compared as numbers.
pub record Header : Type 0 where
  pub node_address : Bytes
  pub session_id : ℕ
  pub source_address : Option ℕ
  pub gw_id : Option String
  pub sink_id : Option String
  pub tx_time : Option ℕ

-- A message that is only sent has the defaults `None`.
abbrev pub plain_header : Bytes → ℕ → Header
plain_header node session = record {
  node_address = node;
  session_id = session;
  source_address = none;
  gw_id = none;
  sink_id = none;
  tx_time = none;
}

-- The subclasses.
pub record Start : Type 0 where
  pub header : Header
  pub method : Method
  pub iv : Bytes
  pub uid : Bytes

pub record Payload : Type 0 where
  pub header : Header
  pub key_index : ℕ
  pub counter : ℤ
  pub content : Bytes
  pub mic : Bytes

pub record Nack : Type 0 where
  pub header : Header
  pub reason : NackReason

pub data Message : Type 0 where
  start_message : Start → Message
  data_message : Payload → Message
  data_ack_message : Header → Message
  nack_message : Nack → Message

abbrev pub header_of : Message → Header
header_of (start_message m) = m.header
header_of (data_message m) = m.header
header_of (data_ack_message h) = h
header_of (nack_message m) = m.header

-- `msg_type`
abbrev pub type_of : Message → MessageType
type_of (start_message _) = start
type_of (data_message _) = prov_data
type_of (data_ack_message _) = data_ack
type_of (nack_message _) = nack

-- `msg_id`
abbrev pub MessageId : Type 0
MessageId = Option ℕ × Bytes × ℕ

abbrev pub msg_id : Header → MessageId
msg_id h = (h.source_address, h.node_address, h.session_id)

-- `ProvisioningMessageSTART.__init__`; the method is a member of the enumeration already.
unfoldable pub new_start : Header → Method → Bytes → Bytes → Result Start
new_start h m iv uid = do
  require (eqb (length iv) 16) provisioning_message
  require (ltb 0 (length uid)) provisioning_message
  ok (record { header = h; method = m; iv = iv; uid = uid })

-- `ProvisioningMessageDATA.__init__`
unfoldable pub new_data : Header → ℤ → Bytes → ℕ → Bytes → Result Payload
new_data h counter content key_index mic = do
  require (ltb 0 (length content)) provisioning_message
  require (eqb (length mic) 0 || eqb (length mic) 5) provisioning_message
  ok (record { header = h; key_index = key_index; counter = counter; content = content; mic = mic })

-- `bytes([n])`
unfoldable pub byte : ℕ → Result Bytes
byte n = if ltb n 256 then ok (n ∷ []) else err value_error

-- `n.to_bytes(2, byteorder="little")`
unfoldable pub two_bytes : ℤ → Result Bytes
two_bytes (pos n) = if ltb n 65536 then ok (n % 256 ∷ n / 256 ∷ []) else err overflow_error
two_bytes (negsuc n) = err overflow_error

-- `ProvisioningMessage.payload`
unfoldable pub header_payload : MessageType → Header → Result Bytes
unfolding byte
header_payload t h = do
  kind ← byte (type_code t)
  session ← byte h.session_id
  ok (kind ++ (h.node_address ++ session))

-- The `payload` of each subclass.
unfoldable pub start_payload : Start → Result Bytes
unfolding header_payload byte
start_payload m = do
  head ← header_payload start m.header
  method ← byte (method_code m.method)
  ok (head ++ (method ++ (m.iv ++ m.uid)))

unfoldable pub data_payload : Payload → Result Bytes
unfolding header_payload byte two_bytes
data_payload m = do
  head ← header_payload prov_data m.header
  key ← byte m.key_index
  counter ← two_bytes m.counter
  ok (head ++ (key ++ (counter ++ (m.content ++ m.mic))))

unfoldable pub nack_payload : Nack → Result Bytes
unfolding header_payload byte
nack_payload m = do
  head ← header_payload nack m.header
  reason ← byte (reason_code m.reason)
  ok (head ++ reason)

unfoldable pub payload : Message → Result Bytes
unfolding start_payload data_payload nack_payload header_payload
payload (start_message m) = start_payload m
payload (data_message m) = data_payload m
payload (data_ack_message h) = header_payload data_ack h
payload (nack_message m) = nack_payload m
