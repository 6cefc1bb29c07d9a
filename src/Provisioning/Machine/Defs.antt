-- ===== src/Provisioning/Machine/Defs.antt =====
-- The attributes of `ProvisioningStateMachine`, and what it uses of other libraries.
use Prim.Native.String.{String}
use backend_client.Base.{ℕ, Option, List, Bytes}
use backend_client.Base.Dict.{Dict}
use backend_client.Base.Int.{ℤ}
use backend_client.Provisioning.Message.{MessageId}
use backend_client.Provisioning.Data.{Value, ProvisioningData}

-- `ProvisioningStates`
pub data State : Type 0 where
  idle wait_data_sent wait_response wait_nack_sent : State

-- `ProvisioningStatus`
pub data Status : Type 0 where
  ongoing success failure error_no_ack error_sending_data error_sending_nack : Status
  error_not_authorized error_not_start error_invalid_state error_nack_received : Status
  error_no_response : Status

-- `threading.Timer`: started with its delay, or cancelled.
pub data Timer : Type 0 where
  started : ℕ → Timer
  cancelled : Timer

-- The arguments of the `send_data` request that `_send_packet` builds.
pub record Packet : Type 0 where
  pub sink_id : Option String
  pub gw_id : Option String
  pub dest_add : Option ℕ
  pub src_ep : ℕ
  pub dst_ep : ℕ
  pub qos : ℕ
  pub payload : Option Bytes

-- `sent` holds the packets handed to `server.send_packet`, the first one first. Times are instants
-- counted from `datetime.MINYEAR`. The thread, the queue and the logger are not part of the state.
pub record Machine : Type 0 where
  pub sm_id : MessageId
  pub whitelist : ProvisioningData
  pub retry : ℤ
  pub delay : ℕ
  pub counter : ℕ
  pub state : State
  pub status : Status
  pub data_pkt : Option Bytes
  pub timer : Option Timer
  pub sink_id : Option String
  pub gw_id : Option String
  pub tx_time : ℕ
  pub sent : List Packet

-- What the machine calls of cbor2 and PyCryptodome: the CBOR encoder, the CMAC of a text under a
-- key, and AES in counter mode under a key, from an initial counter value.
pub record Crypto : Type 0 where
  pub dumps : Dict ℤ Value → Bytes
  pub cmac : Bytes → Bytes → Bytes
  pub ctr : Bytes → ℕ → Bytes → Bytes
