-- ===== src/Provisioning/Events.antt =====
-- wirepas_backend_client/provisioning/events.py: what the queue of a state machine holds.
use backend_client.Base.{ℕ, Bool, true, false}
use backend_client.Provisioning.Message.{Message}

-- `GatewayResultCode` of wirepas_messaging: only `GW_RES_OK` is told from the other codes.
pub data ResultCode : Type 0 where
  gw_res_ok : ResultCode
  gw_res_other : ℕ → ResultCode

abbrev pub is_ok : ResultCode → Bool
is_ok gw_res_ok = true
is_ok (gw_res_other n) = false

-- The classes of events. `type` is the constructor.
pub data Event : Type 0 where
  generic : Event
  timeout : Event
  packet_received : Message → Event
  packet_sent : ℕ → ResultCode → Event
