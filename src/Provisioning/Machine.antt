-- ===== src/Provisioning/Machine.antt =====
-- wirepas_backend_client/provisioning/sm.py: the state machine that provisions one node. A handler
-- maps the machine to its result and the machine that it leaves, also when it raises.
pub mod Monad
pub mod Defs
pub mod Packets
pub mod Actions
pub mod Outcomes
pub mod Invariant
pub mod Rounds
pub mod Sessions
pub mod Advances
pub mod Success
pub mod Answers
pub mod Resumed
mod Tests
use Monad.{M}
use backend_client.Base.{
  ℕ, Bool, true, false, ◌&&◌, Option, none, some, List, [], ◌∷◌, ◌++◌, Bytes, ◌==◌, if◌then◌else◌,
  ltb,
}
use backend_client.Base.Dict.{lookup, contains}
use backend_client.Base.Int.{ℤ, pos, ◌-ℤ◌, leb_ℤ}
use backend_client.Base.Exceptions.{
  Exception, Result, ok, err, type_error, key_error, attribute_error,
}
use backend_client.Provisioning.Message.{
  MessageType, Start, Message, start_message, data_message, data_ack_message, nack_message,
  header_of, Header, NackReason, not_authorized, method_not_supported, method_code, Method,
  unsecured, secured, MessageId,
}
use backend_client.Provisioning.Data.{Value, bytes, int, value_eq, Entry, ProvisioningData}
use backend_client.Provisioning.Events.{
  Event, generic, timeout, packet_received, packet_sent, gw_res_ok, gw_res_other,
}
use Defs.{
  Machine, Crypto, State, idle, wait_data_sent, wait_response, wait_nack_sent, Status, ongoing,
  success, error_sending_data, error_sending_nack, error_not_authorized, error_not_start,
  error_nack_received, error_no_response, Timer, started, cancelled,
}
use Packets.{send_packet, send_data, send_nack}
use Actions.{update_origin, timer_cancel, timer_start, cancel_timer, set_state, set_status}
use Monad.{◌>>=◌, ◌>>◌, gets, modify, lift, done}

-- `self.status == ProvisioningStatus.ONGOING`
abbrev pub is_ongoing : Status → Bool
is_ongoing ongoing = true
is_ongoing _ = false

-- `msg.uid in self.data.keys() and self.data[msg.uid]["method"] == msg.method`
abbrev pub has_method : Option Entry → Method → Bool
has_method none method = false
has_method (some e) method = e.method == int (pos (method_code method))

unfoldable pub is_authorized : Start → ProvisioningData → Bool
is_authorized msg whitelist = has_method (lookup (bytes msg.uid) whitelist) msg.method

-- The reason of the refusal.
unfoldable pub refusal : Start → ProvisioningData → NackReason
refusal msg whitelist =
    if contains (bytes msg.uid) whitelist then method_not_supported else not_authorized

-- `_process_error_data`
unfoldable pub process_error_data : M (Unit {0})
unfolding send_packet timer_start timer_cancel
process_error_data = do
  modify (λ m. record m { retry = m.retry -ℤ pos 1 })
  again ← gets (λ m. leb_ℤ (pos 0) m.retry)
  if again
      then (do
        packet ← gets (λ m. m.data_pkt)
        send_packet packet
        timer_start
        set_state wait_data_sent)
      else (do timer_cancel; set_status error_sending_data)

-- `_state_wait_data_sent`
unfoldable pub state_wait_data_sent : Event → M (Unit {0})
unfolding timer_start
state_wait_data_sent (packet_sent req_id gw_res_ok) = do set_state wait_response; timer_start
state_wait_data_sent (packet_sent req_id (gw_res_other n)) = process_error_data
state_wait_data_sent timeout = process_error_data
state_wait_data_sent _ = done tt

-- `_state_wait_nack_sent`
unfoldable pub state_wait_nack_sent : Event → M (Unit {0})
unfolding cancel_timer timer_start
state_wait_nack_sent timeout = set_status error_sending_nack
state_wait_nack_sent (packet_sent req_id gw_res_ok) = do
  set_status error_not_authorized
  cancel_timer
state_wait_nack_sent (packet_sent req_id (gw_res_other n)) = do
  modify (λ m. record m { retry = m.retry -ℤ pos 1 })
  again ← gets (λ m. leb_ℤ (pos 0) m.retry)
  if again
      then (do send_nack not_authorized; timer_start; set_state wait_nack_sent)
      else (do cancel_timer; set_status error_sending_nack)
state_wait_nack_sent _ = done tt

module _ (crypto : Crypto) where
  -- `_process_start`
  unfoldable pub process_start : Start → M (Unit {0})
  unfolding timer_start
  process_start msg = do
    authorized ← gets (λ m. is_authorized msg m.whitelist)
    if authorized then (do send_data crypto msg; timer_start; set_state wait_data_sent) else (do
      set_status error_not_authorized
      reason ← gets (λ m. refusal msg m.whitelist)
      send_nack reason
      timer_start
      set_state wait_nack_sent)

  -- `_state_idle`
  unfoldable pub state_idle : Event → M (Unit {0})
  unfolding timer_cancel
  state_idle (packet_received (start_message msg)) = do update_origin msg.header; process_start msg
  state_idle _ = do timer_cancel; set_status error_not_start

  -- The packet that came while the node's response was awaited, by its type.
  unfoldable pub on_response : Message → M (Unit {0})
  unfolding timer_start timer_cancel
  on_response (start_message msg) = do process_start msg; timer_start; set_state wait_data_sent
  on_response (data_message msg) = done tt
  on_response (data_ack_message h) = do timer_cancel; set_status success
  on_response (nack_message msg) = do timer_cancel; set_status error_nack_received

  -- `_state_wait_response`
  unfoldable pub state_wait_response : Event → M (Unit {0})
  unfolding timer_cancel
  state_wait_response (packet_received msg) = do update_origin (header_of msg); on_response msg
  state_wait_response timeout = do timer_cancel; set_status error_no_response
  state_wait_response _ = done tt

  -- One round of the loop of `run`.
  unfoldable pub dispatch : State → Event → M (Unit {0})
  dispatch idle e = state_idle e
  dispatch wait_data_sent e = state_wait_data_sent e
  dispatch wait_response e = state_wait_response e
  dispatch wait_nack_sent e = state_wait_nack_sent e

  unfoldable pub step : Event → M (Unit {0})
  step e m = dispatch m.state e m

  -- `run` on the events that the queue yields before the exit signal. A round in which the queue was
  -- empty changes nothing. An exception ends the thread.
  unfoldable pub run : List Event → M (Unit {0})
  run [] m = (ok tt, m)
  run (e ∷ es) m =
      let rest = λ (m' : Machine). run es m' in
      if is_ongoing m.status then (step e >> rest) m else (ok tt, m)

-- `__init__`: the counter is 16 random bits; `retry` and `timeout` have the defaults 1 and 180.
abbrev pub new_machine : MessageId → ProvisioningData → ℕ → Machine
new_machine id whitelist counter = record {
  sm_id = id;
  whitelist = whitelist;
  retry = pos 1;
  delay = 180;
  counter = counter;
  state = idle;
  status = ongoing;
  data_pkt = none;
  timer = none;
  sink_id = none;
  gw_id = none;
  tx_time = 0;
  sent = [];
}
