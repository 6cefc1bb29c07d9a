-- ===== src/Diagnostics/Control/Sending.antt =====
-- `_sendMessage`, `onResponseQueueMessage` and `performOperation` of fea_set_neighbor_diagnostics.py. The
-- operation runs in one thread and the responses come in another: an interleaving is a list of events.
use Prim.Native.String.{String}
use backend_client.Base.{
  ℕ, ◌-◌, Bool, true, false, ◌&&◌, Option, none, some, List, [], ◌∷◌, ◌++◌, length, drop, eqb,
  if◌then◌else◌, ◌==◌, nat_eq, string_eq,
}
use backend_client.Base.Dict.{Dict, lookup, contains, insert}
use backend_client.Base.Exceptions.{Exception, Result, ok, err, duplicate_req_id, struct_error}
use backend_client.Base.State.{◌>>=◌, ◌>>◌, done, gets, lift, modify}
use backend_client.Diagnostics.{
  ControlMessage, SendToSinkOnly, yes, no, build_set_neighbor_diagnostics,
}
use backend_client.Diagnostics.Control.{
  Status, KnownSink, Interval, member, seconds, time_time, SetDiagnostics, M,
  amount_of_nok_responses_received, is_all_responses_received, abort,
  get_sinks_belonging_to_network, get_node_address, append_message, report_progress,
}

-- A response of a gateway; `res == GatewayResultCode.GW_RES_OK`
pub record Response : Type 0 where
  pub req_id : ℕ
  pub gw_id : String
  pub sink_id : String
  pub res_ok : Bool

-- The loops over the dictionaries
abbrev pub for_each : {A : Type 0} → List A → (A → M (Unit {0})) → M (Unit {0})
for_each [] body = done tt
for_each (a ∷ more) body = body a >> for_each more body

-- The builder packs the interval: a member of the enum is no number.
abbrev pub build_for : String → String → ℕ → Interval → SendToSinkOnly → Result ControlMessage
unfolding build_set_neighbor_diagnostics
build_for gateway_id sink_id address (member interval) sink_only = err struct_error
build_for gateway_id sink_id address (seconds interval) sink_only =
    build_set_neighbor_diagnostics gateway_id sink_id address interval sink_only

-- The two messages for a sink
unfoldable pub append_sink : String → String → M (Unit {0})
unfolding build_set_neighbor_diagnostics
append_sink gateway_id sink_id = do
  s ← gets (λ s. s)
  address ← lift (get_node_address s gateway_id sink_id)
  broadcasted ← lift (build_for gateway_id sink_id address s.diagnostic_interval_secs yes)
  sent_to_sink ← lift (build_for gateway_id sink_id address s.diagnostic_interval_secs no)
  append_message broadcasted
  append_message sent_to_sink

unfoldable pub append_sinks : Dict String (Dict String KnownSink) → M (Unit {0})
unfolding append_sink
append_sinks network_sinks =
    for_each network_sinks (λ gw. for_each gw.1 (λ sink. append_sink gw.0 sink.0))

abbrev pub answered : Bool → Status → Status
answered res_ok status = record status {
  response_received = true;
  received_response_was_ok = res_ok;
}

abbrev pub new_status : ControlMessage → Status
new_status msg = record {
  gateway_id = msg.gateway_id;
  sink_id = msg.sink_id;
  node_destination_address = msg.node_destination_address;
  response_received = false;
  received_response_was_ok = false;
}

-- A response comes from where the request went.
abbrev pub is_from : Response → Status → Bool
is_from message status = (message.gw_id == status.gateway_id) && (message.sink_id == status.sink_id)

-- `draw n` is the request identifier that the send function gives to message number n.
module _ (draw : ℕ → ℕ) where
  -- `_postControlMessage`
  abbrev pub post_control_message : ControlMessage → M ℕ
  post_control_message msg s = (ok (draw (length s.sent)), record s { sent = s.sent ++ msg ∷ [] })

  -- `_sendMessage`
  abbrev pub send_message : ControlMessage → M (Unit {0})
  send_message msg = do
    message_request_id ← post_control_message msg
    statuses ← gets (λ s. s.statuses)
    (if contains message_request_id statuses
        then lift (err duplicate_req_id)
        else modify
            (λ s. record s { statuses = insert message_request_id (new_status msg) s.statuses }))

  -- The first waiting message is sent, and then taken off the list.
  unfoldable pub send_waiting : List ControlMessage → M (Unit {0})
  send_waiting [] = done tt
  send_waiting (msg ∷ more) = do
    send_message msg
    modify (λ s. record s { message_tx_list = drop 1 s.message_tx_list })

  unfoldable pub send_first : M (Unit {0})
  unfolding send_waiting
  send_first = do waiting ← gets (λ s. s.message_tx_list); send_waiting waiting

  -- The answer to a request that is known, from the gateway and the sink that it went to
  unfoldable pub accept : Response → Result ℕ → Status → M (Unit {0})
  unfolding send_first report_progress
  accept message now status = do
    modify (λ s. record s {
      statuses = insert message.req_id (answered message.res_ok status) s.statuses;
    })
    send_first
    report_progress now

  unfoldable pub respond_to : Response → Result ℕ → Option Status → M (Unit {0})
  unfolding accept
  respond_to message now none = done tt
  respond_to message now (some status) =
      if is_from message status then accept message now status else done tt

  -- `onResponseQueueMessage`
  unfoldable pub on_response_queue_message : Response → Result ℕ → M (Unit {0})
  unfolding respond_to
  on_response_queue_message message now = do
    statuses ← gets (λ s. s.statuses)
    respond_to message now (lookup message.req_id statuses)

  -- The messages for the sinks of the network, and the first of them sent
  unfoldable pub operate : Result ℕ → Option (Dict String (Dict String KnownSink)) → M (Option Bool)
  unfolding append_sinks send_first report_progress
  operate later none = done (some false)
  operate later (some network_sinks) = do
    append_sinks network_sinks
    send_first
    report_progress later
    done none

  -- `performOperation` up to its loop, at the two readings of the clock; the result, if it ends here
  unfoldable pub begin_operation : List KnownSink → Result ℕ → Result ℕ → M (Option Bool)
  unfolding operate
  begin_operation sinks now later = do
    modify (λ s. record s { processing_active = true })
    start ← lift now
    modify (λ s. record s { operation_start = some start })
    network_id ← gets (λ s. s.network_id_to_use)
    network_sinks ← lift (get_sinks_belonging_to_network network_id sinks)
    operate later network_sinks

-- What `performOperation` has come to: its loop with the seconds left, its result, or an exception
pub data Operation : Type 0 where
  not_started : Operation
  polling : ℕ → Operation
  ended : Bool → Operation
  raised : Exception → Operation

abbrev pub default_operation_time_out_sec : ℕ
default_operation_time_out_sec = 30

abbrev pub begun : Result (Option Bool) → Operation
begun (err x) = raised x
begun (ok (some result)) = ended result
begun (ok none) = polling default_operation_time_out_sec

-- All were answered, and none with a failure.
abbrev pub is_success : Dict ℕ Status → Bool
is_success statuses =
    is_all_responses_received statuses && eqb (amount_of_nok_responses_received statuses) 0

-- A round of `while self._processingActive`, after the second of waiting. The counter starts above 0 and
-- ends the loop at 0.
unfoldable pub poll_round : ℕ → SetDiagnostics → Operation × SetDiagnostics
poll_round time_out_counter_sec s =
    if s.processing_active
    then (if eqb (time_out_counter_sec - 1) 0
        then (ended (is_success s.statuses), record s { processing_active = false })
        else (if is_all_responses_received s.statuses
            then (
              ended (eqb (amount_of_nok_responses_received s.statuses) 0),
              record s { processing_active = false },
            )
            else (polling (time_out_counter_sec - 1), s)))
    else (ended false, s)

pub record System : Type 0 where
  pub object : SetDiagnostics
  pub operation : Operation

pub data Event : Type 0 where
  respond : Response → Result ℕ → Event
  poll abort_requested : Event

abbrev pub polled : Operation → SetDiagnostics → Operation × SetDiagnostics
polled (polling n) s = poll_round n s
polled operation s = (operation, s)

module _ (draw : ℕ → ℕ) where
  -- The call of `performOperation`, for any two readings of the clock
  unfoldable pub start : List KnownSink → Result ℕ → Result ℕ → SetDiagnostics → System
  unfolding begin_operation
  start sinks now later s =
      let (result, s') = begin_operation draw sinks now later s in
      record { object = s'; operation = begun result }

  -- `performOperation`, with the clock that the file has
  unfoldable pub perform_operation : List KnownSink → SetDiagnostics → System
  unfolding start
  perform_operation sinks s = start sinks time_time time_time s

  -- An exception of a response ends the thread that read it, and not the operation.
  unfoldable pub step : Event → System → System
  unfolding on_response_queue_message poll_round
  step (respond message now) system = record system {
    object = (on_response_queue_message draw message now system.object).1;
  }
  step poll system =
      let (operation, object) = polled system.operation system.object in
      record { object = object; operation = operation }
  step abort_requested system = record system { object = abort system.object }

  unfoldable pub steps : List Event → System → System
  unfolding step
  steps [] system = system
  steps (event ∷ events) system = steps events (step event system)
