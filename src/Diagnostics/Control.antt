-- ===== src/Diagnostics/Control.antt =====
-- wirepas_backend_client/cli/set_diagnostics/fea_set_neighbor_diagnostics.py: the operation that sends the
-- diagnostics messages to the sinks of a network one after the other, and waits for the answers.
pub mod Sending
pub mod Ended
pub mod Raised
use Prim.Native.String.{String}
use backend_client.Base.{
  ℕ, ◌+◌, ◌<◌, Bool, true, false, ◌&&◌, not, Option, none, some, List, [], ◌∷◌, ◌++◌, map, length,
  eqb, ltb, if◌then◌else◌, ◌==◌, nat_eq, string_eq,
}
use backend_client.Base.Dict.{Dict, lookup, contains, insert}
use backend_client.Base.Exceptions.{
  Result, ok, err, type_error, attribute_error, key_error, duplicate_req_id, zero_division,
  or_raise, require,
}
use backend_client.Base.State.{State, ◌>>=◌, ◌>>◌, done, gets, lift, modify}
use backend_client.Diagnostics.{
  ControlMessage, SendToSinkOnly, SetDiagnosticsInterval, interval_off, yes, no,
  build_set_neighbor_diagnostics,
}

-- `DiagnosticActivationStatus`, under its request identifier
pub record Status : Type 0 where
  pub gateway_id : String
  pub sink_id : String
  pub node_destination_address : ℕ
  pub response_received : Bool
  pub received_response_was_ok : Bool

-- The sinks that the mesh knows, as far as they are read here: a sink may have no network. Identifiers of
-- networks are the numbers that `int` makes of them.
pub record KnownSink : Type 0 where
  pub network_id : Option ℕ
  pub gateway_id : String
  pub device_id : String

-- The interval: first the member of the enum, then the number that setArguments is given
pub data Interval : Type 0 where
  member : SetDiagnosticsInterval → Interval
  seconds : ℕ → Interval

-- The object. `sent` holds the messages given to the send function.
pub record SetDiagnostics : Type 0 where
  pub processing_active : Bool
  pub network_id_to_use : ℕ
  pub diagnostic_interval_secs : Interval
  pub statuses : Dict ℕ Status
  pub operation_start : Option ℕ
  pub sinks_address_info : Option (Dict String (Dict String ℕ))
  pub message_tx_list : List ControlMessage
  pub sent : List ControlMessage

abbrev pub new_set_diagnostics : SetDiagnostics
new_set_diagnostics = record {
  processing_active = true;
  network_id_to_use = 0;
  diagnostic_interval_secs = member interval_off;
  statuses = [];
  operation_start = none;
  sinks_address_info = none;
  message_tx_list = [];
  sent = [];
}

abbrev pub M : Type 0 → Type 0
M = State SetDiagnostics

-- `_amountOfNOkResponsesReceived`, `_amountOfOkResponsesReceived` and `_isAllResponsesReceived`
abbrev pub is_nok : Status → Bool
is_nok value = value.response_received && not value.received_response_was_ok

abbrev pub is_ok : Status → Bool
is_ok value = value.response_received && value.received_response_was_ok

abbrev pub amount_of_nok_responses_received : Dict ℕ Status → ℕ
amount_of_nok_responses_received [] = 0
amount_of_nok_responses_received ((_, value) ∷ rest) =
    let ret = amount_of_nok_responses_received rest in if is_nok value then ret + 1 else ret

abbrev pub amount_of_ok_responses_received : Dict ℕ Status → ℕ
amount_of_ok_responses_received [] = 0
amount_of_ok_responses_received ((_, value) ∷ rest) =
    let ret = amount_of_ok_responses_received rest in if is_ok value then ret + 1 else ret

abbrev pub is_all_responses_received : Dict ℕ Status → Bool
is_all_responses_received [] = true
is_all_responses_received ((_, value) ∷ rest) =
    if value.response_received then is_all_responses_received rest else false

-- `setArguments`
abbrev pub set_arguments : ℕ → ℕ → SetDiagnostics → Bool × SetDiagnostics
set_arguments network_id interval s =
    if ltb 0 network_id
    then (
      true,
      record s { network_id_to_use = network_id; diagnostic_interval_secs = seconds interval },
    )
    else (false, s)

-- `setSinksAddressInfo`
abbrev pub set_sinks_address_info : Dict String (Dict String ℕ) → SetDiagnostics → SetDiagnostics
set_sinks_address_info info s = record s { sinks_address_info = some info }

-- `abort`
abbrev pub abort : SetDiagnostics → SetDiagnostics
abort s = record s { processing_active = false }

-- `getSinksBelongingToNetwork`
abbrev pub gateway_sinks : Option (Dict String KnownSink) → Dict String KnownSink
gateway_sinks none = []
gateway_sinks (some sinks) = sinks

abbrev pub add_sink :
    KnownSink → Dict String (Dict String KnownSink) → Dict String (Dict String KnownSink)
add_sink sink ret =
    insert sink.gateway_id (insert sink.device_id sink (gateway_sinks (lookup sink.gateway_id ret)))
      ret

-- `int(None)` is an error.
abbrev pub sinks_of :
    ℕ
    → List KnownSink
    → Dict String (Dict String KnownSink)
    → Result (Dict String (Dict String KnownSink))
sinks_of network_id [] ret = ok ret
sinks_of network_id (sink ∷ sinks) ret = elim sink.network_id [
  | none ↦ err type_error
  | some n ↦ sinks_of network_id sinks (if eqb n network_id then add_sink sink ret else ret)
]

abbrev pub some_sinks :
    Dict String (Dict String KnownSink) → Option (Dict String (Dict String KnownSink))
some_sinks [] = none
some_sinks (entry ∷ ret) = some (entry ∷ ret)

abbrev pub get_sinks_belonging_to_network :
    ℕ → List KnownSink → Result (Option (Dict String (Dict String KnownSink)))
get_sinks_belonging_to_network network_id sinks = elim (sinks_of network_id sinks []) [
  | err raised ↦ err raised
  | ok ret ↦ ok (some_sinks ret)
]

-- `_getNodeAddress`
abbrev pub get_node_address : SetDiagnostics → String → String → Result ℕ
get_node_address s gateway_id sink_id = elim s.sinks_address_info [
  | none ↦ err type_error
  | some info ↦ elim (lookup gateway_id info) [
    | none ↦ err key_error
    | some sinks ↦ or_raise (lookup sink_id sinks) key_error
  ]
]

abbrev pub append_message : ControlMessage → M (Unit {0})
append_message msg = modify (λ s. record s { message_tx_list = s.message_tx_list ++ msg ∷ [] })

-- `time.time()`: the file imports the function `time` under the name of its module, so this looks for an
-- attribute of a function.
abbrev pub time_time : Result ℕ
time_time = err attribute_error

-- `self._reportProgress()`, at a reading of `time.time()`: what is printed is left out.
unfoldable pub report_progress : Result ℕ → M (Unit {0})
report_progress now s = (
  elim now [
    | err raised ↦ err raised
    | ok end ↦ elim s.operation_start [
      | none ↦ err type_error
      | some start ↦ require (not (eqb (length s.statuses) 0)) zero_division
    ]
  ],
  s,
)
