-- ===== src/Diagnostics/Tests.antt =====
-- A diagnostics message at a concrete interval.
use Prim.Native.String.{String}
use backend_client.Base.{ℕ, zero, suc, refl, true, some, List, [], ◌∷◌, ◌≡◌, arith}
use backend_client.Base.Exceptions.{ok}
use backend_client.Diagnostics.{ControlMessage, yes, build_set_neighbor_diagnostics}
use backend_client.Base.Dict.{Dict}
use backend_client.Diagnostics.Control.{
  KnownSink, SetDiagnostics, new_set_diagnostics, set_arguments, set_sinks_address_info,
}
use backend_client.Diagnostics.Control.Sending.{
  Event, respond, poll, start, steps, perform_operation,
}
use backend_client.Diagnostics.Control.Ended.{IsOver, start-IsOver}
use backend_client.Diagnostics.Control.Raised.{IsIdle, perform_operation-IsIdle}
use backend_client.Diagnostics.Laws.{IsControl, build-IsControl}

build-IsControl_example :
    (msg : ControlMessage) × (build_set_neighbor_diagnostics "gateway" "sink1" 9 300 yes ≡ ok msg)
    × IsControl 300 msg
    × (msg.node_destination_address ≡ 9)
build-IsControl_example = build-IsControl "gateway" "sink1" 9 300 yes (omega arith)

-- Two sinks behind two gateways, and a clock that returns
abbrev known_sinks : List KnownSink
known_sinks =
    record { network_id = some 3; gateway_id = "gw1"; device_id = "sink0" }
    ∷ record { network_id = some 4; gateway_id = "gw2"; device_id = "sink1" }
    ∷ []

abbrev addresses : Dict String (Dict String ℕ)
addresses = ("gw1", ("sink0", 9) ∷ []) ∷ []

abbrev configured : SetDiagnostics
configured = set_sinks_address_info addresses (set_arguments 3 30 new_set_diagnostics).1

abbrev answer : ℕ → Event
answer n = respond (record { req_id = n; gw_id = "gw1"; sink_id = "sink0"; res_ok = true }) (ok 1)

abbrev thirty_polls : ℕ → List Event
thirty_polls zero = []
thirty_polls (suc n) = poll ∷ thirty_polls n

start-IsOver_example :
    IsOver
      (steps
        (λ n. n)
        (answer 0 ∷ thirty_polls 30)
        (start (λ n. n) known_sinks (ok 0) (ok 0) configured)).operation
start-IsOver_example =
    start-IsOver (λ n. n) known_sinks (ok 0) (ok 0) configured (answer 0 ∷ thirty_polls 30)
      (omega arith)

perform_operation-IsIdle_example : IsIdle [] (
    steps (λ n. n) (answer 0 ∷ thirty_polls 30) (perform_operation (λ n. n) known_sinks configured))
perform_operation-IsIdle_example =
    perform_operation-IsIdle (λ n. n) known_sinks configured (answer 0 ∷ thirty_polls 30) refl
