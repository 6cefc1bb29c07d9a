-- ===== src/Diagnostics.antt =====
-- wirepas_backend_client/cli/set_diagnostics/fea_set_neighbor_diagnostic_message_builder.py: the messages
-- that switch a network's neighbour diagnostics on and off.
pub mod Laws
pub mod Control
mod Tests
use Prim.Native.String.{String}
use backend_client.Base.{
  ℕ, ◌+◌, ◌/◌, ◌%◌, Bool, true, false, List, [], ◌∷◌, ◌++◌, Bytes, length, eqb, ltb, if◌then◌else◌,
}
use backend_client.Base.Exceptions.{Result, ok, err, struct_error, ◌>>=◌}

-- `SetDiagnosticsIntervals`
pub data SetDiagnosticsInterval : Type 0 where
  interval_off i30 i60 i120 i300 i600 i1200 : SetDiagnosticsInterval

abbrev pub interval_code : SetDiagnosticsInterval → ℕ
interval_code interval_off = 0
interval_code i30 = 30
interval_code i60 = 60
interval_code i120 = 120
interval_code i300 = 300
interval_code i600 = 600
interval_code i1200 = 1200

-- `DiagnosticsMinimalContent`
pub data MinimalContent : Type 0 where
  node_diagnostics neighbor_diagnostics scan_diagnostics boot_info_diagnostics : MinimalContent
  disable_all_diag_v2 : MinimalContent

abbrev pub content_code : MinimalContent → ℕ
content_code node_diagnostics = 1
content_code neighbor_diagnostics = 2
content_code scan_diagnostics = 3
content_code boot_info_diagnostics = 4
content_code disable_all_diag_v2 = 0xff

-- `DiagnosticsRequestTypes.DiagnosticControlRequest`
abbrev pub diagnostic_control_request : ℕ
diagnostic_control_request = 0x60

-- `SendToSinkOnly`
pub data SendToSinkOnly : Type 0 where
  no yes : SendToSinkOnly

pub record ControlMessage : Type 0 where
  pub gateway_id : String
  pub sink_id : String
  pub node_destination_address : ℕ
  pub destination_end_point : ℕ
  pub source_end_point : ℕ
  pub payload : Bytes

abbrev pub address_broadcast : ℕ
address_broadcast = 4294967295

-- `pack` with the formats `B` and `<H`
abbrev pub pack_byte : ℕ → Result Bytes
pack_byte n = if ltb n 256 then ok (n ∷ []) else err struct_error

abbrev pub pack_short : ℕ → Result Bytes
pack_short n = if ltb n 65536 then ok (n % 256 ∷ n / 256 ∷ []) else err struct_error

-- What a node is asked for at an interval
abbrev pub content_of : ℕ → MinimalContent
content_of interval =
    if eqb (interval_code interval_off) interval then disable_all_diag_v2 else neighbor_diagnostics

abbrev pub destination_of : SendToSinkOnly → ℕ → ℕ
destination_of yes sink_address = sink_address
destination_of no sink_address = address_broadcast

-- `buildSetNeighborDiagnostics`
unfoldable pub build_set_neighbor_diagnostics :
    String → String → ℕ → ℕ → SendToSinkOnly → Result ControlMessage
build_set_neighbor_diagnostics gateway_id sink_id sink_address interval sink_only = do
  kind ← pack_byte diagnostic_control_request
  interval_packed ← pack_short interval
  content ← pack_byte (content_code (content_of interval))
  length_packed ← pack_byte (length interval_packed + length content)
  ok (record {
    gateway_id = gateway_id;
    sink_id = sink_id;
    node_destination_address = destination_of sink_only sink_address;
    destination_end_point = 240;
    source_end_point = 255;
    payload = kind ++ length_packed ++ interval_packed ++ content;
  })

-- `buildPing`
abbrev pub build_ping : String → String → ControlMessage
build_ping gateway_id sink_id = record {
  gateway_id = gateway_id;
  sink_id = sink_id;
  node_destination_address = address_broadcast;
  destination_end_point = 240;
  source_end_point = 255;
  payload = 0 ∷ 0 ∷ [];
}
