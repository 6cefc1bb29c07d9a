-- ===== src/Decoders/Node.antt =====
-- nodediagnostics.py: the report of a node on itself.
use Prim.Native.String.{String}
use backend_client.Base.{
  ℕ, ◌+◌, ◌*◌, ◌^◌, List, [], ◌∷◌, Bytes, ltb, if◌then◌else◌, length, string_eq,
}
use backend_client.Base.Dict.{Dict}
use backend_client.Base.Exceptions.{Result, ok, err, ◌>>=◌}
use backend_client.Decoders.Struct.{
  Code, uint8, uint16, unpack_unsigned, map_list_to_dict, get, store,
}

-- `_GT_42`
abbrev pub gt_42 : ℕ
gt_42 = 59

-- The formats since version 4.2, and up to version 4.0
abbrev pub apdu_format_42 : List Code
apdu_format_42 =
    uint16 ∷ uint8 ∷ uint8 ∷ uint8 ∷ uint8 ∷ uint8 ∷ uint8 ∷ uint8 ∷ uint8 ∷ uint16 ∷ uint16
    ∷ uint16 ∷ uint16 ∷ uint16 ∷ uint16 ∷ uint16 ∷ uint16 ∷ uint8 ∷ uint8 ∷ uint16 ∷ uint8 ∷ uint16
    ∷ uint8 ∷ uint8 ∷ uint8 ∷ uint16 ∷ uint8 ∷ uint8 ∷ uint8 ∷ uint8 ∷ uint8 ∷ uint8 ∷ uint8 ∷ uint8
    ∷ uint8 ∷ uint8 ∷ uint8 ∷ uint8 ∷ uint8 ∷ uint8 ∷ uint8 ∷ uint8 ∷ uint8 ∷ uint8 ∷ uint16 ∷ uint8
    ∷ uint8 ∷ uint8 ∷ uint8 ∷ uint8 ∷ uint8 ∷ uint8 ∷ uint8 ∷ uint8 ∷ []

abbrev pub apdu_format_40 : List Code
apdu_format_40 =
    uint16 ∷ uint8 ∷ uint8 ∷ uint8 ∷ uint8 ∷ uint8 ∷ uint8 ∷ uint8 ∷ uint8 ∷ uint16 ∷ uint16
    ∷ uint16 ∷ uint16 ∷ uint16 ∷ uint16 ∷ uint16 ∷ uint16 ∷ uint8 ∷ uint8 ∷ uint16 ∷ uint8 ∷ uint16
    ∷ uint8 ∷ uint8 ∷ uint8 ∷ uint16 ∷ uint8 ∷ uint8 ∷ uint8 ∷ uint8 ∷ uint8 ∷ uint8 ∷ uint8 ∷ uint8
    ∷ uint8 ∷ uint8 ∷ uint8 ∷ uint8 ∷ uint8 ∷ uint8 ∷ uint8 ∷ uint8 ∷ uint8 ∷ uint8 ∷ uint16 ∷ uint8
    ∷ []

abbrev pub apdu_fields : List String
apdu_fields =
    "access_cycle" ∷ "role" ∷ "voltage" ∷ "max_buffer_usage" ∷ "average_buffer_usage"
    ∷ "mem_alloc_fails" ∷ "normal_priority_buf_delay" ∷ "high_priority_buf_delay" ∷ "network_scans"
    ∷ "dl_delay_avg_0" ∷ "dl_delay_min_0" ∷ "dl_delay_max_0" ∷ "dl_delay_samples_0"
    ∷ "dl_delay_avg_1" ∷ "dl_delay_min_1" ∷ "dl_delay_max_1" ∷ "dl_delay_samples_1"
    ∷ "dropped_packets_0" ∷ "dropped_packets_1" ∷ "route_address_lo" ∷ "route_address_hi"
    ∷ "cost_info_next_hop_0_lo" ∷ "cost_info_next_hop_0_hi" ∷ "cost_info_cost_0"
    ∷ "cost_info_link_quality_0" ∷ "cost_info_next_hop_1_lo" ∷ "cost_info_next_hop_1_hi"
    ∷ "cost_info_cost_1" ∷ "cost_info_link_quality_1" ∷ "events_0" ∷ "events_1" ∷ "events_2"
    ∷ "events_3" ∷ "events_4" ∷ "events_5" ∷ "events_6" ∷ "events_7" ∷ "events_8" ∷ "events_9"
    ∷ "events_10" ∷ "events_11" ∷ "events_12" ∷ "events_13" ∷ "events_14" ∷ "duty_cycle"
    ∷ "current_antenna" ∷ "pending_ucast_cluster" ∷ "pending_ucast_members"
    ∷ "pending_bcast_le_members" ∷ "pending_bcast_ll_members" ∷ "pending_bcast_unack"
    ∷ "pending_expire_queue" ∷ "pending_bcast_next_hop" ∷ "pending_reroute_packets" ∷ []

-- `float(voltage) / 100.0 + 2.0`, in hundredths of a volt
abbrev pub hundredths : Dict String ℕ → Result ℕ
hundredths apdu = do voltage ← get "voltage" apdu; ok (voltage + 200)

-- `low | (high << 16)`, for a low part of 16 bits
abbrev pub low_high : String → String → Dict String ℕ → Result ℕ
low_high low high apdu = do l ← get low apdu; h ← get high apdu; ok (l + h * 2 ^ 16)

-- The parts take 24, 8 and 8 bits, so `|` adds them up.
abbrev pub blacklistexceeded : Dict String ℕ → Result ℕ
blacklistexceeded apdu = do
  next_hop ← get "cost_info_next_hop_1" apdu
  cost ← get "cost_info_cost_1" apdu
  link_quality ← get "cost_info_link_quality_1" apdu
  ok (next_hop + cost * 2 ^ 24 + link_quality * 2 ^ 32)

-- `self.apdu[new] = self.apdu[old]`
abbrev pub renamed : String → String → Dict String ℕ → Result (Dict String ℕ)
renamed new old apdu = store new (get old apdu) apdu

-- Fields of 24 bits from their parts
abbrev pub joined_fields : Dict String ℕ → Result (Dict String ℕ)
joined_fields a = do
  b ← store "voltage" (hundredths a) a
  c ← store "route_address" (low_high "route_address_lo" "route_address_hi" b) b
  d ←
      store "cost_info_next_hop_0" (low_high "cost_info_next_hop_0_lo" "cost_info_next_hop_0_hi" c)
        c
  store "cost_info_next_hop_1" (low_high "cost_info_next_hop_1_lo" "cost_info_next_hop_1_hi" d) d

-- The interpretation of the fields since version 4.0
abbrev pub renamed_fields : Dict String ℕ → Result (Dict String ℕ)
renamed_fields a = do
  b ← renamed "lltx_msg_w_ack" "dl_delay_avg_0" a
  c ← renamed "lltx_msg_unack" "dl_delay_min_0" b
  d ← renamed "llrx_w_unack_ok" "dl_delay_max_0" c
  e ← renamed "llrx_ack_not_received" "dl_delay_samples_0" d
  f ← renamed "lltx_cca_unack_fail" "dl_delay_avg_1" e
  g ← renamed "lltx_cca_w_ack_fail" "dl_delay_min_1" f
  h ← renamed "llrx_w_ack_ok" "dl_delay_max_1" g
  i ← renamed "llrx_ack_otherreasons" "dl_delay_samples_1" h
  store "blacklistexceeded" (blacklistexceeded i) i

-- `struct.error` is logged, and leaves the dictionary empty.
abbrev pub mapped : Result (List ℕ) → Result (Dict String ℕ)
mapped (err _) = ok []
mapped (ok apdu_values) = do
  fields ← joined_fields (map_list_to_dict apdu_fields apdu_values)
  renamed_fields fields

-- The format, by the size of the payload
abbrev pub format_of : ℕ → List Code
format_of data_size = if ltb gt_42 data_size then apdu_format_42 else apdu_format_40

-- `decode`
unfoldable pub decode : Bytes → Result (Dict String ℕ)
unfolding unpack_unsigned
decode data_payload = mapped (unpack_unsigned (format_of (length data_payload)) data_payload)
