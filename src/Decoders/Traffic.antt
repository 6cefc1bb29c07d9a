-- ===== src/Decoders/Traffic.antt =====
-- trafficdiagnostics.py: the report of a node on its traffic.
use Prim.Native.String.{String}
use backend_client.Base.{ℕ, ◌/◌, ◌%◌, List, [], ◌∷◌, Bytes, string_eq}
use backend_client.Base.Dict.{Dict}
use backend_client.Base.Exceptions.{Result, ok, err, ◌>>=◌}
use backend_client.Decoders.Struct.{
  Code, uint8, uint16, unpack_unsigned, map_list_to_dict, get, store,
}

abbrev pub apdu_format : List Code
apdu_format =
    uint16 ∷ uint8 ∷ uint8 ∷ uint16 ∷ uint16 ∷ uint8 ∷ uint8 ∷ uint8 ∷ uint8 ∷ uint8 ∷ uint8 ∷ uint8
    ∷ uint8 ∷ uint8 ∷ uint8 ∷ []

abbrev pub apdu_fields : List String
apdu_fields =
    "access_cycles" ∷ "cluster_channel" ∷ "channel_reliability" ∷ "rx_amount" ∷ "tx_amount"
    ∷ "aloha_rx_ratio" ∷ "reserved_rx_success_ratio" ∷ "data_rx_ratio" ∷ "rx_duplicate_ratio"
    ∷ "cca_success_ratio" ∷ "broadcast_ratio" ∷ "failed_unicast_ratio" ∷ "max_reserved_slot_usage"
    ∷ "average_reserved_slot_usage" ∷ "max_aloha_slot_usage" ∷ []

abbrev pub cluster_members : Dict String ℕ → Result ℕ
cluster_members apdu = do access_cycles ← get "access_cycles" apdu; ok (access_cycles % 256)

abbrev pub cluster_headnode_members : Dict String ℕ → Result ℕ
cluster_headnode_members apdu = do
  access_cycles ← get "access_cycles" apdu
  ok (access_cycles / 256)

-- The interpretation of the fields since version 4.0
abbrev pub extended : Dict String ℕ → Result (Dict String ℕ)
extended apdu = do
  members ← store "cluster_members" (cluster_members apdu) apdu
  store "cluster_headnode_members" (cluster_headnode_members members) members

-- `struct.error` is logged, and leaves the dictionary empty.
abbrev pub mapped : Result (List ℕ) → Result (Dict String ℕ)
mapped (err _) = ok []
mapped (ok apdu_values) = extended (map_list_to_dict apdu_fields apdu_values)

-- `decode`
unfoldable pub decode : Bytes → Result (Dict String ℕ)
unfolding unpack_unsigned
decode data_payload = mapped (unpack_unsigned apdu_format data_payload)
