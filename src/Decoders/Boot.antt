-- ===== src/Decoders/Boot.antt =====
-- bootdiagnostics.py: the report that a node sends when it has started.
use Prim.Native.String.{String}
use backend_client.Base.{ℕ, ◌+◌, ◌*◌, List, [], ◌∷◌, Bytes, string_eq}
use backend_client.Base.Dict.{Dict}
use backend_client.Base.Exceptions.{Result, ok, err, ◌>>=◌}
use backend_client.Decoders.Struct.{
  Code, uint8, uint16, uint32, unpack_unsigned, map_list_to_dict, get, store,
}

abbrev pub apdu_format : List Code
apdu_format =
    uint8 ∷ uint8 ∷ uint8 ∷ uint8 ∷ uint8 ∷ uint8 ∷ uint16 ∷ uint16 ∷ uint16 ∷ uint8 ∷ uint16
    ∷ uint16 ∷ uint32 ∷ uint32 ∷ uint32 ∷ uint16 ∷ []

abbrev pub apdu_fields : List String
apdu_fields =
    "boot_count" ∷ "node_role" ∷ "sw_dev_version" ∷ "sw_maint_version" ∷ "sw_minor_version"
    ∷ "sw_major_version" ∷ "scratchpad_sequence" ∷ "hw_magic" ∷ "stack_profile" ∷ "otap_enabled"
    ∷ "boot_line_number" ∷ "file_hash" ∷ "stack_trace_0" ∷ "stack_trace_1" ∷ "stack_trace_2"
    ∷ "cur_seq" ∷ []

-- The four numbers of the version, as the digits of a number
abbrev pub firmware_version : Dict String ℕ → Result ℕ
firmware_version apdu = do
  major ← get "sw_major_version" apdu
  minor ← get "sw_minor_version" apdu
  maint ← get "sw_maint_version" apdu
  dev ← get "sw_dev_version" apdu
  ok (((major * 256 + minor) * 256 + maint) * 256 + dev)

abbrev pub extended : Dict String ℕ → Result (Dict String ℕ)
extended apdu = store "firmware_version" (firmware_version apdu) apdu

-- `struct.error` is logged, and leaves the dictionary empty.
abbrev pub mapped : Result (List ℕ) → Result (Dict String ℕ)
mapped (err _) = ok []
mapped (ok apdu_values) = extended (map_list_to_dict apdu_fields apdu_values)

-- `decode`
unfoldable pub decode : Bytes → Result (Dict String ℕ)
unfolding unpack_unsigned
decode data_payload = mapped (unpack_unsigned apdu_format data_payload)
