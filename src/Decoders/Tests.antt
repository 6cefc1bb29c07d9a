-- ===== src/Decoders/Tests.antt =====
-- The decoders on concrete payloads.
use Prim.Native.String.{String}
use backend_client.Base.{ℕ, ◌<◌, ◌≡◌, refl, arith, some, List, [], ◌∷◌, Bytes}
use backend_client.Base.Dict.{Dict}
use backend_client.Base.Int.{pos}
use backend_client.Base.Little.{to_little}
use backend_client.Base.Exceptions.{Result, ok, err, index_error}
use backend_client.Decoders.Tlv.{Quantity, tlv_decoder, tlv_loop}
use backend_client.Decoders.Tlv.Rounds.{tlv_decoder-settled}
use backend_client.Decoders.Ruuvi
use backend_client.Decoders.Positioning
use backend_client.Decoders.Positioning.{strength, voltage, half, one}
use backend_client.Decoders.Positioning.Reports.{rss_sr, battery, decode-reports}
use backend_client.Decoders.Neighbor
use backend_client.Decoders.Neighbor.Equal.{decode-parsed}
use backend_client.Decoders.TestNw
use backend_client.Decoders.TestNw.Rows.{Row, columns}
use backend_client.Decoders.TestNw.Decoded.{decode-rows}
use backend_client.Decoders.TestNw.Settled.{decode-settled}
use backend_client.Decoders.Boot
use backend_client.Decoders.Layouts.{boot, decode-packed}

-- A counter, an item of an unknown type, and a temperature
abbrev ruuvi_payload : Bytes
ruuvi_payload = 1 ∷ 2 ∷ 0xb0 ∷ 0x43 ∷ 9 ∷ 0 ∷ 2 ∷ 4 ∷ 0x61 ∷ 9 ∷ 0 ∷ 0 ∷ []

tlv_decoder-settled_example :
    (result : Result (Dict String Quantity)) × (tlv_decoder Ruuvi.tlv_fields Ruuvi.tlv_value_decoder
        ruuvi_payload 12 []
      ≡ some result)
    × ((fuel : ℕ)
        → 12 < fuel
        → tlv_loop Ruuvi.tlv_fields Ruuvi.tlv_value_decoder ruuvi_payload fuel 12 0 []
          ≡ some result)
tlv_decoder-settled_example =
    tlv_decoder-settled Ruuvi.tlv_fields Ruuvi.tlv_value_decoder ruuvi_payload 12 []

decode-reports_example :
    Positioning.decode (7 ∷ 0 ∷ 0 ∷ 4 ∷ 3 ∷ 2 ∷ 1 ∷ 100 ∷ 4 ∷ 2 ∷ 0xb8 ∷ 0x0b ∷ [])
    ≡ some (
        ok (record {
          sequence = 7;
          nb_measurements = 2;
          measurements =
              strength "POS_APP_MEAS_RSS_SR" 66051 (record { value = pos 100; unit = half }) 0
              ∷ voltage "POS_APP_MEAS_VOLTAGE" (record { value = pos 3000; unit = one }) 4
              ∷ [];
        }))
unfolding to_little
decode-reports_example = decode-reports 7 (rss_sr 66051 100 ∷ battery 3000 ∷ []) (omega arith)

decode-parsed_example :
    Neighbor.decode (1 ∷ 0 ∷ 0 ∷ 5 ∷ 8 ∷ 1 ∷ 90 ∷ 2 ∷ 0 ∷ 0 ∷ 5 ∷ []) ≡ some (err index_error)
decode-parsed_example = decode-parsed (1 ∷ 0 ∷ 0 ∷ 5 ∷ 8 ∷ 1 ∷ 90 ∷ 2 ∷ 0 ∷ 0 ∷ 5 ∷ [])

decode-packed_example :
    Boot.decode (
      1 ∷ 2 ∷ 30 ∷ 0 ∷ 0 ∷ 4 ∷ 7 ∷ 0 ∷ 2 ∷ 0 ∷ 1 ∷ 0 ∷ 1 ∷ 9 ∷ 1 ∷ 5 ∷ 0 ∷ 0 ∷ 0 ∷ 0 ∷ 0 ∷ 0 ∷ 0 ∷ 0
      ∷ 0 ∷ 0 ∷ 0 ∷ 0 ∷ 0 ∷ 3 ∷ 0 ∷ [])
    ≡ ok (
        ("boot_count", 1)
        ∷ ("node_role", 2)
        ∷ ("sw_dev_version", 30)
        ∷ ("sw_maint_version", 0)
        ∷ ("sw_minor_version", 0)
        ∷ ("sw_major_version", 4)
        ∷ ("scratchpad_sequence", 7)
        ∷ ("hw_magic", 2)
        ∷ ("stack_profile", 1)
        ∷ ("otap_enabled", 1)
        ∷ ("boot_line_number", 265)
        ∷ ("file_hash", 5)
        ∷ ("stack_trace_0", 0)
        ∷ ("stack_trace_1", 0)
        ∷ ("stack_trace_2", 0)
        ∷ ("cur_seq", 3)
        ∷ ("firmware_version", 67108894)
        ∷ [])
unfolding to_little
decode-packed_example =
    decode-packed boot (1 ∷ 2 ∷ 30 ∷ 0 ∷ 0 ∷ 4 ∷ 7 ∷ 2 ∷ 1 ∷ 1 ∷ 265 ∷ 5 ∷ 0 ∷ 0 ∷ 0 ∷ 3 ∷ [])
      (ground arith)

-- A row of two fields of two bytes, a row without fields, and padding
abbrev test_rows : List Row
test_rows =
    record { testdata_id = 3; id_ctrl = 2; more_bytes = 1; fields = 300 ∷ 7 ∷ [] }
    ∷ record { testdata_id = 0; id_ctrl = 1; more_bytes = 0; fields = [] }
    ∷ []

decode-rows_example :
    TestNw.decode (35 ∷ 66 ∷ 44 ∷ 1 ∷ 7 ∷ 0 ∷ 16 ∷ 0 ∷ 0 ∷ 9 ∷ []) ≡ some (ok (columns test_rows))
unfolding to_little
decode-rows_example = decode-rows test_rows (0 ∷ 9 ∷ []) (ground arith) refl

-- A field is cut off.
decode-settled_example : (apdu : TestNw.Apdu) × (TestNw.decode (35 ∷ 66 ∷ 44 ∷ []) ≡ some (ok apdu))
decode-settled_example = decode-settled (35 ∷ 66 ∷ 44 ∷ [])
