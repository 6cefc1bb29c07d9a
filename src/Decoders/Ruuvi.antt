-- ===== src/Decoders/Ruuvi.antt =====
-- ruuvi.py: the sensor values of a Ruuvi tag.
use Prim.Native.String.{String}
use backend_client.Base.{ℕ, Option, some, List, [], ◌∷◌, Bytes, length, string_eq}
use backend_client.Base.Dict.{Dict, insert}
use backend_client.Base.Int.{ℤ, pos}
use backend_client.Base.Exceptions.{Result, ok, err, index_error}
use backend_client.Decoders.Struct.{Code, uint16, uint32, int32}
use backend_client.Decoders.Tlv.{Ratio, Quantity, Field, tlv_decoder}

abbrev pub per : ℕ → Ratio
per n = record { numerator = pos 1; denominator = n }

abbrev pub entry : String → Ratio → Code → Field
entry name unit code = record { name = name; unit = unit; format = some (code, []) }

-- `_tlv_fields`
abbrev pub tlv_fields : Dict ℕ Field
tlv_fields =
    (1, entry "counter" (per 1) uint16)
    ∷ (2, entry "temperature" (per 100) int32)
    ∷ (3, entry "humidity" (per 1024) uint32)
    ∷ (4, entry "pressure" (per 10000) uint32)
    ∷ (5, entry "acc_x" (per 1000) int32)
    ∷ (6, entry "acc_y" (per 1000) int32)
    ∷ (7, entry "acc_z" (per 1000) int32)
    ∷ []

-- `_tlv_value_decoder`
abbrev pub tlv_value_decoder :
    ℕ → Field → List ℤ → Dict String Quantity → Result (Dict String Quantity)
tlv_value_decoder tlv_id field [] apdu = err index_error
tlv_value_decoder tlv_id field (value ∷ _) apdu =
    ok (insert field.name (record { value = value; unit = field.unit }) apdu)

-- `decode`
unfoldable pub decode : Bytes → Option (Result (Dict String Quantity))
unfolding tlv_decoder
decode data_payload = tlv_decoder tlv_fields tlv_value_decoder data_payload (length data_payload) []
