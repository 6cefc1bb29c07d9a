-- ===== src/Decoders/Positioning.antt =====
-- positioning.py: the measurements of a positioning tag.
pub mod Reports
use Prim.Native.String.{String}
use backend_client.Base.{
  ℕ, ◌+◌, ◌*◌, ◌||◌, Option, some, List, [], ◌∷◌, ◌++◌, Bool, Bytes, none, length, drop, nat_eq,
  slice, eqb, if◌then◌else◌,
}
use backend_client.Base.Dict.{Dict}
use backend_client.Base.Int.{ℤ, pos, negsuc, pos_part}
use backend_client.Base.Exceptions.{Result, ok, err, index_error, struct_error}
use backend_client.Decoders.Struct.{Code, uint8, uint16, calcsize, unpack_unsigned}
use backend_client.Decoders.Tlv.{Ratio, Quantity, Field, tlv_decoder}

abbrev pub half : Ratio
half = record { numerator = negsuc 0; denominator = 2 }

abbrev pub one : Ratio
one = record { numerator = pos 1; denominator = 1 }

abbrev pub four_bytes : Code × List Code
four_bytes = (uint8, uint8 ∷ uint8 ∷ uint8 ∷ [])

abbrev pub pos_app_meas_rss_sr : Field
pos_app_meas_rss_sr = record { name = "POS_APP_MEAS_RSS_SR"; unit = half; format = some four_bytes }

abbrev pub pos_app_meas_rss_hr : Field
pos_app_meas_rss_hr = record { name = "POS_APP_MEAS_RSS_HR"; unit = half; format = some four_bytes }

abbrev pub pos_app_meas_voltage : Field
pos_app_meas_voltage = record {
  name = "POS_APP_MEAS_VOLTAGE";
  unit = one;
  format = some (uint16, []);
}

abbrev pub pos_app_meas_rss_sr_anchor : Field
pos_app_meas_rss_sr_anchor = record {
  name = "POS_APP_MEAS_RSS_SR_ANCHOR";
  unit = half;
  format = some four_bytes;
}

-- `_apdu_fields`
abbrev pub apdu_fields : Dict ℕ Field
apdu_fields =
    (0x00, pos_app_meas_rss_sr)
    ∷ (0x01, pos_app_meas_rss_hr)
    ∷ (0x04, pos_app_meas_voltage)
    ∷ (0xF0, pos_app_meas_rss_sr_anchor)
    ∷ []

-- The two dictionaries that a measurement can be
pub data Measurement : Type 0 where
  strength : (name : String) → (address : ℕ) → (rss : Quantity) → (meas_type : ℕ) → Measurement
  voltage : (name : String) → (value : Quantity) → (meas_type : ℕ) → Measurement

abbrev pub is_strength : ℕ → Bool
is_strength tlv_id = eqb tlv_id 0x00 || eqb tlv_id 0x01 || eqb tlv_id 0xF0

-- The address and the strength of the anchor that was heard. The bytes of the address are joined by `|`
-- and `<<`, which add them up.
abbrev pub heard : ℕ → Field → List ℤ → Result Measurement
heard tlv_id field (a ∷ b ∷ c ∷ rss ∷ _) = ok (
    strength field.name (pos_part a + 256 * pos_part b + 65536 * pos_part c)
      (record { value = rss; unit = field.unit }) tlv_id)
heard tlv_id field _ = err index_error

abbrev pub measured_voltage : ℕ → Field → List ℤ → Result Measurement
measured_voltage tlv_id field (value ∷ _) =
    ok (voltage field.name (record { value = value; unit = field.unit }) tlv_id)
measured_voltage tlv_id field [] = err index_error

abbrev pub appended : List Measurement → Result Measurement → Result (List Measurement)
appended measurements (ok measurement) = ok (measurements ++ measurement ∷ [])
appended measurements (err x) = err x

-- `_tlv_value_decoder`, which appends to `self.measurements`
abbrev pub tlv_value_decoder : ℕ → Field → List ℤ → List Measurement → Result (List Measurement)
tlv_value_decoder tlv_id field tlv_value measurements =
    if is_strength tlv_id
    then appended measurements (heard tlv_id field tlv_value)
    else (if eqb tlv_id 0x04
        then appended measurements (measured_voltage tlv_id field tlv_value)
        else ok measurements)

-- The dictionary `apdu`
pub record Apdu : Type 0 where
  pub sequence : ℕ
  pub nb_measurements : ℕ
  pub measurements : List Measurement

abbrev pub with_measurements : ℕ → Option (Result (List Measurement)) → Option (Result Apdu)
with_measurements sequence none = none
with_measurements sequence (some (err x)) = some (err x)
with_measurements sequence (some (ok measurements)) = some (
    ok (record {
      sequence = sequence;
      nb_measurements = length measurements;
      measurements = measurements;
    }))

abbrev pub after_sequence : Bytes → ℕ → Result (List ℕ) → Option (Result Apdu)
after_sequence payload data_size (ok (sequence ∷ _)) =
    with_measurements sequence (tlv_decoder apdu_fields tlv_value_decoder payload data_size [])
after_sequence payload data_size (ok []) = some (err index_error)
after_sequence payload data_size (err x) = some (err x)

-- `decode`. The size that the type-length-value decoder goes by is the whole payload's, and its payload is
-- without the two bytes of the sequence. `struct.error` is not caught.
unfoldable pub decode : Bytes → Option (Result Apdu)
unfolding unpack_unsigned tlv_decoder
decode data_payload =
    after_sequence (drop 2 data_payload) (length data_payload)
      (unpack_unsigned (uint16 ∷ []) (slice 0 2 data_payload))
