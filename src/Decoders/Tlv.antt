-- ===== src/Decoders/Tlv.antt =====
-- `tlv_decoder` of generic.py: items of a type, a length and values, over a table of the known types.
pub mod Rounds
pub mod Items
pub mod Sequence
use Prim.Native.String.{String}
use backend_client.Base.{
  ℕ, zero, suc, ◌+◌, ◌/◌, Bool, Option, none, some, List, [], ◌∷◌, Bytes, slice, leb, if◌then◌else◌,
  nat_eq,
}
use backend_client.Base.Dict.{Dict, lookup}
use backend_client.Base.Int.{ℤ}
use backend_client.Base.Exceptions.{Result, ok, err, ◌>>=◌}
use backend_client.Decoders.Struct.{Code, uint8, calcsize, unpack, unpack_unsigned}

-- The factor of a unit, as a fraction, and what multiplying a value by it gives: the product is a float
-- in the source, and is kept as its two factors here.
pub record Ratio : Type 0 where
  pub numerator : ℤ
  pub denominator : ℕ

pub record Quantity : Type 0 where
  pub value : ℤ
  pub unit : Ratio

-- An entry of the table. The format of an entry has a code at least, and may be missing.
pub record Field : Type 0 where
  pub name : String
  pub unit : Ratio
  pub format : Option (Code × List Code)

abbrev pub codes : Code × List Code → List Code
codes format = format.0 ∷ format.1

-- "<B B"
abbrev pub tlv_header : List Code
tlv_header = uint8 ∷ uint8 ∷ []

-- What a decoder does with the values of one field, `_tlv_value_decoder`
abbrev pub OnValue {ℓ} : Type ℓ → Type ℓ
OnValue S = ℕ → Field → List ℤ → S → Result S

module _ {ℓ} {S : Type ℓ} (fields : Dict ℕ Field) (on_value : OnValue S) (payload : Bytes) where
  -- The loop over the values of an item, from the end of what was read: what is too short is skipped.
  unfoldable pub values : ℕ → ℕ → Field → List Code → ℕ → S → Result (ℕ × S)
  values zero tlv_id field format end apdu = ok (end, apdu)
  values (suc n) tlv_id field format start apdu =
      let end = start + calcsize format in
      elim (unpack format (slice start end payload)) [
        | err _ ↦ values n tlv_id field format end apdu
        | ok value ↦ do
          next ← on_value tlv_id field value apdu
          values n tlv_id field format end next
      ]

  -- The values of an item, after its header. An item that is not known is not skipped: the loop goes on
  -- behind the header.
  unfoldable pub item : ℕ → ℕ → ℕ → S → Result (ℕ × S)
  unfolding values
  item tlv_id tlv_len end apdu = elim (lookup tlv_id fields) [
    | none ↦ ok (end, apdu)
    | some field ↦ elim field.format [
      | none ↦ ok (end, apdu)
      | some format ↦
          values (tlv_len / calcsize (codes format)) tlv_id field (codes format) end apdu
    ]
  ]

  abbrev pub header_of : Result (List ℕ) → Option (ℕ × ℕ)
  header_of (ok (tlv_id ∷ tlv_len ∷ [])) = some (tlv_id, tlv_len)
  header_of _ = none

  -- The header of the next item, none where the loop ends
  unfoldable pub next_header : ℕ → ℕ → Option (ℕ × ℕ)
  unfolding unpack_unsigned
  next_header data_size start =
      let end = start + calcsize tlv_header in
      if leb data_size end
      then none
      else header_of (unpack_unsigned tlv_header (slice start end payload))

  -- `while True`, none if the fuel does not suffice
  unfoldable pub tlv_loop : ℕ → ℕ → ℕ → S → Option (Result S)
  unfolding item next_header
  tlv_loop zero data_size end apdu = none
  tlv_loop (suc fuel) data_size start apdu = elim (next_header data_size start) [
    | none ↦ some (ok apdu)
    | some header ↦ elim (item header.0 header.1 (start + calcsize tlv_header) apdu) [
      | err raised ↦ some (err raised)
      | ok next ↦ tlv_loop fuel data_size next.0 next.1
    ]
  ]

  -- Every round reads a header before the end, so data_size + 1 rounds are enough.
  unfoldable pub tlv_decoder : ℕ → S → Option (Result S)
  unfolding tlv_loop
  tlv_decoder data_size apdu = tlv_loop (suc data_size) data_size 0 apdu
