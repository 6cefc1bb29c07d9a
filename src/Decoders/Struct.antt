-- ===== src/Decoders/Struct.antt =====
-- The formats of Python's `struct` that the decoders use, little-endian and without padding, and
-- `map_list_to_dict` of generic.py.
pub mod Packed
use Prim.Native.String.{String}
use backend_client.Base.{
  ℕ, ◌+◌, ◌*◌, ◌^◌, List, [], ◌∷◌, map, Bytes, length, take, drop, ltb, eqb, if◌then◌else◌,
  string_eq,
}
use backend_client.Base.Dict.{Dict, lookup, insert}
use backend_client.Base.Int.{ℤ, pos, sub_ℕ}
use backend_client.Base.Little.{unsigned_little}
use backend_client.Base.Exceptions.{Result, ok, err, ◌>>=◌, or_raise, key_error, struct_error}

-- The codes B, H, I and i
pub data Code : Type 0 where
  uint8 uint16 uint32 int32 : Code

abbrev pub width : Code → ℕ
width uint8 = 1
width uint16 = 2
width uint32 = 4
width int32 = 4

abbrev pub calcsize : List Code → ℕ
calcsize [] = 0
calcsize (c ∷ format) = width c + calcsize format

-- The fields of a string that is long enough, as unsigned numbers
unfoldable pub raw_fields : List Code → Bytes → List ℕ
raw_fields [] b = []
raw_fields (c ∷ format) b =
    unsigned_little (take (width c) b) ∷ raw_fields format (drop (width c) b)

-- `struct.unpack` of a format without signed codes
unfoldable pub unpack_unsigned : List Code → Bytes → Result (List ℕ)
unpack_unsigned format b =
    if eqb (length b) (calcsize format) then ok (raw_fields format b) else err struct_error

-- The number that a field's bytes stand for
abbrev pub value_of : Code → ℕ → ℤ
value_of int32 n = if ltb n (2 ^ 31) then pos n else sub_ℕ n (2 ^ 32)
value_of _ n = pos n

abbrev pub values_of : List Code → List ℕ → List ℤ
values_of (c ∷ format) (n ∷ raw) = value_of c n ∷ values_of format raw
values_of _ _ = []

-- `struct.unpack`
unfoldable pub unpack : List Code → Bytes → Result (List ℤ)
unpack format b =
    if eqb (length b) (calcsize format)
    then ok (values_of format (raw_fields format b))
    else err struct_error

-- `map_list_to_dict`: names without a value are left out.
abbrev pub map_list_to_dict : List String → List ℕ → Dict String ℕ
map_list_to_dict names values = fill [] names values
  where
    fill : Dict String ℕ → List String → List ℕ → Dict String ℕ
    fill d [] values = d
    fill d (name ∷ names) [] = d
    fill d (name ∷ names) (value ∷ values) = fill (insert name value d) names values

-- `d[name]`, and `d[name] = value` of a value that may raise
abbrev pub get : String → Dict String ℕ → Result ℕ
get name apdu = or_raise (lookup name apdu) key_error

abbrev pub store : String → Result ℕ → Dict String ℕ → Result (Dict String ℕ)
store name value apdu = do number ← value; ok (insert name number apdu)
