-- ===== src/Advertiser/Wire.antt =====
-- An advertiser's packet as the device writes it, and what `decode` makes of it.
use backend_client.Base.{
  ℕ, ◌+◌, ◌/◌, ◌%◌, ◌<◌, ◌≡◌, refl, ap, ◌∙◌, List, [], ◌∷◌, ◌++◌, map, arith, Bytes, length, All,
  joined,
}
use backend_client.Base.Dict.{Dict}
use backend_client.Base.Exceptions.{ok}
use backend_client.Advertiser.{
  AddressLength, three_bytes, four_bytes, address_len, width_of, chunker, Advertised, note,
  decode_chunk, decode_chunks, decode,
}
use backend_client.Advertiser.Blocks.{rest_chunks, IsBlocks, chunks-blocks}

-- A measurement as the device writes it: the address with its lowest byte first, and the value.
abbrev pub wire : AddressLength → ℕ × ℕ → Bytes
wire three_bytes (address, v) = address % 256 ∷ address / 256 % 256 ∷ address / 65536 % 256 ∷ v ∷ []
wire four_bytes (address, v) =
    address % 256 ∷ address / 256 % 256 ∷ address / 65536 % 256 ∷ address / 16777216 % 256 ∷ v ∷ []

-- The addresses that fit
abbrev pub Fits : AddressLength → ℕ → Type 0
Fits three_bytes address = address < 16777216
Fits four_bytes address = address < 4294967296

abbrev pub IsMeasurements : AddressLength → List (ℕ × ℕ) → Type 0
IsMeasurements width = All (λ m. Fits width m.0)

-- What a receiver should note, measurement by measurement
unfoldable pub noted : ℕ → ℕ → List (ℕ × ℕ) → Dict ℕ Advertised → Dict ℕ Advertised
unfolding note
noted adv_type timestamp [] adv = adv
noted adv_type timestamp ((address, v) ∷ more) adv =
    noted adv_type timestamp more (note adv_type timestamp address v adv)

decode_chunk-wire :
    (width : AddressLength) (adv_type timestamp address v : ℕ) (adv : Dict ℕ Advertised)
    → Fits width address
    → decode_chunk width adv_type timestamp (wire width (address, v)) adv
      ≡ note adv_type timestamp address v adv
unfolding decode_chunk
decode_chunk-wire three_bytes adv_type timestamp address v adv h =
    ap (λ a. note adv_type timestamp a v adv) (omega arith)
decode_chunk-wire four_bytes adv_type timestamp address v adv h =
    ap (λ a. note adv_type timestamp a v adv) (omega arith)

wire-IsBlocks :
    (width : AddressLength) (ms : List (ℕ × ℕ))
    → IsBlocks (address_len width + 1) (map (wire width) ms)
wire-IsBlocks width [] = tt
wire-IsBlocks three_bytes (m ∷ ms) = (refl, wire-IsBlocks three_bytes ms)
wire-IsBlocks four_bytes (m ∷ ms) = (refl, wire-IsBlocks four_bytes ms)

-- The end of a packet, which is too short for a measurement, is left out.
decode_chunks-rest :
    (width : AddressLength) (adv_type timestamp : ℕ) (rest : Bytes) (adv : Dict ℕ Advertised)
    → length rest < address_len width + 1
    → decode_chunks width adv_type timestamp (rest_chunks rest) adv ≡ adv
unfolding decode_chunks decode_chunk
decode_chunks-rest width adv_type timestamp [] adv h = refl
decode_chunks-rest three_bytes adv_type timestamp (a ∷ []) adv h = refl
decode_chunks-rest three_bytes adv_type timestamp (a ∷ b ∷ []) adv h = refl
decode_chunks-rest three_bytes adv_type timestamp (a ∷ b ∷ c ∷ []) adv h = refl
decode_chunks-rest three_bytes adv_type timestamp (a ∷ b ∷ c ∷ d ∷ rest) adv h =
    absurd (omega arith)
decode_chunks-rest four_bytes adv_type timestamp (a ∷ []) adv h = refl
decode_chunks-rest four_bytes adv_type timestamp (a ∷ b ∷ []) adv h = refl
decode_chunks-rest four_bytes adv_type timestamp (a ∷ b ∷ c ∷ []) adv h = refl
decode_chunks-rest four_bytes adv_type timestamp (a ∷ b ∷ c ∷ d ∷ []) adv h = refl
decode_chunks-rest four_bytes adv_type timestamp (a ∷ b ∷ c ∷ d ∷ e ∷ rest) adv h =
    absurd (omega arith)

decode_chunks-wire :
    (width : AddressLength) (adv_type timestamp : ℕ) (ms : List (ℕ × ℕ)) (rest : Bytes)
    (adv : Dict ℕ Advertised)
    → IsMeasurements width ms
    → length rest < address_len width + 1
    → decode_chunks width adv_type timestamp (map (wire width) ms ++ rest_chunks rest) adv
      ≡ noted adv_type timestamp ms adv
unfolding decode_chunks noted
decode_chunks-wire width adv_type timestamp [] rest adv all h =
    decode_chunks-rest width adv_type timestamp rest adv h
decode_chunks-wire width adv_type timestamp ((address, v) ∷ ms) rest adv all h =
    ap (decode_chunks width adv_type timestamp (map (wire width) ms ++ rest_chunks rest))
      (decode_chunk-wire width adv_type timestamp address v adv all.0)
    ∙ decode_chunks-wire width adv_type timestamp ms rest (note adv_type timestamp address v adv)
        all.1 h

-- The header of a packet: the type, and the width of the addresses in its highest bit
abbrev pub header_byte : AddressLength → ℕ → ℕ
header_byte three_bytes adv_type = adv_type
header_byte four_bytes adv_type = 128 + adv_type

header_byte-type :
    (width : AddressLength) (adv_type : ℕ)
    → adv_type < 128
    → header_byte width adv_type % 128 ≡ adv_type
header_byte-type three_bytes adv_type t = omega arith
header_byte-type four_bytes adv_type t = omega arith

header_byte-width :
    (width : AddressLength) (adv_type : ℕ)
    → adv_type < 128
    → width_of (header_byte width adv_type) ≡ width
header_byte-width three_bytes adv_type t = ground arith
header_byte-width four_bytes adv_type t = ground arith

body_noted :
    (width : AddressLength) (timestamp adv_type : ℕ) (ms : List (ℕ × ℕ)) (rest : Bytes)
    → IsMeasurements width ms
    → length rest < address_len width + 1
    → decode_chunks width adv_type timestamp
        (chunker (joined (map (wire width) ms) ++ rest) (address_len width + 1))
        []
      ≡ noted adv_type timestamp ms []
body_noted width timestamp adv_type ms rest all h =
    let blocks : List Bytes = map (wire width) ms in
    ap (λ z. decode_chunks width adv_type timestamp z [])
      (chunks-blocks (length (joined blocks ++ rest)) (address_len width + 1) blocks rest
        (omega arith) (wire-IsBlocks width ms) h)
    ∙ decode_chunks-wire width adv_type timestamp ms rest [] all h

-- A packet of measurements, in either width of addresses, is decoded to its type and its reserved
-- byte, and to what is noted of the measurements one by one, in their order; bytes at the end that do
-- not make a measurement are left out. The type is below 128 and the addresses fit the width.
pub decode-wire :
    (width : AddressLength) (timestamp adv_type reserved : ℕ) (ms : List (ℕ × ℕ)) (rest : Bytes)
    → adv_type < 128
    → IsMeasurements width ms
    → length rest < address_len width + 1
    → decode timestamp
        (header_byte width adv_type ∷ reserved ∷ joined (map (wire width) ms) ++ rest)
      ≡ ok (record {
        adv_type = adv_type;
        adv_reserved_field = reserved;
        adv = noted adv_type timestamp ms [];
      })
unfolding decode
decode-wire width timestamp adv_type reserved ms rest t all h =
    rw (header_byte-type width adv_type t, header_byte-width width adv_type t)
      (ap (λ d. ok (record { adv_type = adv_type; adv_reserved_field = reserved; adv = d }))
        (body_noted width timestamp adv_type ms rest all h))
