-- ===== src/Decoders/Struct/Packed.antt =====
-- Packing, and that `struct.unpack` undoes it.
use mathlib.Core.Path.{ap₂}
use backend_client.Base.{
  ℕ, ◌+◌, ◌^◌, ◌<◌, ◌≡◌, refl, ◌∙◌, List, [], ◌∷◌, ◌++◌, Bytes, length, take, drop, length-append,
  take-append_left, drop-append_left, eqb_iff,
}
use backend_client.Base.Exceptions.{ok}
use backend_client.Base.Little.{to_little, unsigned_little-to_little, length-to_little}
use backend_client.Decoders.Struct.{Code, width, calcsize, raw_fields, unpack_unsigned}

-- `struct.pack` of a format without signed codes
abbrev pub pack : List Code → List ℕ → Bytes
pack (c ∷ format) (n ∷ values) = to_little (width c) n ++ pack format values
pack _ _ = []

-- One value for every code, that fits it
abbrev pub Fits : List Code → List ℕ → Type 0
Fits [] [] = Unit
Fits (c ∷ format) (n ∷ values) = (n < 256 ^ width c) × Fits format values
Fits _ _ = ⊥

pub length-pack :
    (format : List Code) (values : List ℕ)
    → Fits format values
    → length (pack format values) ≡ calcsize format
length-pack [] [] h = refl
length-pack [] (n ∷ values) h = absurd h
length-pack (c ∷ format) [] h = absurd h
length-pack (c ∷ format) (n ∷ values) h =
    length-append (to_little (width c) n) (pack format values)
    ∙ ap₂ (λ a b. a + b) (length-to_little (width c) n) (length-pack format values h.1)

pub raw_fields-pack :
    (format : List Code) (values : List ℕ)
    → Fits format values
    → raw_fields format (pack format values) ≡ values
unfolding raw_fields
raw_fields-pack [] [] h = refl
raw_fields-pack [] (n ∷ values) h = absurd h
raw_fields-pack (c ∷ format) [] h = absurd h
raw_fields-pack (c ∷ format) (n ∷ values) h =
    let first = to_little (width c) n in
    let rest = pack format values in
    let t : take (width c) (first ++ rest) ≡ first =
      take-append_left (width c) first rest (length-to_little (width c) n) in
    let d : drop (width c) (first ++ rest) ≡ rest =
      drop-append_left (width c) first rest (length-to_little (width c) n) in
    rw (t, d, unsigned_little-to_little (width c) n h.0, raw_fields-pack format values h.1) refl

-- What was packed is unpacked.
pub unpack-pack :
    (format : List Code) (values : List ℕ)
    → Fits format values
    → unpack_unsigned format (pack format values) ≡ ok values
unfolding unpack_unsigned
unpack-pack format values h =
    let l =
      (eqb_iff (length (pack format values)) (calcsize format)).1 (length-pack format values h) in
    rw (l, raw_fields-pack format values h) refl
