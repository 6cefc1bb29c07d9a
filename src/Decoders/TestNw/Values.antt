-- ===== src/Decoders/TestNw/Values.antt =====
-- What the loops over the bytes of a field and over the fields of a row read.
use native.Mathlib.Nat.{pow-suc}
use mathlib.Core.List.{append_assoc, append-nil}
use mathlib.Core.Path.{ap₂}
use backend_client.Base.{
  ℕ, zero, suc, ◌+◌, ◌*◌, ◌^◌, ◌≡◌, refl, sym, ap, ◌∙◌, arith, List, [], ◌∷◌, ◌++◌, map, length,
  Bytes, drop, drop-drop, drop-append_left, length-append, All, ◌<◌,
}
use backend_client.Base.Exceptions.{ok, index}
use backend_client.Base.State.{>>=-ok, ◌>>=◌, ◌>>◌}
use backend_client.Base.Little.{
  to_little, unsigned_little, length-to_little, unsigned_little-to_little,
}
use backend_client.Decoders.TestNw.{
  Apdu, Decoding, cell, append_at, append_value, advance, byte, field_value, fields,
}
use backend_client.Decoders.TestNw.Rows.{Row, width, values_bytes}

abbrev pub at : Apdu → ℕ → Decoding
at a i = record { apdu = a; apdu_offset = i }

-- The byte at a place is the first of what follows it.
pub index-at : (b : Bytes) (i x : ℕ) (q : Bytes) → drop i b ≡ x ∷ q → index b i ≡ ok x
index-at [] zero x q h = cc
index-at [] (suc i) x q h = cc
index-at (y ∷ b) zero x q h = ap ok (cc)
index-at (y ∷ b) (suc i) x q h = index-at b i x q h

pub byte-at :
    (b : Bytes) (i x : ℕ) (q : Bytes) (a : Apdu)
    → drop i b ≡ x ∷ q
    → byte b (at a i) ≡ (ok x, at a i)
byte-at b i x q a h = ap (λ r. (r, at a i)) (index-at b i x q h)

pub drop-next : (b : Bytes) (i x : ℕ) (q : Bytes) → drop i b ≡ x ∷ q → drop (i + 1) b ≡ q
drop-next b i x q h = sym (drop-drop i 1 b) ∙ ap (drop 1) h

pub cell-last :
    {A : Type 0} (f : A → ℕ) (rows : List A) (x : ℕ)
    → cell (length rows) (map f rows ++ x ∷ []) ≡ ok x
cell-last f [] x = refl
cell-last f (r ∷ rows) x = cell-last f rows x

pub append_at-last :
    {A : Type 0} (f : A → List ℕ) (rows : List A) (got : List ℕ) (v : ℕ)
    → append_at (length rows) v (map f rows ++ got ∷ []) ≡ ok (map f rows ++ (got ++ v ∷ []) ∷ [])
append_at-last f [] got v = refl
append_at-last f (r ∷ rows) got v = rw (append_at-last f rows got v) refl

byte_shift : (j : ℕ) → 2 ^ (suc j * 8) ≡ 256 * 2 ^ (j * 8)
byte_shift j =
    let eight : suc j * 8 ≡ suc (suc (suc (suc (suc (suc (suc (suc (j * 8)))))))) = omega arith in
    rw (eight) (rw (pow-suc) (omega arith))

shifted :
    (j value x u : ℕ)
    → value + x * 2 ^ (j * 8) + 2 ^ (suc j * 8) * u ≡ value + 2 ^ (j * 8) * (x + 256 * u)
shifted j value x u = omega (arith, ap (λ p. p * u) (byte_shift j))

-- The columns after some rows and the header of another, of whose fields some are there
abbrev pub filling : List Row → Row → List ℕ → Apdu
filling rows r got = record {
  testdata_id = map (λ r. r.testdata_id) rows ++ r.testdata_id ∷ [];
  row_count = length rows;
  id_ctrl = map (λ r. 16 * r.id_ctrl) rows ++ 16 * r.id_ctrl ∷ [];
  number_of_fields = map (λ r. length r.fields) rows ++ length r.fields ∷ [];
  bytes_per_field = map width rows ++ width r ∷ [];
  datafields = map (λ r. r.fields) rows ++ got ∷ [];
}

appended :
    (rows : List Row) (r : Row) (got : List ℕ) (v i : ℕ)
    → append_value v (at (filling rows r got) i) ≡ (ok tt, at (filling rows r (got ++ v ∷ [])) i)
appended rows r got v i = rw (append_at-last (λ r. r.fields) rows got v) refl

module _ (payload : Bytes) where
  -- The bytes of a field, from the jth on
  field_value-read :
      (q rest : Bytes) (j value : ℕ) (a : Apdu) (i : ℕ)
      → drop i payload ≡ q ++ rest
      → field_value payload (length q) j value (at a i)
        ≡ (ok (value + 2 ^ (j * 8) * unsigned_little q), at a (i + length q))
  unfolding field_value unsigned_little
  field_value-read [] rest j value a i h = ap₂ (λ v k. (ok v, at a k)) (omega arith) (omega arith)
  field_value-read (x ∷ q) rest j value a i h =
      let more =
        field_value-read q rest (suc j) (value + x * 2 ^ (j * 8)) a (i + 1)
          (drop-next payload i x (q ++ rest) h) in
      >>=-ok (byte payload)
        (λ b. advance >> field_value payload (length q) (suc j) (value + b * 2 ^ (j * 8)))
        (byte-at payload i x (q ++ rest) a h)
      ∙ more
      ∙ ap₂ (λ v k. (ok v, at a k)) (shifted j value x (unsigned_little q)) (omega arith)

  -- A field
  field-read :
      (w v : ℕ) (rest : Bytes) (a : Apdu) (i : ℕ)
      → v < 256 ^ w
      → drop i payload ≡ to_little w v ++ rest
      → field_value payload w 0 0 (at a i) ≡ (ok v, at a (i + length (to_little w v)))
  field-read w v rest a i fits h =
      let read = field_value-read (to_little w v) rest 0 0 a i h in
      let n = ap (λ n. field_value payload n 0 0 (at a i)) (length-to_little w v) in
      sym n
      ∙ read
      ∙ ap (λ x. (ok x, at a (i + length (to_little w v))))
          (omega (arith, unsigned_little-to_little w v fits))

  -- The fields of a row
  pub fields-read :
      (rows : List Row) (r : Row) (vs got : List ℕ) (rest : Bytes) (i : ℕ)
      → All (λ v. v < 256 ^ width r) vs
      → drop i payload ≡ values_bytes (width r) vs ++ rest
      → fields payload (length vs) (at (filling rows r got) i)
        ≡ (ok tt, at (filling rows r (got ++ vs)) (i + length (values_bytes (width r) vs)))
  unfolding fields
  fields-read rows r [] got rest i fit h =
      ap₂ (λ g k. (ok tt, at (filling rows r g) k)) (sym (append-nil got)) (omega arith)
  fields-read rows r (v ∷ vs) got rest i (first, fit) h =
      let q = to_little (width r) v in
      let more_bytes = values_bytes (width r) vs in
      let here : drop i payload ≡ q ++ (more_bytes ++ rest) = h ∙ append_assoc q more_bytes rest in
      let there : drop (i + length q) payload ≡ more_bytes ++ rest =
        sym (drop-drop i (length q) payload)
        ∙ ap (drop (length q)) here
        ∙ drop-append_left (length q) q (more_bytes ++ rest) refl in
      let more = fields-read rows r vs (got ++ v ∷ []) rest (i + length q) fit there in
      let a = filling rows r got in
      >>=-ok (λ s. (cell s.apdu.row_count s.apdu.bytes_per_field, s))
        (λ w.
          field_value payload w 0 0 >>= λ value. append_value value >> fields payload (length vs))
        (ap (λ c. (c, at a i)) (cell-last width rows (width r)))
      ∙ >>=-ok (field_value payload (width r) 0 0)
          (λ value. append_value value >> fields payload (length vs))
          (field-read (width r) v (more_bytes ++ rest) a i first here)
      ∙ >>=-ok (append_value v) (λ _. fields payload (length vs)) {s = at a (i + length q)}
          (appended rows r got v (i + length q))
      ∙ more
      ∙ ap₂ (λ g k. (ok tt, at (filling rows r g) k)) (append_assoc got (v ∷ []) vs)
          (omega (arith, length-append q more_bytes))
