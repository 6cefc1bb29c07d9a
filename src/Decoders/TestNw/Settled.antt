-- ===== src/Decoders/TestNw/Settled.antt =====
-- The decoder ends on every payload, and raises nothing.
use backend_client.Base.{
  ℕ, zero, suc, ◌+◌, ◌-◌, ◌*◌, ◌^◌, ◌<◌, ◌≤◌, ◌≡◌, refl, arith, Option, none, some, List, [], ◌∷◌,
  ◌++◌, length, Bytes, get_elem?, ltb, eqb, ltb→lt, Bool-cases, inl, inr,
}
use backend_client.Base.Exceptions.{
  Exception, index_error, Result, ok, err, index, or_raise, Result-cases,
}
use backend_client.Base.State.{◌>>=◌, ◌>>◌}
use backend_client.Decoders.TestNw.{
  Apdu, Decoding, M, cell, append_at, append_value, change, advance, byte, field_value, fields,
  split, header, counted, row_fields, row, caught, no_rows, loop, decode, put_testdata_id,
  put_id_ctrl, put_number_of_fields, put_bytes_per_field,
}

-- What is raised is an `IndexError`.
abbrev pub OnlyIndex {ℓ} : {A : Type ℓ} → Result A → Type 0
OnlyIndex (ok a) = Unit
OnlyIndex (err x) = x ≡ index_error

-- The offset never goes back, and is n bytes further at least where the code returns.
abbrev Further : {A : Type 0} → ℕ → ℕ → Result A × Decoding → Type 0
Further n i (ok a, s) = i + n ≤ s.apdu_offset
Further n i (err x, s) = x ≡ index_error

abbrev Goes : {A : Type 0} → ℕ → M A → Type 0
Goes n f = (s : Decoding) → Further n s.apdu_offset (f s)

then-Goes :
    {A B : Type 0} (n k i : ℕ) (r : Result A × Decoding) (f : A → M B)
    → Further n i r
    → ((a : A) → Goes k (f a))
    → Further (n + k) i (◌>>=◌ {S = Decoding} (λ _. r) f r.1)
then-Goes n k i (err x, s) f first second = first
then-Goes n k i (ok a, s) f first second = further (f a s) (second a s)
  where
    further :
        {B : Type 0} (r : Result B × Decoding) → Further k s.apdu_offset r → Further (n + k) i r
    further (ok b, t) h = omega arith
    further (err x, t) h = h

>>=-Goes :
    {A B : Type 0} (n k : ℕ) (m : M A) (f : A → M B)
    → Goes n m
    → ((a : A) → Goes k (f a))
    → Goes (n + k) (m >>= f)
>>=-Goes n k m f first second s = then-Goes n k s.apdu_offset (m s) f (first s) second

looked_up :
    {A : Type 0} (r : Result A) (s : Decoding) → OnlyIndex r → Further 0 s.apdu_offset (r, s)
looked_up (ok a) s h = omega arith
looked_up (err x) s h = h

or_raise-only : {A : Type 0} (o : Option A) → OnlyIndex (or_raise o index_error)
or_raise-only none = refl
or_raise-only (some a) = tt

err-only : {A : Type 0} {r : Result A} {x : Exception} → OnlyIndex r → r ≡ err x → x ≡ index_error
err-only {r = ok a} only h = absurd (cc)
err-only {r = err y} only h = cc

append_at-only : (i v : ℕ) (rows : List (List ℕ)) → OnlyIndex (append_at i v rows)
append_at-only i v [] = refl
append_at-only zero v (r ∷ rows) = tt
append_at-only (suc i) v (r ∷ rows) = kept (append_at i v rows) (append_at-only i v rows)
  where
    kept :
        (q : Result (List (List ℕ)))
        → OnlyIndex q
        → OnlyIndex (elim q [ ok more ↦ ok (r ∷ more) | err x ↦ err x ])
    kept (ok more) h = tt
    kept (err x) h = h

change-Goes : (f : Apdu → Apdu) → Goes 0 (change f)
change-Goes f s = omega arith

advance-Goes : Goes 1 advance
advance-Goes s = omega arith

advance-stays : Goes 0 advance
advance-stays s = omega arith

append_value-Goes : (v : ℕ) → Goes 0 (append_value v)
append_value-Goes v s =
    let rows = append_at s.apdu.row_count v s.apdu.datafields in
    then-Goes 0 0 s.apdu_offset (rows, s) (λ r. change (λ a. record a { datafields = r }))
      (looked_up rows s (append_at-only s.apdu.row_count v s.apdu.datafields))
      (λ r. change-Goes (λ a. record a { datafields = r }))

module _ (payload : Bytes) where
  byte-Goes : Goes 0 (byte payload)
  byte-Goes s =
      looked_up (index payload s.apdu_offset) s (or_raise-only (get_elem? payload s.apdu_offset))

  field_value-Goes : (n j value : ℕ) → Goes 0 (field_value payload n j value)
  unfolding field_value
  field_value-Goes zero j value s = omega arith
  field_value-Goes (suc n) j value s =
      let next : ℕ → M ℕ = λ b. field_value payload n (suc j) (value + b * 2 ^ (j * 8)) in
      >>=-Goes 0 0 (byte payload) (λ b. advance >> next b) byte-Goes
        (λ b.
          >>=-Goes 0 0 advance (λ _. next b) advance-stays
            (λ _. field_value-Goes n (suc j) (value + b * 2 ^ (j * 8))))
        s

  fields-Goes : (n : ℕ) → Goes 0 (fields payload n)
  unfolding fields
  fields-Goes zero s = omega arith
  fields-Goes (suc n) s =
      let more : ℕ → M (Unit {0}) = λ value. append_value value >> fields payload n in
      then-Goes 0 0 s.apdu_offset (cell s.apdu.row_count s.apdu.bytes_per_field, s)
        (λ w. field_value payload w 0 0 >>= more)
        (looked_up _ s (or_raise-only (get_elem? s.apdu.bytes_per_field s.apdu.row_count)))
        (λ w. >>=-Goes 0 0 (field_value payload w 0 0) more (field_value-Goes w 0 0) (λ v.
          >>=-Goes 0 0 (append_value v) (λ _. fields payload n) (append_value-Goes v)
            (λ _. fields-Goes n)))

  split-Goes : (f g : ℕ → Apdu → Apdu) → Goes 1 (split payload f g)
  split-Goes f g =
      let last : ℕ → M (Unit {0}) = λ c. change (g c) >> advance in
      let second : M (Unit {0}) = byte payload >>= last in
      let second_goes : Goes 1 second =
        >>=-Goes 0 1 (byte payload) last byte-Goes (λ c.
          >>=-Goes 0 1 (change (g c)) (λ _. advance) (change-Goes (g c)) (λ _. advance-Goes)) in
      >>=-Goes 0 1 (byte payload) (λ b. change (f b) >> second) byte-Goes
        (λ b. >>=-Goes 0 1 (change (f b)) (λ _. second) (change-Goes (f b)) (λ _. second_goes))

  row_fields-Goes : Goes 0 (row_fields payload)
  unfolding fields
  row_fields-Goes s =
      let added = record s { apdu = record s.apdu { datafields = s.apdu.datafields ++ [] ∷ [] } } in
      then-Goes 0 0 s.apdu_offset (cell s.apdu.row_count s.apdu.number_of_fields, added)
        (λ n. fields payload n >> counted)
        (looked_up _ added (or_raise-only (get_elem? s.apdu.number_of_fields s.apdu.row_count)))
        (λ n.
          >>=-Goes 0 0 (fields payload n) (λ _. counted) (fields-Goes n)
            (λ _. change-Goes (λ apdu. record apdu { row_count = apdu.row_count + 1 })))

  row-Goes : Goes 2 (row payload)
  unfolding row
  row-Goes =
      let one = split payload put_testdata_id put_id_ctrl in
      let two = split payload put_number_of_fields put_bytes_per_field in
      >>=-Goes 2 0 (header payload) (λ _. row_fields payload)
        (>>=-Goes 1 1 one (λ _. two) (split-Goes put_testdata_id put_id_ctrl)
          (λ _. split-Goes put_number_of_fields put_bytes_per_field))
        (λ _. row_fields-Goes)

  -- What ends in a dictionary, without an exception
  abbrev Ends : Option (Result (Unit {0}) × Decoding) → Type 0
  Ends r = (apdu : Apdu) × (caught r ≡ some (ok apdu))

  raised-Ends : (x : Exception) (t : Decoding) → x ≡ index_error → Ends (some (err x, t))
  raised-Ends x t h = (t.apdu, rw h refl)

  -- The rest of a round, where what is left ends on the remaining fuel
  row-Ends :
      (fuel i : ℕ) (r : Result (Unit {0}) × Decoding)
      → ((t : Decoding) → length payload - t.apdu_offset < fuel → Ends (loop payload fuel t))
      → Further 2 i r
      → i < length payload
      → length payload - i < suc fuel
      → Ends (
          let (q, next) = r in
          elim q [ ok _ ↦ loop payload fuel next | err x ↦ some (err x, next) ])
  row-Ends fuel i (ok a, t) rest far inside h = rest t (omega arith)
  row-Ends fuel i (err x, t) rest far inside h = raised-Ends x t far

  loop-settled :
      (fuel : ℕ) (s : Decoding) → length payload - s.apdu_offset < fuel → Ends (loop payload fuel s)
  unfolding loop
  loop-settled zero s h = absurd (omega arith)
  loop-settled (suc fuel) s h = elim (Bool-cases (ltb s.apdu_offset (length payload))) [
    | inr outside ↦ (s.apdu, rw (loop, outside) refl)
    | inl inside ↦ elim (Result-cases (index payload s.apdu_offset)) [
      | inr (x, e) ↦
          let (apdu, settled) = raised-Ends x s (err-only (or_raise-only _) e) in
          (apdu, rw (loop, inside, e) settled)
      | inl (first, e) ↦ elim (Bool-cases (eqb first 0)) [
        | inl zero_first ↦ (s.apdu, rw (loop, inside, e, zero_first) refl)
        | inr more ↦
            let (apdu, settled) =
              row-Ends fuel s.apdu_offset (row payload s) (loop-settled fuel) (row-Goes s)
                (ltb→lt s.apdu_offset (length payload) inside) h in
            (apdu, rw (loop, inside, e, more) settled)
      ]
    ]
  ]

-- On every payload, however it is broken, the decoder ends and raises nothing: it has as much fuel as it
-- needs, and what its indices raise is caught.
pub decode-settled : (payload : Bytes) → (apdu : Apdu) × (decode payload ≡ some (ok apdu))
unfolding decode
decode-settled payload =
    loop-settled payload (suc (length payload)) (record { apdu = no_rows; apdu_offset = 0 })
      (omega arith)
