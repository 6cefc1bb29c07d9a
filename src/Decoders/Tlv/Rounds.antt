-- ===== src/Decoders/Tlv/Rounds.antt =====
-- The loop of `tlv_decoder` ends.
use backend_client.Base.{
  ℕ, zero, suc, ◌+◌, ◌-◌, ◌/◌, ◌≤◌, ◌<◌, ◌≡◌, refl, ap, ◌∙◌, arith, none, some, List, Bytes,
  Option-cases, Bool-cases, inl, inr, leb, slice, nat_eq,
}
use backend_client.Base.Dict.{Dict, lookup}
use backend_client.Base.Exceptions.{Exception, Result, ok, err, Result-cases, ok-eq, >>=-eq-ok}
use backend_client.Decoders.Struct.{Code, calcsize, unpack}
use backend_client.Decoders.Tlv.{
  Field, codes, OnValue, values, item, next_header, tlv_loop, tlv_decoder,
}

module _ {ℓ} {S : Type ℓ} (fields : Dict ℕ Field) (on_value : OnValue S) (payload : Bytes) where
  -- The values of an item are read forwards.
  values-forward :
      (n tlv_id : ℕ) (field : Field) (format : List Code) (start : ℕ) (apdu : S) {end : ℕ}
      {next : S}
      → values fields on_value payload n tlv_id field format start apdu ≡ ok (end, next)
      → start ≤ end
  unfolding values
  values-forward zero tlv_id field format start apdu {end} {next} h =
      let p = ap (λ q. q.0) (ok-eq h) in omega arith
  values-forward (suc n) tlv_id field format start apdu {end} {next} h =
      elim (Result-cases (unpack format (slice start (start + calcsize format) payload))) [
        | inr (x, short) ↦
            let rest =
              values-forward n tlv_id field format (start + calcsize format) apdu
                (rw (values, short) at h) in
            omega arith
        | inl (value, read) ↦
            let (kept, _, more) =
              >>=-eq-ok (on_value tlv_id field value apdu) _ (rw (values, read) at h) in
            let rest = values-forward n tlv_id field format (start + calcsize format) kept more in
            omega arith
      ]

  item-forward :
      (tlv_id tlv_len start : ℕ) (apdu : S) {end : ℕ} {next : S}
      → item fields on_value payload tlv_id tlv_len start apdu ≡ ok (end, next)
      → start ≤ end
  unfolding item
  item-forward tlv_id tlv_len start apdu {end} {next} h =
      elim (Option-cases (lookup tlv_id fields)) [
        | inl unknown ↦ let p = ap (λ q. q.0) (ok-eq (rw (item, unknown) at h)) in omega arith
        | inr (field, known) ↦ elim (Option-cases field.format) [
          | inl missing ↦
              let p = ap (λ q. q.0) (ok-eq (rw (item, known, missing) at h)) in omega arith
          | inr (format, given) ↦
              values-forward (tlv_len / calcsize (codes format)) tlv_id field (codes format) start
                apdu (rw (item, known, given) at h)
        ]
      ]

  next_header-inside :
      (data_size start : ℕ) {header : ℕ × ℕ}
      → next_header fields on_value payload data_size start ≡ some header
      → start + 2 < data_size
  unfolding next_header
  next_header-inside data_size start {header} h = elim (Bool-cases (leb data_size (start + 2))) [
    | inl past ↦ absurd (let q = rw (next_header, past) at h in cc)
    | inr inside ↦ ground arith
  ]

  -- What a round makes of the header and of the item
  pub tlv_loop-ended :
      (fuel data_size start : ℕ) (apdu : S)
      → 1 ≤ fuel
      → next_header fields on_value payload data_size start ≡ none
      → tlv_loop fields on_value payload fuel data_size start apdu ≡ some (ok apdu)
  unfolding tlv_loop
  tlv_loop-ended zero data_size start apdu h e = absurd (omega arith)
  tlv_loop-ended (suc fuel) data_size start apdu h e = rw (tlv_loop, e) refl

  pub tlv_loop-raised :
      (fuel data_size start : ℕ) (header : ℕ × ℕ) (apdu : S) {x : Exception}
      → 1 ≤ fuel
      → next_header fields on_value payload data_size start ≡ some header
      → item fields on_value payload header.0 header.1 (start + 2) apdu ≡ err x
      → tlv_loop fields on_value payload fuel data_size start apdu ≡ some (err x)
  unfolding tlv_loop
  tlv_loop-raised zero data_size start header apdu h e raised = absurd (omega arith)
  tlv_loop-raised (suc fuel) data_size start header apdu h e raised = rw (tlv_loop, e, raised) refl

  pub tlv_loop-next :
      (fuel data_size start : ℕ) (header : ℕ × ℕ) (apdu : S) {next : ℕ × S}
      → 1 ≤ fuel
      → next_header fields on_value payload data_size start ≡ some header
      → item fields on_value payload header.0 header.1 (start + 2) apdu ≡ ok next
      → tlv_loop fields on_value payload fuel data_size start apdu
        ≡ tlv_loop fields on_value payload (fuel - 1) data_size next.0 next.1
  unfolding tlv_loop
  tlv_loop-next zero data_size start header apdu h e read = absurd (omega arith)
  tlv_loop-next (suc fuel) data_size start header apdu {next} h e read =
      let eq : fuel ≡ suc fuel - 1 = omega arith in
      rw (tlv_loop, e, read)
        (ap (λ n. tlv_loop fields on_value payload n data_size next.0 next.1) eq)

  -- With as much fuel as bytes are left there is a result, that more fuel does not change.
  tlv_loop-settled :
      (data_size fuel start : ℕ) (apdu : S)
      → 1 ≤ fuel
      → data_size < fuel + start
      → (result : Result S) × ((enough : ℕ)
          → fuel ≤ enough
          → tlv_loop fields on_value payload enough data_size start apdu ≡ some result)
  tlv_loop-settled data_size zero start apdu h l = absurd (omega arith)
  tlv_loop-settled data_size (suc fuel) start apdu h l =
      elim (Option-cases (next_header fields on_value payload data_size start)) [
        | inl ended ↦
            (ok apdu, λ enough m. tlv_loop-ended enough data_size start apdu (omega arith) ended)
        | inr (header, e) ↦
            elim (Result-cases (item fields on_value payload header.0 header.1 (start + 2) apdu)) [
              | inr (x, raised) ↦ (
                err x,
                λ enough m.
                    tlv_loop-raised enough data_size start header apdu (omega arith) e raised,
              )
              | inl (next, read) ↦
                  let inside = next_header-inside data_size start e in
                  let forward = item-forward header.0 header.1 (start + 2) apdu read in
                  let (result, settled) =
                    tlv_loop-settled data_size fuel next.0 next.1 (omega arith) (omega arith) in
                  (
                    result,
                    λ enough m.
                        tlv_loop-next enough data_size start header apdu (omega arith) e read
                        ∙ settled (enough - 1) (omega arith),
                  )
            ]
      ]

  -- The decoder ends on every payload, whatever its bytes and whatever the size it is told: from
  -- data_size + 1 rounds on, more rounds do not change the result.
  pub tlv_decoder-settled :
      (data_size : ℕ) (apdu : S)
      → (result : Result S) × (tlv_decoder fields on_value payload data_size apdu ≡ some result)
        × ((fuel : ℕ)
            → data_size < fuel
            → tlv_loop fields on_value payload fuel data_size 0 apdu ≡ some result)
  unfolding tlv_decoder
  tlv_decoder-settled data_size apdu =
      let (result, settled) =
        tlv_loop-settled data_size (suc data_size) 0 apdu (omega arith) (omega arith) in
      (result, settled (suc data_size) (omega arith), λ fuel h. settled fuel (omega arith))
