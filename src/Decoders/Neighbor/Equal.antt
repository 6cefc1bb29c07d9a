-- ===== src/Decoders/Neighbor/Equal.antt =====
-- The loop of the neighbour decoder finds what the shape of the payload gives.
use mathlib.Core.List.{append_assoc, append-nil}
use backend_client.Base.{
  ℕ, zero, suc, ◌+◌, ◌<◌, ◌≤◌, ◌≡◌, refl, sym, ap, ◌∙◌, arith, some, List, [], ◌∷◌, ◌++◌, Bytes,
  length, drop, drop-drop,
}
use backend_client.Base.Exceptions.{Result, ok, err, index_error}
use backend_client.Base.Little.{unsigned_little}
use backend_client.Decoders.Struct.{unpack_unsigned, raw_fields}
use backend_client.Decoders.Neighbor.{Neighbor, address_at, neighbor_at, decode_loop, decode}
use backend_client.Decoders.Neighbor.Parsed.{
  address_of, put_first, parsed, after, neighbor_at-drop, round, decode_loop-round, decode_loop-end,
}

found_so_far : (found : List Neighbor) → some (ok found) ≡ some (after found (ok []))
found_so_far found = ap (λ l. some (ok l)) (sym (append-nil found))

address_at-three :
    (a b c : ℕ) (rest : Bytes) → address_at (a ∷ b ∷ c ∷ rest) 0 ≡ some (address_of a b c)
unfolding unpack_unsigned raw_fields unsigned_little
address_at-three a b c rest = ap some (omega arith)

-- Fields that are missing
neighbor_at-short :
    (a b c address : ℕ) (short : Bytes)
    → length short ≤ 3
    → neighbor_at (a ∷ b ∷ c ∷ short) 0 address ≡ err index_error
neighbor_at-short a b c address [] h = refl
neighbor_at-short a b c address (x ∷ []) h = refl
neighbor_at-short a b c address (x ∷ y ∷ []) h = refl
neighbor_at-short a b c address (x ∷ y ∷ z ∷ []) h = refl
neighbor_at-short a b c address (x ∷ y ∷ z ∷ w ∷ short) h = absurd (omega arith)

round-short :
    (fuel j : ℕ) (payload : Bytes) (found : List Neighbor) (n : ℕ)
    → ((address : ℕ) → neighbor_at payload j address ≡ err index_error)
    → round fuel payload j found (some n)
      ≡ some (after found (elim n [ zero ↦ ok [] | suc _ ↦ err index_error ]))
round-short fuel j payload found zero missing = found_so_far found
round-short fuel j payload found (suc n) missing = rw (round, missing (suc n)) refl

parsed-short :
    (a b c : ℕ) (short : Bytes)
    → length short ≤ 3
    → parsed (a ∷ b ∷ c ∷ short)
      ≡ elim (address_of a b c) [ zero ↦ ok [] | suc _ ↦ err index_error ]
parsed-short a b c [] h = refl
parsed-short a b c (x ∷ []) h = refl
parsed-short a b c (x ∷ y ∷ []) h = refl
parsed-short a b c (x ∷ y ∷ z ∷ []) h = refl
parsed-short a b c (x ∷ y ∷ z ∷ w ∷ short) h = absurd (omega arith)

decode_loop-short :
    (fuel j a b c : ℕ) (payload short : Bytes) (found : List Neighbor)
    → drop j payload ≡ a ∷ b ∷ c ∷ short
    → length short ≤ 3
    → decode_loop (suc fuel) payload j found ≡ some (after found (parsed (a ∷ b ∷ c ∷ short)))
decode_loop-short fuel j a b c payload short found at h =
    decode_loop-round fuel j payload (a ∷ b ∷ c ∷ short) found at (omega arith)
    ∙ ap (round fuel payload j found) (address_at-three a b c short)
    ∙ round-short fuel j payload found (address_of a b c) (λ n.
      neighbor_at-drop payload (a ∷ b ∷ c ∷ short) j at n ∙ neighbor_at-short a b c n short h)
    ∙ ap (λ r. some (after found r)) (sym (parsed-short a b c short h))

after-append :
    (found : List Neighbor) (n : Neighbor) (more : Result (List Neighbor))
    → after (found ++ n ∷ []) more ≡ after found (put_first n more)
after-append found n (ok more) = ap ok (append_assoc found (n ∷ []) more)
after-append found n (err x) = refl

round-full :
    (fuel j n : ℕ) (payload : Bytes) (found : List Neighbor) (entry : ℕ → Neighbor)
    (more : Result (List Neighbor))
    → ((address : ℕ) → neighbor_at payload j address ≡ ok (entry address))
    → ((k : Neighbor)
        → decode_loop fuel payload (j + 7) (found ++ k ∷ []) ≡ some (after (found ++ k ∷ []) more))
    → round fuel payload j found (some n)
      ≡ some (after found (elim n [ zero ↦ ok [] | suc k ↦ put_first (entry (suc k)) more ]))
round-full fuel j zero payload found entry more there rest = found_so_far found
round-full fuel j (suc n) payload found entry more there rest =
    rw (round, there (suc n))
      (rest (entry (suc n)) ∙ ap some (after-append found (entry (suc n)) more))

-- From the place on where the payload goes on as q
decode_loop-parsed :
    (fuel j : ℕ) (payload q : Bytes) (found : List Neighbor)
    → drop j payload ≡ q
    → length q < fuel
    → decode_loop fuel payload j found ≡ some (after found (parsed q))
unfolding unpack_unsigned
decode_loop-parsed zero j payload q found at enough = absurd (omega arith)
decode_loop-parsed (suc fuel) j payload [] found at enough =
    decode_loop-end fuel j payload found at ∙ found_so_far found
decode_loop-parsed (suc fuel) j payload (a ∷ []) found at enough =
    decode_loop-round fuel j payload (a ∷ []) found at (omega arith) ∙ found_so_far found
decode_loop-parsed (suc fuel) j payload (a ∷ b ∷ []) found at enough =
    decode_loop-round fuel j payload (a ∷ b ∷ []) found at (omega arith) ∙ found_so_far found
decode_loop-parsed (suc fuel) j payload (a ∷ b ∷ c ∷ []) found at enough =
    decode_loop-short fuel j a b c payload [] found at (omega arith)
decode_loop-parsed (suc fuel) j payload (a ∷ b ∷ c ∷ x ∷ []) found at enough =
    decode_loop-short fuel j a b c payload (x ∷ []) found at (omega arith)
decode_loop-parsed (suc fuel) j payload (a ∷ b ∷ c ∷ x ∷ y ∷ []) found at enough =
    decode_loop-short fuel j a b c payload (x ∷ y ∷ []) found at (omega arith)
decode_loop-parsed (suc fuel) j payload (a ∷ b ∷ c ∷ x ∷ y ∷ z ∷ []) found at enough =
    decode_loop-short fuel j a b c payload (x ∷ y ∷ z ∷ []) found at (omega arith)
decode_loop-parsed (suc fuel) j payload (a ∷ b ∷ c ∷ x ∷ y ∷ z ∷ w ∷ rest) found at enough =
    let q = a ∷ b ∷ c ∷ x ∷ y ∷ z ∷ w ∷ rest in
    let behind : drop (j + 7) payload ≡ rest = sym (drop-drop j 7 payload) ∙ ap (drop 7) at in
    decode_loop-round fuel j payload q found at (omega arith)
    ∙ ap (round fuel payload j found) (address_at-three a b c (x ∷ y ∷ z ∷ w ∷ rest))
    ∙ round-full fuel j (address_of a b c) payload found
        (λ n. record { address = n; cluster_channel = x; radio_power = y; node_info = z; rssi = w })
        (parsed rest) (λ n. neighbor_at-drop payload q j at n)
        (λ k. decode_loop-parsed fuel (j + 7) payload rest (found ++ k ∷ []) behind (omega arith))

-- On every payload the decoder ends, and finds the neighbours that the payload's shape gives: it passes
-- over what follows an address of 0 and over a rest of fewer than three bytes, and raises IndexError
-- where another address comes without its four fields.
pub decode-parsed : (data_payload : Bytes) → decode data_payload ≡ some (parsed data_payload)
unfolding decode
decode-parsed data_payload =
    decode_loop-parsed (suc (length data_payload)) 0 data_payload data_payload [] refl (omega arith)
    ∙ ap some (nothing_before (parsed data_payload))
  where
    nothing_before : (r : Result (List Neighbor)) → after [] r ≡ r
    nothing_before (ok more) = refl
    nothing_before (err x) = refl
