-- ===== src/Decoders/Neighbor/Parsed.antt =====
-- The neighbours read off a payload by its shape, and that `decode` finds the same.
use backend_client.Base.{
  ℕ, zero, suc, ◌+◌, ◌*◌, ◌≤◌, ◌≡◌, refl, ap, ◌∙◌, arith, true, false, Option, none, some, List, [],
  ◌∷◌, ◌++◌, Bytes, length, get_elem?, take, drop, length-drop, ◌-◌, ltb, lt→ltb,
}
use backend_client.Base.Exceptions.{Result, ok, err, index, or_raise, index_error}
use backend_client.Decoders.Struct.{uint32, unpack_unsigned}
use backend_client.Decoders.Neighbor.{Neighbor, first_of, address_at, neighbor_at, decode_loop}

abbrev pub address_of : ℕ → ℕ → ℕ → ℕ
address_of a b c = a + 256 * b + 65536 * c

abbrev pub put_first : Neighbor → Result (List Neighbor) → Result (List Neighbor)
put_first n (ok more) = ok (n ∷ more)
put_first n (err x) = err x

-- Seven bytes are a neighbour, up to an address of 0; fewer than three are passed over, and an address
-- without its fields raises IndexError.
abbrev pub parsed : Bytes → Result (List Neighbor)
parsed (a ∷ b ∷ c ∷ channel ∷ power ∷ info ∷ rssi ∷ rest) =
    let more = parsed rest in
    elim (address_of a b c) [
      | zero ↦ ok []
      | suc n ↦
          put_first
            (record {
              address = suc n;
              cluster_channel = channel;
              radio_power = power;
              node_info = info;
              rssi = rssi;
            })
            more
    ]
parsed (a ∷ b ∷ c ∷ short) = elim (address_of a b c) [ zero ↦ ok [] | suc n ↦ err index_error ]
parsed _ = ok []

-- What is found so far, and then the rest
abbrev pub after : List Neighbor → Result (List Neighbor) → Result (List Neighbor)
after found (ok more) = ok (found ++ more)
after found (err x) = err x

get_elem?-drop : (j k : ℕ) (b : Bytes) → get_elem? b (j + k) ≡ get_elem? (drop j b) k
get_elem?-drop zero k b = ap (get_elem? b) (omega arith)
get_elem?-drop (suc j) k [] = refl
get_elem?-drop (suc j) k (x ∷ b) =
    let eq : suc j + k ≡ suc (j + k) = omega arith in
    ap (get_elem? (x ∷ b)) eq ∙ get_elem?-drop j k b

-- What is read of the payload at a place is read of what follows it.
module _ (payload q : Bytes) (j : ℕ) (at : drop j payload ≡ q) where
  index-drop : (k : ℕ) → index payload (j + k) ≡ index q k
  index-drop k =
      ap (λ o. or_raise o index_error) (get_elem?-drop j k payload ∙ ap (λ d. get_elem? d k) at)

  pub neighbor_at-drop : (address : ℕ) → neighbor_at payload j address ≡ neighbor_at q 0 address
  neighbor_at-drop address = rw (index-drop 3, index-drop 4, index-drop 5, index-drop 6) refl

  address_at-drop : address_at payload j ≡ address_at q 0
  address_at-drop =
      let eq : (j + 3) - j ≡ 3 = omega arith in
      ap (λ b. first_of (unpack_unsigned (uint32 ∷ []) (b ++ 0 ∷ [])))
        (ap (λ n. take n (drop j payload)) eq ∙ ap (take 3) at)

  inside : 1 ≤ length q → ltb j (length payload) ≡ true
  inside h = lt→ltb j (length payload) (omega (arith, length-drop j payload, ap length at))

-- A round: the end of the payload, a failed or zero address, a missing field, a neighbour
abbrev pub round : ℕ → Bytes → ℕ → List Neighbor → Option ℕ → Option (Result (List Neighbor))
round fuel payload j found none = some (ok found)
round fuel payload j found (some zero) = some (ok found)
round fuel payload j found (some (suc a)) = elim (neighbor_at payload j (suc a)) [
  | err raised ↦ some (err raised)
  | ok n ↦ decode_loop fuel payload (j + 7) (found ++ n ∷ [])
]

pub decode_loop-round :
    (fuel j : ℕ) (payload q : Bytes) (found : List Neighbor)
    → drop j payload ≡ q
    → 1 ≤ length q
    → decode_loop (suc fuel) payload j found ≡ round fuel payload j found (address_at q 0)
unfolding decode_loop
decode_loop-round fuel j payload q found at h =
    rw (decode_loop, inside payload q j at h)
      (ap (round fuel payload j found) (address_at-drop payload q j at))

pub decode_loop-end :
    (fuel j : ℕ) (payload : Bytes) (found : List Neighbor)
    → drop j payload ≡ []
    → decode_loop (suc fuel) payload j found ≡ some (ok found)
unfolding decode_loop
decode_loop-end fuel j payload found at =
    let l = length-drop j payload in
    let past : ltb j (length payload) ≡ false = at_end (ap length at) l in
    rw (decode_loop, past) refl
  where
    at_end :
        length (drop j payload) ≡ 0
        → length (drop j payload) ≡ length payload - j
        → ltb j (length payload) ≡ false
    at_end h l = ground arith
