-- ===== src/Advertiser/Blocks.antt =====
-- The chunks of bytes that are written block by block.
use mathlib.Core.List.{append_assoc}
use backend_client.Base.{
  ℕ, zero, suc, ◌<◌, ◌≤◌, ◌≡◌, refl, ap, ◌∙◌, List, [], ◌∷◌, ◌++◌, arith, Bytes, length, take, drop,
  length-append, take-append_left, drop-append_left, joined,
}
use backend_client.Advertiser.{chunks}

-- The chunks of a sequence of blocks of the size and a shorter rest are the blocks, and the rest if it
-- is not empty.
abbrev pub rest_chunks : Bytes → List Bytes
rest_chunks [] = []
rest_chunks (x ∷ rest) = (x ∷ rest) ∷ []

take-short : (n : ℕ) (b : Bytes) → length b ≤ n → take n b ≡ b
take-short zero [] h = refl
take-short zero (x ∷ b) h = absurd (omega arith)
take-short (suc n) [] h = refl
take-short (suc n) (x ∷ b) h = ap (λ r. x ∷ r) (take-short n b (omega arith))

drop-short : (n : ℕ) (b : Bytes) → length b ≤ n → drop n b ≡ []
drop-short zero [] h = refl
drop-short zero (x ∷ b) h = absurd (omega arith)
drop-short (suc n) [] h = refl
drop-short (suc n) (x ∷ b) h = drop-short n b (omega arith)

no_chunks : (fuel size : ℕ) → chunks fuel size [] ≡ []
no_chunks zero size = refl
no_chunks (suc fuel) size = refl

-- Blocks of the same length
abbrev pub IsBlocks : ℕ → List Bytes → Type 0
IsBlocks size [] = Unit
IsBlocks size (b ∷ more) = (length b ≡ size) × IsBlocks size more

-- A block that is not empty is the first chunk.
first_chunk :
    (fuel size : ℕ) (b rest : Bytes)
    → length b ≡ size
    → 1 ≤ size
    → chunks (suc fuel) size (b ++ rest) ≡ b ∷ chunks fuel size rest
first_chunk fuel size [] rest p h = absurd (omega arith)
first_chunk fuel size (x ∷ b) rest p h =
    let t : take size (x ∷ b ++ rest) ≡ x ∷ b = take-append_left size (x ∷ b) rest p in
    let d : drop size (x ∷ b ++ rest) ≡ rest = drop-append_left size (x ∷ b) rest p in
    rw (t, d) refl

last_chunk :
    (fuel size : ℕ) (rest : Bytes)
    → length rest ≤ fuel
    → length rest < size
    → chunks fuel size rest ≡ rest_chunks rest
last_chunk zero size [] p h = refl
last_chunk zero size (x ∷ rest) p h = absurd (omega arith)
last_chunk (suc fuel) size [] p h = refl
last_chunk (suc fuel) size (x ∷ rest) p h =
    let t = take-short size (x ∷ rest) (omega arith) in
    let d = drop-short size (x ∷ rest) (omega arith) in
    rw (t, d) (ap (λ z. (x ∷ rest) ∷ z) (no_chunks fuel size))

pub chunks-blocks :
    (fuel size : ℕ) (blocks : List Bytes) (rest : Bytes)
    → length (joined blocks ++ rest) ≤ fuel
    → IsBlocks size blocks
    → length rest < size
    → chunks fuel size (joined blocks ++ rest) ≡ blocks ++ rest_chunks rest
chunks-blocks fuel size [] rest p q h = last_chunk fuel size rest p h
chunks-blocks zero size (b ∷ blocks) rest p q h = absurd (
    omega (
      arith,
      length-append (b ++ joined blocks) rest,
      length-append b (joined blocks),
      length-append (joined blocks) rest,
      q.0,
    ))
chunks-blocks (suc fuel) size (b ∷ blocks) rest p q h =
    ap (chunks (suc fuel) size) (append_assoc b (joined blocks) rest)
    ∙ first_chunk fuel size b (joined blocks ++ rest) q.0 (omega (arith, h))
    ∙ ap (λ z. b ∷ z)
        (chunks-blocks fuel size blocks rest
          (omega (
            arith,
            length-append (b ++ joined blocks) rest,
            length-append b (joined blocks),
            length-append (joined blocks) rest,
            q.0,
          ))
          q.1 h)
