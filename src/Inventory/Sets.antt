-- ===== src/Inventory/Sets.antt =====
-- Python's sets of node addresses, as lists without repetitions, and the sorted list of a set.
use backend_client.Base.{
  ℕ, ◌≡◌, ◌↔◌, refl, Bool, true, false, ◌||◌, ◌&&◌, not, List, [], ◌∷◌, ◌++◌, arith, inl, inr, eqb,
  eqb_iff, leb, if◌then◌else◌, Bool-cases, ◌∙◌, ap, All,
}

-- `n in s`
abbrev pub has : ℕ → List ℕ → Bool
has n [] = false
has n (m ∷ s) = eqb n m || has n s

-- `s.add(n)`
abbrev pub set_add : ℕ → List ℕ → List ℕ
set_add n s = if has n s then s else s ++ n ∷ []

-- `s.remove(n)` of a member
abbrev pub set_remove : ℕ → List ℕ → List ℕ
set_remove n [] = []
set_remove n (m ∷ s) = if eqb n m then s else m ∷ set_remove n s

-- `s.issuperset(t)`
abbrev pub issuperset : List ℕ → List ℕ → Bool
issuperset s [] = true
issuperset s (n ∷ t) = has n s && issuperset s t

-- The members of the first set that the second one has not.
abbrev pub minus : List ℕ → List ℕ → List ℕ
minus [] t = []
minus (n ∷ s) t = if has n t then minus s t else n ∷ minus s t

-- `s ^ t`
abbrev pub symmetric_difference : List ℕ → List ℕ → List ℕ
symmetric_difference s t = minus s t ++ minus t s

-- `sorted`
abbrev pub insert_sorted : ℕ → List ℕ → List ℕ
insert_sorted n [] = n ∷ []
insert_sorted n (m ∷ s) = if leb n m then n ∷ m ∷ s else m ∷ insert_sorted n s

abbrev pub sorted : List ℕ → List ℕ
sorted [] = []
sorted (n ∷ s) = insert_sorted n (sorted s)

-- No member is listed twice.
abbrev pub IsSetOf : List ℕ → Type 0
IsSetOf [] = Unit
IsSetOf (n ∷ s) = (has n s ≡ false) × IsSetOf s

pub has-append : (n : ℕ) (s t : List ℕ) → has n (s ++ t) ≡ (has n s || has n t)
has-append n [] t = refl
has-append n (m ∷ s) t = ground (arith, has-append n s t)

pub has-set_add : (n m : ℕ) (s : List ℕ) → has n (set_add m s) ≡ (eqb n m || has n s)
has-set_add n m s = elim (Bool-cases (has m s)) [
  | inl there ↦ rw there (elim (Bool-cases (eqb n m)) [
    | inl same ↦ rw same (ap (λ k. has k s) ((eqb_iff n m).0 same) ∙ there)
    | inr other ↦ rw other refl
  ])
  | inr fresh ↦ rw fresh (ground (arith, has-append n s (m ∷ [])))
]

pub has-insert_sorted : (n m : ℕ) (s : List ℕ) → has n (insert_sorted m s) ≡ (eqb n m || has n s)
has-insert_sorted n m [] = refl
has-insert_sorted n m (k ∷ s) = ground (arith, has-insert_sorted n m s)

pub has-sorted : (n : ℕ) (s : List ℕ) → has n (sorted s) ≡ has n s
has-sorted n [] = refl
has-sorted n (m ∷ s) = has-insert_sorted n m (sorted s) ∙ ap (λ b. eqb n m || b) (has-sorted n s)

pub has-set_remove :
    (n m : ℕ) (s : List ℕ) → IsSetOf s → has n (set_remove m s) ≡ (has n s && not (eqb n m))
has-set_remove n m [] h = refl
has-set_remove n m (k ∷ s) h = ground (arith, has-set_remove n m s h.1)

append-IsSetOf : (n : ℕ) (s : List ℕ) → has n s ≡ false → IsSetOf s → IsSetOf (s ++ n ∷ [])
append-IsSetOf n [] p h = (refl, tt)
append-IsSetOf n (m ∷ s) p h =
    (has-append m s (n ∷ []) ∙ ground (arith, h.0), append-IsSetOf n s (ground arith) h.1)

pub set_add-IsSetOf : (n : ℕ) (s : List ℕ) → IsSetOf s → IsSetOf (set_add n s)
set_add-IsSetOf n s h = elim (Bool-cases (has n s)) [
  | inl there ↦ rw there h
  | inr fresh ↦ rw fresh (append-IsSetOf n s fresh h)
]

pub set_remove-IsSetOf : (n : ℕ) (s : List ℕ) → IsSetOf s → IsSetOf (set_remove n s)
set_remove-IsSetOf n [] h = tt
set_remove-IsSetOf n (k ∷ s) h = elim (Bool-cases (eqb n k)) [
  | inl same ↦ rw same h.1
  | inr other ↦
      rw other
        (has-set_remove k n s h.1 ∙ ap (λ b. b && not (eqb k n)) h.0, set_remove-IsSetOf n s h.1)
]

-- A set is a superset exactly if it has every member.
pub issuperset_iff : (s t : List ℕ) → (issuperset s t ≡ true) ↔ All (λ n. has n s ≡ true) t
issuperset_iff s [] = (λ h. tt, λ h. refl)
issuperset_iff s (n ∷ t) = ground (arith, issuperset_iff s t)
