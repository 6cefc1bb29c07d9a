-- ===== src/Base/Dict.antt =====
-- A Python dict as an association list in insertion order, over keys with an equality test.
use mathlib.Core.Path.{subst, ap₂}
use backend_client.Base.{
  All, some-eq, sym, ◌≡◌, refl, ap, ◌∙◌, Bool, true, false, Option, none, some, List, [], ◌∷◌,
  if◌then◌else◌, Eq, ◌==◌, ==_refl, ==_sym, Bool-cases, Option-cases, inl, inr, ◌⊎◌,
}

abbrev pub Dict {ℓ κ} : Type ℓ → Type κ → Type (ℓ ⊔ κ)
Dict K V = List (K × V)

module _ {ℓ κ} {K : Type ℓ} {V : Type κ} ⦃e : Eq K⦄ where
  abbrev pub lookup : K → Dict K V → Option V
  lookup k [] = none
  lookup k ((j, v) ∷ d) = if k == j then some v else lookup k d

  -- `k in d`
  abbrev pub contains : K → Dict K V → Bool
  contains k d = elim (lookup k d) [ none ↦ false | some _ ↦ true ]

  -- `d[k] = v`
  abbrev pub insert : K → V → Dict K V → Dict K V
  insert k v [] = (k, v) ∷ []
  insert k v (p ∷ d) = if k == p.0 then (k, v) ∷ d else p ∷ insert k v d

  -- `del d[k]` of a key that is there
  abbrev pub erase : K → Dict K V → Dict K V
  erase k [] = []
  erase k (p ∷ d) = if k == p.0 then d else p ∷ erase k d

  -- No key is listed twice.
  abbrev pub IsDict : Dict K V → Type κ
  IsDict [] = Unit
  IsDict ((k, v) ∷ d) = (lookup k d ≡ none) × IsDict d

module _ {ℓ κ} {K : Type ℓ} {V : Type κ} ⦃e : Eq K⦄ where
  pub lookup-insert_self : (k : K) (v : V) (d : Dict K V) → lookup k (insert k v d) ≡ some v
  lookup-insert_self k v [] = rw (==_refl k)
  lookup-insert_self k v ((j, w) ∷ d) = elim (Bool-cases (k == j)) [
    | inl same ↦ rw (same, ==_refl k)
    | inr other ↦ rw (other, other) (lookup-insert_self k v d)
  ]

  pub lookup-insert_ne :
      (j k : K) (v : V) (d : Dict K V) → (j == k) ≡ false → lookup j (insert k v d) ≡ lookup j d
  lookup-insert_ne j k v [] h = rw h
  lookup-insert_ne j k v ((i, w) ∷ d) h = elim (Bool-cases (k == i)) [
    | inl same ↦ rw (same, ← (e.beq_iff k i).0 same, h)
    | inr other ↦ rw other (ap (λ r. if j == i then some w else r) (lookup-insert_ne j k v d h))
  ]

  -- A key finds what was written under it, or what it found before.
  pub lookup-insert-cases :
      (j k : K) (v : V) (d : Dict K V)
      → ((j ≡ k) × (lookup j (insert k v d) ≡ some v))
        ⊎ (((j == k) ≡ false) × (lookup j (insert k v d) ≡ lookup j d))
  lookup-insert-cases j k v d = elim (Bool-cases (j == k)) [
    | inl same ↦
        let p = (e.beq_iff j k).0 same in
        inl (p, ap (λ i. lookup i (insert k v d)) p ∙ lookup-insert_self k v d)
    | inr other ↦ inr (other, lookup-insert_ne j k v d other)
  ]

  -- What every key finds after a write.
  pub lookup-insert :
      (j k : K) (v : V) (d : Dict K V)
      → lookup j (insert k v d) ≡ (if j == k then some v else lookup j d)
  lookup-insert j k v d = elim (lookup-insert-cases j k v d) [
    | inl (p, l) ↦ rw ((e.beq_iff j k).1 p) l
    | inr (p, l) ↦ rw p l
  ]

  -- A write of what is there already would change nothing.
  pub lookup-found :
      (j k : K) (v : V) (d : Dict K V)
      → lookup k d ≡ some v
      → lookup j d ≡ (if j == k then some v else lookup j d)
  lookup-found j k v d found = elim (Bool-cases (j == k)) [
    | inl same ↦ rw same (ap (λ i. lookup i d) ((e.beq_iff j k).0 same) ∙ found)
    | inr other ↦ rw other refl
  ]

  pub lookup-erase_ne :
      (j k : K) (d : Dict K V) → (j == k) ≡ false → lookup j (erase k d) ≡ lookup j d
  lookup-erase_ne j k [] h = refl
  lookup-erase_ne j k ((i, w) ∷ d) h = elim (Bool-cases (k == i)) [
    | inl same ↦ rw (same, ← (e.beq_iff k i).0 same, h)
    | inr other ↦ rw other (ap (λ r. if j == i then some w else r) (lookup-erase_ne j k d h))
  ]

  pub lookup-erase_self : (k : K) (d : Dict K V) → IsDict d → lookup k (erase k d) ≡ none
  lookup-erase_self k [] h = refl
  lookup-erase_self k ((i, w) ∷ d) h = elim (Bool-cases (k == i)) [
    | inl same ↦ rw (same, (e.beq_iff k i).0 same) h.0
    | inr other ↦ rw (other, other) (lookup-erase_self k d h.1)
  ]

  -- What is found after a deletion was there before.
  pub lookup-erase-some :
      (j k : K) (d : Dict K V) {v : V}
      → IsDict d
      → lookup j (erase k d) ≡ some v
      → (lookup j d ≡ some v) × ((j == k) ≡ false)
  lookup-erase-some j k d {v} h p = elim (Bool-cases (j == k)) [
    | inl same ↦
        let q = (e.beq_iff j k).0 same in
        let gone = ap (λ i. lookup i (erase k d)) q ∙ lookup-erase_self k d h in
        absurd (cc (p, gone))
    | inr other ↦ (sym (lookup-erase_ne j k d other) ∙ p, other)
  ]

  pub insert-IsDict : (k : K) (v : V) (d : Dict K V) → IsDict d → IsDict (insert k v d)
  insert-IsDict k v [] h = (refl, tt)
  insert-IsDict k v ((i, w) ∷ d) h = elim (Bool-cases (k == i)) [
    | inl same ↦ rw same (rw ((e.beq_iff k i).0 same) h.0, h.1)
    | inr other ↦
        rw other (lookup-insert_ne i k v d (==_sym k i other) ∙ h.0, insert-IsDict k v d h.1)
  ]

  pub erase-IsDict : (k : K) (d : Dict K V) → IsDict d → IsDict (erase k d)
  erase-IsDict k [] h = tt
  erase-IsDict k ((i, w) ∷ d) h = elim (Bool-cases (k == i)) [
    | inl same ↦ rw same h.1
    | inr other ↦ rw other (lookup-erase_ne i k d (==_sym k i other) ∙ h.0, erase-IsDict k d h.1)
  ]

  -- What holds of every entry still holds after a write of one that has it, and of what is found.
  pub All-insert {μ} :
      (P : K × V → Type μ) (k : K) (v : V) (d : Dict K V)
      → P (k, v)
      → All P d
      → All P (insert k v d)
  All-insert P k v [] pv h = (pv, tt)
  All-insert P k v ((i, w) ∷ d) pv h = elim (Bool-cases (k == i)) [
    | inl same ↦ rw same (pv, h.1)
    | inr other ↦ rw other (h.0, All-insert P k v d pv h.1)
  ]

  pub contains-none : (k : K) (d : Dict K V) → contains k d ≡ false → lookup k d ≡ none
  contains-none k d h = elim (Option-cases (lookup k d)) [
    | inl missing ↦ missing
    | inr (v, found) ↦ absurd (let z = ap (λ o. is_some o) found in cc)
  ]
    where
      is_some : Option V → Bool
      is_some o = elim o [ none ↦ false | some _ ↦ true ]

  pub contains-some : (k : K) (d : Dict K V) → contains k d ≡ true → (v : V) × (lookup k d ≡ some v)
  contains-some k d h = elim (Option-cases (lookup k d)) [
    | inl missing ↦ absurd (let z = ap (λ o. is_some o) missing in cc)
    | inr found ↦ found
  ]
    where
      is_some : Option V → Bool
      is_some o = elim o [ none ↦ false | some _ ↦ true ]

  -- What holds of whatever a key finds, holds of every entry.
  pub All-entries {μ} :
      (P : K × V → Type μ) (d : Dict K V)
      → IsDict d
      → ((k : K) (v : V) → lookup k d ≡ some v → P (k, v))
      → All P d
  All-entries P [] h found = tt
  All-entries P ((i, w) ∷ d) h found = (
    found i w (rw (==_refl i) refl),
    All-entries P d h.1 (λ k v p. elim (Bool-cases (k == i)) [
      | inl same ↦
          absurd (let q = ap (λ j. lookup j d) ((e.beq_iff k i).0 same) in let z = h.0 in cc)
      | inr other ↦ found k v (rw other p)
    ]),
  )

  pub All-erase {μ} : (P : K × V → Type μ) (k : K) (d : Dict K V) → All P d → All P (erase k d)
  All-erase P k [] h = tt
  All-erase P k ((i, w) ∷ d) h = elim (Bool-cases (k == i)) [
    | inl same ↦ rw same h.1
    | inr other ↦ rw other (h.0, All-erase P k d h.1)
  ]

  pub All-lookup {μ} :
      (P : K × V → Type μ) (k : K) (d : Dict K V) {v : V} → All P d → lookup k d ≡ some v → P (k, v)
  All-lookup P k [] h q = absurd (cc)
  All-lookup P k ((i, w) ∷ d) {v} h q = elim (Bool-cases (k == i)) [
    | inl same ↦
        subst P
          (ap₂ (λ a b. (a, b)) (sym ((e.beq_iff k i).0 same))
            (some-eq {a = w} {b = v} (rw same at q)))
          h.0
    | inr other ↦ All-lookup P k d h.1 (rw other at q)
  ]
