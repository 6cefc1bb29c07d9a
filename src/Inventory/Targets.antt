-- ===== src/Inventory/Targets.antt =====
-- The counts of the targets, in the dictionary and in its part for the targets.
use backend_client.Base.{
  ℕ, ◌≡◌, refl, sym, ap, ◌∙◌, Bool, true, false, Option, none, some, List, [], ◌∷◌, map, inl, inr,
  eqb, eqb_iff, nat_eq, if◌then◌else◌, Bool-cases, All,
}
use backend_client.Base.Dict.{
  Dict, lookup, contains, insert, IsDict, lookup-insert, insert-IsDict, contains-none,
  contains-some,
}
use backend_client.Base.Exceptions.{ok}
use backend_client.Inventory.Sets.{has}
use backend_client.Inventory.{Seen, truthy}
use backend_client.Inventory.Counts.{frequencies, account_for_target_nodes}
use backend_client.Inventory.Counted.{count_of}

pub has-keys : (n : ℕ) (index : Dict ℕ Seen) → has n (map (λ p. p.0) index) ≡ contains n index
has-keys n [] = refl
has-keys n ((node, s) ∷ index) = elim (Bool-cases (eqb n node)) [
  | inl same ↦ rw (contains, same) refl
  | inr other ↦ rw (contains, other) (has-keys n index)
]

if_same : (b : Bool) {x y : Option ℕ} → y ≡ x → (if b then x else y) ≡ x
if_same true p = refl
if_same false p = p

-- The dictionary that the loop over nodes of the index makes, where the counts are reported.
pub record IsCounted (index : Dict ℕ Seen) (nodes : List ℕ) (d d' : Dict ℕ ℕ) : Type 0 where
  pub distinct : IsDict d'
  pub counts :
      (n : ℕ) → lookup n d' ≡ (if has n nodes then some (count_of (lookup n index)) else lookup n d)

pub frequencies-IsCounted :
    (target : Option ℕ) (index : Dict ℕ Seen) (nodes : List ℕ) (d : Dict ℕ ℕ)
    → truthy target ≡ false
    → All (λ n. contains n index ≡ true) nodes
    → IsDict d
    → (d' : Dict ℕ ℕ) × (frequencies target index nodes d ≡ ok d') × IsCounted index nodes d d'
unfolding frequencies
frequencies-IsCounted target index [] d t all h =
    (d, refl, record { distinct = h; counts = λ n. refl })
frequencies-IsCounted target index (node ∷ nodes) d t all h =
    let (s, found) = contains-some node index all.0 in
    let (d', p, c) =
      frequencies-IsCounted target index nodes (insert node s.count d) t all.1
        (insert-IsDict node s.count d h) in
    (
      d',
      rw (found, t) p,
      record {
        distinct = c.distinct;
        counts = λ n. elim (Bool-cases (eqb n node)) [
          | inl same ↦
              let q = ap (λ k. lookup k index) ((eqb_iff n node).0 same) ∙ found in
              let written : lookup n (insert node s.count d) ≡ some s.count =
                lookup-insert n node s.count d ∙ rw same refl in
              rw same
                (c.counts n ∙ if_same (has n nodes) (written ∙ ap (λ o. some (count_of o)) (sym q)))
          | inr other ↦ rw other (
              c.counts n
              ∙ ap (λ o. if has n nodes then some (count_of (lookup n index)) else o)
                  (lookup-insert n node s.count d ∙ rw other refl))
        ];
      },
    )

-- A target that is not there counts as 0.
abbrev pub or_zero : Option ℕ → Bool → Option ℕ
or_zero (some v) b = some v
or_zero none true = some 0
or_zero none false = none

or_zero-false : (o : Option ℕ) → o ≡ or_zero o false
or_zero-false none = refl
or_zero-false (some v) = refl

pub account-lookup :
    (targets : List ℕ) (d : Dict ℕ ℕ) (n : ℕ)
    → lookup n (account_for_target_nodes targets d) ≡ or_zero (lookup n d) (has n targets)
unfolding account_for_target_nodes
account-lookup [] d n = or_zero-false (lookup n d)
account-lookup (t ∷ targets) d n = elim (Bool-cases (contains t d)) [
  | inl there ↦ rw there (
      account-lookup targets d n ∙ elim (Bool-cases (eqb n t)) [
        | inl same ↦
            let (v, found) = contains-some t d there in
            let q = ap (λ k. lookup k d) ((eqb_iff n t).0 same) ∙ found in rw (same, q) refl
        | inr other ↦ rw other refl
      ])
  | inr missing ↦ rw missing (
      account-lookup targets (insert t 0 d) n
      ∙ ap (λ o. or_zero o (has n targets)) (lookup-insert n t 0 d)
      ∙ elim (Bool-cases (eqb n t)) [
        | inl same ↦
            let q = ap (λ k. lookup k d) ((eqb_iff n t).0 same) ∙ contains-none t d missing in
            rw (same, q) refl
        | inr other ↦ rw other refl
      ])
]

pub account-IsDict :
    (targets : List ℕ) (d : Dict ℕ ℕ) → IsDict d → IsDict (account_for_target_nodes targets d)
unfolding account_for_target_nodes
account-IsDict [] d h = h
account-IsDict (t ∷ targets) d h = elim (Bool-cases (contains t d)) [
  | inl there ↦ rw there (account-IsDict targets d h)
  | inr missing ↦ rw missing (account-IsDict targets (insert t 0 d) (insert-IsDict t 0 d h))
]
