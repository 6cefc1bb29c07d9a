-- ===== src/Inventory/Frequency.antt =====
-- The frequencies of the nodes, and when they reach the target frequency.
use mathlib.Core.Path.{subst}
use backend_client.Base.{
  ℕ, ◌≡◌, ◌↔◌, refl, sym, ap, ◌∙◌, Bool, true, false, ◌||◌, Option, some, List, [], ◌∷◌, map, arith,
  inl, inr, eqb, eqb_iff, nat_eq, if◌then◌else◌, Bool-cases, All, &&_true, some-eq,
}
use backend_client.Base.Dict.{Dict, lookup, contains, IsDict, All-entries, contains-none}
use backend_client.Base.Exceptions.{ok}
use backend_client.Inventory.Sets.{has, sorted, has-sorted}
use backend_client.Inventory.{Inventory, truthy, is_empty}
use backend_client.Inventory.Counts.{
  account_for_target_nodes, frequency, filter_dict, reaches, all_reach, is_frequency_reached,
}
use backend_client.Inventory.Kept.{IsInventory}
use backend_client.Inventory.Counted.{seen_count}
use backend_client.Inventory.Targets.{
  has-keys, frequencies-IsCounted, or_zero, account-lookup, account-IsDict,
}

-- All entries of targets reach the target frequency, each of them.
all_reach-lookup :
    (f : Option ℕ) (targets : List ℕ) (d : Dict ℕ ℕ) (n v : ℕ)
    → all_reach f (filter_dict targets d) ≡ true
    → has n targets ≡ true
    → lookup n d ≡ some v
    → reaches f v ≡ true
unfolding filter_dict
all_reach-lookup f targets [] n v h t p = absurd (cc p)
all_reach-lookup f targets ((m, w) ∷ d) n v h t p = elim (Bool-cases (eqb n m)) [
  | inl same ↦
      let q = (eqb_iff n m).0 same in
      let there : has m targets ≡ true = ap (λ k. has k targets) (sym q) ∙ t in
      let w_v : w ≡ v = some-eq (rw same at p) in
      let both = rw there at h in
      ap (λ x. reaches f x) (sym w_v)
      ∙ (&&_true (reaches f w) (all_reach f (filter_dict targets d)) both).0
  | inr other ↦ all_reach-lookup f targets d n v (tail h) t (rw other at p)
]
  where
    tail :
        all_reach f
            (if has m targets then (m, w) ∷ filter_dict targets d else filter_dict targets d)
          ≡ true
        → all_reach f (filter_dict targets d) ≡ true
    tail all = elim (Bool-cases (has m targets)) [
      | inl there ↦
          let both = rw there at all in
          (&&_true (reaches f w) (all_reach f (filter_dict targets d)) both).1
      | inr not_there ↦ rw not_there at all
    ]

all_reach-All :
    (f : Option ℕ) (targets : List ℕ) (d : Dict ℕ ℕ)
    → All (λ p. has p.0 targets ≡ true → reaches f p.1 ≡ true) d
    → all_reach f (filter_dict targets d) ≡ true
unfolding filter_dict
all_reach-All f targets [] h = refl
all_reach-All f targets ((m, w) ∷ d) h = elim (Bool-cases (has m targets)) [
  | inl there ↦ rw (there, h.0 there) (all_reach-All f targets d h.1)
  | inr not_there ↦ rw not_there (all_reach-All f targets d h.1)
]

module _ (P : ℕ → Type 0) where
  pub All-members : (ts : List ℕ) → ((n : ℕ) → has n ts ≡ true → P n) → All P ts
  All-members [] h = tt
  All-members (t ∷ ts) h = (
    h t (rw ((eqb_iff t t).1 refl) refl),
    All-members ts (λ n q. h n (ap (λ b. eqb n t || b) q ∙ ground arith)),
  )

  pub member-All : (n : ℕ) (ts : List ℕ) → All P ts → has n ts ≡ true → P n
  member-All n [] all h = absurd (cc h)
  member-All n (t ∷ ts) all h = elim (Bool-cases (eqb n t)) [
    | inl same ↦ subst P (sym ((eqb_iff n t).0 same)) all.0
    | inr other ↦ member-All n ts all.1 (rw other at h)
  ]

-- The frequencies of an inventory that counts: every target is there, with how often it was seen.
pub frequency-lookup :
    (inv : Inventory)
    → IsInventory inv
    → truthy inv.target_otap_sequence ≡ false
    → (d : Dict ℕ ℕ) × (frequency inv ≡ ok d)
      × (IsDict d)
      × ((n : ℕ) → has n inv.target_nodes ≡ true → lookup n d ≡ some (seen_count n inv))
unfolding frequency
frequency-lookup inv i t =
    let keys : List ℕ = map (λ p. p.0) inv.index in
    let in_keys : (n : ℕ) → has n (sorted keys) ≡ contains n inv.index =
      λ n. has-sorted n keys ∙ has-keys n inv.index in
    let (d, p, c) =
      frequencies-IsCounted inv.target_otap_sequence inv.index (sorted keys) [] t
        (All-members (λ n. contains n inv.index ≡ true) (sorted keys) (λ n h. sym (in_keys n) ∙ h))
        tt in
    (
      account_for_target_nodes inv.target_nodes d,
      rw p refl,
      account-IsDict inv.target_nodes d c.distinct,
      λ n h.
          account-lookup inv.target_nodes d n
          ∙ ap (λ b. or_zero (lookup n d) b) h
          ∙ ap (λ o. or_zero o true) (c.counts n)
          ∙ elim (Bool-cases (contains n inv.index)) [
            | inl there ↦ rw (in_keys n, there) refl
            | inr missing ↦ rw (in_keys n, missing, contains-none n inv.index missing) refl
          ],
    )

-- Where the inventory tracks no otap sequence and has target nodes, `is_frequency_reached` returns,
-- and returns True exactly if every target node was counted at least as often as the target frequency;
-- a node that was never seen counts as 0, and no node reaches an infinite frequency. The inventory is
-- well-formed.
pub is_frequency_reached_iff :
    (inv : Inventory)
    → IsInventory inv
    → truthy inv.target_otap_sequence ≡ false
    → is_empty inv.target_nodes ≡ false
    → (b : Bool) × (is_frequency_reached inv ≡ ok b)
      × (b ≡ true
          ↔ All (λ n. reaches inv.target_frequency (seen_count n inv) ≡ true) inv.target_nodes)
unfolding is_frequency_reached
is_frequency_reached_iff inv i t targets =
    let (d, p, h, found) = frequency-lookup inv i t in
    let f = inv.target_frequency in
    let ts = inv.target_nodes in
    (
      all_reach f (filter_dict ts d),
      reached targets p,
      (
        λ all.
            All-members (λ n. reaches f (seen_count n inv) ≡ true) ts
              (λ n q. all_reach-lookup f ts d n (seen_count n inv) all q (found n q)),
        λ all. all_reach-All f ts d (
            All-entries (λ p. has p.0 ts ≡ true → reaches f p.1 ≡ true) d h
              (λ k v l q.
                let same : v ≡ seen_count k inv = some-eq (sym l ∙ found k q) in
                ap (λ x. reaches f x) same
                ∙ member-All (λ n. reaches f (seen_count n inv) ≡ true) k ts all q)),
      ),
    )
  where
    reached :
        {d : Dict ℕ ℕ}
        → is_empty inv.target_nodes ≡ false
        → frequency inv ≡ ok d
        → is_frequency_reached inv
          ≡ ok (all_reach inv.target_frequency (filter_dict inv.target_nodes d))
    reached targets p = rw (targets, p) refl
