-- ===== src/Inventory/Missing.antt =====
-- When the frequencies of an inventory that tracks an otap sequence cannot be told.
use backend_client.Base.{
  ℕ, ◌≡◌, ◌⊎◌, refl, sym, ◌∙◌, Bool, true, false, Option, none, some, List, [], ◌∷◌, map, inl, inr,
  All, Option-cases, nat_eq,
}
use backend_client.Base.Dict.{Dict, lookup, insert, contains, contains-some, All-lookup}
use backend_client.Base.Exceptions.{key_error, ok, err}
use backend_client.Inventory.{Sighting, Seen, Inventory, truthy, is_empty}
use backend_client.Inventory.Sets.{has, sorted, has-sorted}
use backend_client.Inventory.Counts.{
  last, frequencies, account_for_target_nodes, frequency, filter_dict, all_reach,
  is_frequency_reached,
}
use backend_client.Inventory.Kept.{IsSeen, IsSeen-events, IsInventory}
use backend_client.Inventory.Targets.{has-keys}
use backend_client.Inventory.Frequency.{All-members, member-All}
use backend_client.Inventory.Otap.{last-ok}

-- The last event of a node has no highest sequence, or has one.
abbrev pub Lacks : Dict ℕ Seen → ℕ → Type 0
Lacks index n =
    (s : Seen) × (e : Sighting) × (lookup n index ≡ some s)
    × (last s.events ≡ ok e)
    × (e.otap_max ≡ none)

abbrev pub Shows : Dict ℕ Seen → ℕ → Type 0
Shows index n =
    (s : Seen) × (e : Sighting) × (v : ℕ) × (lookup n index ≡ some s)
    × (last s.events ≡ ok e)
    × (e.otap_max ≡ some v)

Shows-or_Lacks :
    (index : Dict ℕ Seen) (n : ℕ)
    → All IsSeen index
    → contains n index ≡ true
    → Shows index n ⊎ Lacks index n
Shows-or_Lacks index n all there =
    let (s, p) = contains-some n index there in
    let (e, q) = last-ok s.events (IsSeen-events n s (All-lookup IsSeen n index all p)) in
    elim (Option-cases e.otap_max) [
      | inl missing ↦ inr (s, e, p, q, missing)
      | inr (v, found) ↦ inl (s, e, v, p, q, found)
    ]

-- The loop returns where all nodes show a sequence, and raises at the first that does not.
frequencies-cases :
    (target : Option ℕ) (index : Dict ℕ Seen) (nodes : List ℕ) (d : Dict ℕ ℕ)
    → truthy target ≡ true
    → All IsSeen index
    → All (λ n. contains n index ≡ true) nodes
    → ((d' : Dict ℕ ℕ) × (frequencies target index nodes d ≡ ok d') × All (Shows index) nodes)
      ⊎ ((frequencies target index nodes d ≡ err key_error) × ((n : ℕ) × Lacks index n))
unfolding frequencies
frequencies-cases target index [] d t seen all = inl (d, refl, tt)
frequencies-cases target index (node ∷ nodes) d t seen all =
    elim (Shows-or_Lacks index node seen all.0) [
      | inr (s, e, p, q, missing) ↦
          inr (rw (frequencies, p, t, q, missing) refl, (node, (s, e, p, q, missing)))
      | inl (s, e, v, p, q, found) ↦
          elim (frequencies-cases target index nodes (insert node v d) t seen all.1) [
            | inl (d', done, shown) ↦
                inl (d', rw (frequencies, p, t, q, found) done, ((s, e, v, p, q, found), shown))
            | inr (raised, lacking) ↦ inr (rw (frequencies, p, t, q, found) raised, lacking)
          ]
    ]

-- Where a well-formed inventory has target nodes and tracks an otap sequence other than 0,
-- `is_frequency_reached` returns if the last event of every node that was seen has a highest sequence,
-- and raises KeyError as soon as one has none, as the events have that hold signal strengths alone.
pub is_frequency_reached-cases :
    (inv : Inventory)
    → IsInventory inv
    → truthy inv.target_otap_sequence ≡ true
    → is_empty inv.target_nodes ≡ false
    → ((b : Bool) × (is_frequency_reached inv ≡ ok b)
        × ((n : ℕ) → has n inv.nodes ≡ true → Shows inv.index n))
      ⊎ ((is_frequency_reached inv ≡ err key_error) × ((n : ℕ) × Lacks inv.index n))
unfolding is_frequency_reached frequency
is_frequency_reached-cases inv i t targets =
    let keys : List ℕ = map (λ p. p.0) inv.index in
    let in_keys : (n : ℕ) → has n (sorted keys) ≡ contains n inv.index =
      λ n. has-sorted n keys ∙ has-keys n inv.index in
    let there =
      All-members (λ n. contains n inv.index ≡ true) (sorted keys) (λ n h. sym (in_keys n) ∙ h) in
    elim (frequencies-cases inv.target_otap_sequence inv.index (sorted keys) [] t i.counted there) [
      | inr (raised, lacking) ↦ inr (rw (is_frequency_reached, targets, raised) refl, lacking)
      | inl (d, done, shown) ↦ inl (
        all_reach inv.target_frequency
            (filter_dict inv.target_nodes (account_for_target_nodes inv.target_nodes d)),
        rw (is_frequency_reached, targets, done) refl,
        λ n h.
            member-All (Shows inv.index) n (sorted keys) shown
              (in_keys n ∙ sym (i.same_nodes n) ∙ h),
      )
    ]
