-- ===== src/Inventory/Kept.antt =====
-- What every operation of the inventory keeps: its set of nodes and its index list the same nodes, and
-- the count of a node is the number of its events.
use mathlib.Core.Path.{subst}
use backend_client.Base.{
  ℕ, ◌≤◌, ◌≡◌, ◌≢◌, ◌⊎◌, refl, sym, ap, ◌∙◌, Bool, true, false, ◌&&◌, ◌||◌, Option, none, some,
  List, [], ◌∷◌, arith, inl, inr, length, length-append, All, eqb, nat_eq, Bool-cases, Option-cases,
}
use backend_client.Base.Dict.{
  Dict, lookup, contains, insert, IsDict, insert-IsDict, All-insert, All-lookup, lookup-insert,
}
use backend_client.Base.Int.{ℤ, pos, eqb_ℤ}
use backend_client.Base.Exceptions.{type_error, ok, err}
use backend_client.Inventory.Sets.{has, IsSetOf, has-set_add, set_add-IsSetOf}
use backend_client.Inventory.{
  Sighting, Seen, Inventory, make_event, event_of_one, highest, lowest, truthy, of_otap, any_rss,
  any_otap, add, seen_again,
}

-- What holds of the entry of one node.
pub IsSeen : ℕ × Seen → Type 0
IsSeen (node, s) = (s.count ≡ length s.events) × (1 ≤ s.count)

pub IsSeen-events : (node : ℕ) (s : Seen) → IsSeen (node, s) → 1 ≤ length s.events
unfolding IsSeen
IsSeen-events node s h = omega arith

pub record IsInventory (inv : Inventory) : Type 0 where
  pub same_nodes : (n : ℕ) → has n inv.nodes ≡ contains n inv.index
  pub set : IsSetOf inv.nodes
  pub distinct : IsDict inv.index
  pub counted : All IsSeen inv.index

any_rss-cases : (xs : List ℤ) → (any_rss (some xs) ≡ ok true) ⊎ (any_rss (some xs) ≡ ok false)
any_rss-cases [] = inr refl
any_rss-cases (x ∷ xs) = elim (Bool-cases (eqb_ℤ x (pos 0))) [
  | inl p ↦ rw p (any_rss-cases xs)
  | inr p ↦ inl (rw p refl)
]

any_otap-cases : (xs : List ℕ) → (any_otap (some xs) ≡ ok true) ⊎ (any_otap (some xs) ≡ ok false)
any_otap-cases [] = inr refl
any_otap-cases (x ∷ xs) = elim (Bool-cases (eqb x 0)) [
  | inl p ↦ rw p (any_otap-cases xs)
  | inr p ↦ inl (rw p refl)
]

-- When no event can be built: the measurements are None, or they are all zero and the sequences are
-- None.
abbrev pub IsUnusable : Option (List ℤ) → Option (List ℕ) → Type 0
IsUnusable rss otap = (rss ≡ none) ⊎ (otap ≡ none) × (any_rss rss ≡ ok false)

-- When an event can be built.
abbrev pub IsUsable : Option (List ℤ) → Option (List ℕ) → Type 0
IsUsable rss otap = (rss ≢ none) × ((any_rss rss ≡ ok true) ⊎ (otap ≢ none))

-- Without a use for both, there is an event exactly if the data is usable.
event_of_one-cases :
    (rss : Option (List ℤ)) (otap : Option (List ℕ))
    → (event_of_one rss otap ≡ err type_error) × IsUnusable rss otap
      ⊎ ((e : Sighting) × (event_of_one rss otap ≡ ok e)) × IsUsable rss otap
unfolding event_of_one
event_of_one-cases none otap = inl (refl, inl refl)
event_of_one-cases (some rss) otap = elim (any_rss-cases rss) [
  | inl p ↦ inr (
    (record { rss = some rss; otap = none; otap_max = none; otap_min = none }, rw p refl),
    ((λ q. cc), inl p),
  )
  | inr p ↦ by_otap otap p
]
  where
    by_otap :
        (otap : Option (List ℕ))
        → any_rss (some rss) ≡ ok false
        → (event_of_one (some rss) otap ≡ err type_error) × IsUnusable (some rss) otap
          ⊎ ((e : Sighting) × (event_of_one (some rss) otap ≡ ok e)) × IsUsable (some rss) otap
    by_otap none p = inl (rw p refl, inr (refl, p))
    by_otap (some otap) p = elim (any_otap-cases otap) [
      | inl q ↦ inr (
        (
          record { rss = none; otap = some otap; otap_max = highest otap; otap_min = lowest otap },
          rw (p, q) refl,
        ),
        ((λ z. cc), inr (λ z. cc)),
      )
      | inr q ↦ inr (
        (
          record { rss = some rss; otap = some otap; otap_max = none; otap_min = none },
          rw (p, q) refl,
        ),
        ((λ z. cc), inr (λ z. cc)),
      )
    ]

pub make_event-cases :
    (rss : Option (List ℤ)) (otap : Option (List ℕ))
    → (make_event rss otap ≡ err type_error) × IsUnusable rss otap
      ⊎ ((e : Sighting) × (make_event rss otap ≡ ok e)) × IsUsable rss otap
unfolding make_event
make_event-cases rss otap =
    elim (Bool-cases (truthy (of_otap lowest otap) && truthy (of_otap highest otap))) [
      | inr p ↦ rw (make_event, p) (event_of_one-cases rss otap)
      | inl p ↦ by_rss rss p
    ]
  where
    by_rss :
        (rss : Option (List ℤ))
        → (truthy (of_otap lowest otap) && truthy (of_otap highest otap)) ≡ true
        → (make_event rss otap ≡ err type_error) × IsUnusable rss otap
          ⊎ ((e : Sighting) × (make_event rss otap ≡ ok e)) × IsUsable rss otap
    by_rss none p = inl (rw (make_event, p) refl, inl refl)
    by_rss (some rss) p = elim (any_rss-cases rss) [
      | inl q ↦ inr (
        (
          record {
            rss = some rss;
            otap = otap;
            otap_max = of_otap highest otap;
            otap_min = of_otap lowest otap;
          },
          rw (make_event, p, q) refl,
        ),
        ((λ z. cc), inl q),
      )
      | inr q ↦
          let same : make_event (some rss) otap ≡ event_of_one (some rss) otap =
            rw (make_event, p, q) refl in
          subst
            (λ z.
              (z ≡ err type_error) × IsUnusable (some rss) otap
              ⊎ ((e : Sighting) × (z ≡ ok e)) × IsUsable (some rss) otap)
            (sym same) (event_of_one-cases (some rss) otap)
    ]

pub usable_apart :
    (rss : Option (List ℤ)) (otap : Option (List ℕ)) → IsUsable rss otap → IsUnusable rss otap → ⊥
usable_apart rss otap (there, inl used) (inr (missing, unused)) = cc
usable_apart rss otap (there, inr given) (inr (missing, unused)) = given missing
usable_apart rss otap (there, use') (inl missing) = there missing

-- The set of the nodes and the index after a node was added.
seen_again-IsSeen :
    (node : ℕ) (timestamp : Option ℕ) (e : Sighting) (index : Dict ℕ Seen)
    → All IsSeen index
    → IsSeen (node, seen_again (lookup node index) timestamp e)
unfolding IsSeen
seen_again-IsSeen node timestamp e index all = elim (Option-cases (lookup node index)) [
  | inl missing ↦ rw missing (omega arith, omega arith)
  | inr (s, found) ↦
      let (n, m) = All-lookup IsSeen node index all found in
      rw found (omega (arith, n, length-append s.events (e ∷ [])), omega arith)
]

contains-insert :
    (n node : ℕ) (s : Seen) (index : Dict ℕ Seen)
    → contains n (insert node s index) ≡ (eqb n node || contains n index)
contains-insert n node s index =
    ap (λ o. is_some o) (lookup-insert n node s index)
    ∙ elim (Bool-cases (eqb n node)) [ inl same ↦ rw same refl | inr other ↦ rw other refl ]
  where
    is_some : Option Seen → Bool
    is_some o = elim o [ none ↦ false | some _ ↦ true ]

-- A sighting that can be recorded keeps the inventory well-formed.
pub add-IsInventory :
    (node : ℕ) (rss : Option (List ℤ)) (otap : Option (List ℕ)) (timestamp : Option ℕ)
    (inv : Inventory)
    → IsUsable rss otap
    → IsInventory inv
    → ((add node rss otap timestamp inv).0 ≡ ok tt)
      × IsInventory (add node rss otap timestamp inv).1
unfolding add
add-IsInventory node rss otap timestamp inv usable i = elim (make_event-cases rss otap) [
  | inl (_, unusable) ↦ absurd (usable_apart rss otap usable unusable)
  | inr ((e, p), _) ↦
      rw (add, p)
        (
          refl,
          record {
            same_nodes = λ n.
                has-set_add n node inv.nodes
                ∙ ap (λ b. eqb n node || b) (i.same_nodes n)
                ∙ sym (
                    contains-insert n node (seen_again (lookup node inv.index) timestamp e)
                      inv.index);
            set = set_add-IsSetOf node inv.nodes i.set;
            distinct =
                insert-IsDict node (seen_again (lookup node inv.index) timestamp e) inv.index
                  i.distinct;
            counted =
                All-insert IsSeen node (seen_again (lookup node inv.index) timestamp e) inv.index
                  (seen_again-IsSeen node timestamp e inv.index i.counted) i.counted;
          },
        )
]
