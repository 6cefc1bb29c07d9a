-- ===== src/Inventory/Reached.antt =====
-- The inventory after any sequence of its operations, and what `add` does with data of no use.
use backend_client.Base.{
  ℕ, ◌≡◌, ◌⊎◌, refl, sym, ap, ◌∙◌, Bool, true, false, ◌&&◌, not, Option, none, some, List, [], ◌∷◌,
  arith, inl, inr, eqb, eqb_iff, nat_eq, if◌then◌else◌, Bool-cases,
}
use backend_client.Base.Dict.{
  Dict, lookup, contains, erase, IsDict, erase-IsDict, All-erase, lookup-erase_self,
  lookup-erase_ne,
}
use backend_client.Base.Int.{ℤ}
use backend_client.Base.Exceptions.{key_error, type_error, ok, err}
use backend_client.Inventory.Sets.{has, set_add, has-set_remove, set_remove-IsSetOf}
use backend_client.Inventory.{Seen, Inventory, new_inventory, add, remove, reset, wait}
use backend_client.Inventory.Kept.{
  IsSeen, IsInventory, IsUsable, IsUnusable, add-IsInventory, make_event-cases,
}

-- `add` raises TypeError exactly if the measurements are None, or are all zero while the sequences are
-- None, and raises nothing else. Even then the node is among the inventory's nodes afterwards, and the
-- index is as it was.
pub add-err :
    (node : ℕ) (rss : Option (List ℤ)) (otap : Option (List ℕ)) (timestamp : Option ℕ)
    (inv : Inventory)
    → let (q, inv') = add node rss otap timestamp inv in
      (q ≡ err type_error)
        × IsUnusable rss otap
        × (inv' ≡ record inv { nodes = set_add node inv.nodes })
      ⊎ (q ≡ ok tt) × IsUsable rss otap
unfolding add
add-err node rss otap timestamp inv = elim (make_event-cases rss otap) [
  | inl (p, unusable) ↦ rw (add, p) (inl (refl, unusable, refl))
  | inr ((e, p), usable) ↦ rw (add, p) (inr (refl, usable))
]

contains-erase :
    (n node : ℕ) (index : Dict ℕ Seen)
    → IsDict index
    → contains n (erase node index) ≡ (contains n index && not (eqb n node))
contains-erase n node index d = elim (Bool-cases (eqb n node)) [
  | inl same ↦
      let p = (eqb_iff n node).0 same in
      ap (λ o. is_some o) (ap (λ k. lookup k (erase node index)) p ∙ lookup-erase_self node index d)
      ∙ rw same (ground arith)
  | inr other ↦ ap (λ o. is_some o) (lookup-erase_ne n node index other) ∙ rw other (ground arith)
]
  where
    is_some : Option Seen → Bool
    is_some o = elim o [ none ↦ false | some _ ↦ true ]

remove-IsInventory :
    (node : ℕ) (inv : Inventory)
    → IsInventory inv
    → IsInventory (remove node inv).1
      × ((remove node inv).0 ≡ (if has node inv.nodes then ok tt else err key_error))
unfolding remove
remove-IsInventory node inv i = elim (Bool-cases (has node inv.nodes)) [
  | inr missing ↦ rw (remove, missing) (i, refl)
  | inl there ↦
      let indexed : contains node inv.index ≡ true = sym (i.same_nodes node) ∙ there in
      rw (remove, there, indexed)
        (
          record {
            same_nodes = λ n.
                has-set_remove n node inv.nodes i.set
                ∙ ap (λ b. b && not (eqb n node)) (i.same_nodes n)
                ∙ sym (contains-erase n node inv.index i.distinct);
            set = set_remove-IsSetOf node inv.nodes i.set;
            distinct = erase-IsDict node inv.index i.distinct;
            counted = All-erase IsSeen node inv.index i.counted;
          },
          refl,
        )
]

-- What the KPI test does with the inventory: the measurements and sequences are lists.
pub data Operation : Type 0 where
  adds : ℕ → List ℤ → List ℕ → Option ℕ → Operation
  removes : ℕ → Operation
  waits : ℕ → Operation

unfoldable pub operate : Operation → Inventory → Inventory
unfolding add remove wait
operate (adds node rss otap timestamp) inv = (add node (some rss) (some otap) timestamp inv).1
operate (removes node) inv = (remove node inv).1
operate (waits now) inv = wait now inv

unfoldable pub operations : List Operation → Inventory → Inventory
unfolding operate
operations [] inv = inv
operations (o ∷ more) inv = operations more (operate o inv)

operate-IsInventory :
    (o : Operation) (inv : Inventory) → IsInventory inv → IsInventory (operate o inv)
unfolding operate wait reset
operate-IsInventory (adds node rss otap timestamp) inv i =
    (add-IsInventory node (some rss) (some otap) timestamp inv ((λ z. cc), inr (λ z. cc)) i).1
operate-IsInventory (removes node) inv i = (remove-IsInventory node inv i).0
operate-IsInventory (waits now) inv i = record {
  same_nodes = λ n. refl;
  set = tt;
  distinct = tt;
  counted = tt;
}

-- After any additions with lists of measurements and sequences, removals (also of nodes that are not
-- there) and new rounds, the inventory's set of nodes and its index have the same nodes, neither lists
-- a node twice, and the count of every node is the number of its events, and at least 1.
pub operations-IsInventory :
    (more : List Operation) (inv : Inventory) → IsInventory inv → IsInventory (operations more inv)
unfolding operations
operations-IsInventory [] inv i = i
operations-IsInventory (o ∷ more) inv i =
    operations-IsInventory more (operate o inv) (operate-IsInventory o inv i)

pub new_inventory-IsInventory :
    (targets : Option (List ℕ)) (otap frequency : Option ℕ) (delay duration : ℕ)
    → IsInventory (new_inventory targets otap frequency delay duration)
new_inventory-IsInventory targets otap frequency delay duration = record {
  same_nodes = λ n. refl;
  set = tt;
  distinct = tt;
  counted = tt;
}
