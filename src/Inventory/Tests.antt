-- ===== src/Inventory/Tests.antt =====
-- The inventory of management/inventory.py on concrete sightings.
use backend_client.Base.{ℕ, ◌≡◌, ◌↔◌, ◌⊎◌, refl, Bool, true, false, none, some, List, [], ◌∷◌, All}
use backend_client.Base.Int.{negsuc}
use backend_client.Base.Exceptions.{ok, err, type_error, key_error}
use backend_client.Inventory.{Inventory, new_inventory, add, wait, make_event, event_of_one}
use backend_client.Inventory.Counts.{
  is_otaped, is_frequency_reached, reaches, frequency_by_value, by_value,
}
use backend_client.Inventory.Kept.{IsInventory, IsUnusable, IsUsable}
use backend_client.Inventory.Reached.{
  Operation, adds, removes, waits, operate, operations, operations-IsInventory,
  new_inventory-IsInventory, add-err,
}
use backend_client.Inventory.Counted.{Visit, visits, seen_count}
use backend_client.Inventory.Frequency.{is_frequency_reached_iff}
use backend_client.Inventory.Sets.{has}
use backend_client.Inventory.Otap.{IsOtaped, is_otaped_iff}
use backend_client.Inventory.Missing.{Shows, Lacks, is_frequency_reached-cases}

-- Two target nodes, each to be seen twice.
abbrev fresh : Inventory
fresh = new_inventory (some (5 ∷ 7 ∷ [])) none (some 2) 10 60

abbrev sightings : List Visit
sightings =
    (5, negsuc 70 ∷ [], 3 ∷ [], some 1)
    ∷ (9, [], [], some 2)
    ∷ (5, negsuc 71 ∷ [], [], some 3)
    ∷ (7, [], 0 ∷ 4 ∷ [], some 4)
    ∷ []

abbrev a_round : List Operation
a_round = adds 5 (negsuc 70 ∷ []) (3 ∷ []) (some 1) ∷ removes 9 ∷ adds 7 [] [] none ∷ removes 5 ∷ []

operations-IsInventory_example : IsInventory (operations a_round fresh)
operations-IsInventory_example =
    operations-IsInventory a_round fresh
      (new_inventory-IsInventory (some (5 ∷ 7 ∷ [])) none (some 2) 10 60)

add-err_example :
    let (q, inv') = add 5 none none none fresh in
    (q ≡ err type_error) × IsUnusable none none × (inv' ≡ record fresh { nodes = 5 ∷ [] })
    ⊎ (q ≡ ok tt) × IsUsable none none
add-err_example = add-err 5 none none none fresh

-- The second target was seen once.
abbrev observed : Inventory
observed = operations (visits sightings) fresh

is_frequency_reached_iff_example :
    (b : Bool) × (is_frequency_reached observed ≡ ok b)
    × (b ≡ true ↔ All (λ n. reaches (some 2) (seen_count n observed) ≡ true) (5 ∷ 7 ∷ []))
unfolding operations operate add
is_frequency_reached_iff_example =
    is_frequency_reached_iff observed
      (operations-IsInventory (visits sightings) fresh
        (new_inventory-IsInventory (some (5 ∷ 7 ∷ [])) none (some 2) 10 60))
      refl refl

not_yet : is_frequency_reached observed ≡ ok false
unfolding is_frequency_reached operations operate add make_event event_of_one
not_yet = refl

-- The node 5 was seen twice, the others once.
observed_by_value : frequency_by_value observed ≡ ok ((1, 7 ∷ 9 ∷ []) ∷ (2, 5 ∷ []) ∷ [])
unfolding frequency_by_value by_value operations operate add make_event event_of_one
observed_by_value = refl

abbrev started : Inventory
started = record (new_inventory (some (5 ∷ [])) none none 10 60) { nodes = 5 ∷ []; start = some 3 }

-- Both targets report an otap sequence, one of them the target as its highest one.
abbrev tracked : Inventory
tracked = new_inventory (some (5 ∷ 7 ∷ [])) (some 3) none 10 60

abbrev updated : Inventory
updated = operations (waits 0 ∷ adds 5 [] (3 ∷ []) none ∷ adds 7 [] (1 ∷ 3 ∷ []) none ∷ []) tracked

updated-IsInventory : IsInventory updated
updated-IsInventory =
    operations-IsInventory (waits 0 ∷ adds 5 [] (3 ∷ []) none ∷ adds 7 [] (1 ∷ 3 ∷ []) none ∷ [])
      tracked (new_inventory-IsInventory (some (5 ∷ 7 ∷ [])) (some 3) none 10 60)

is_otaped_iff_example :
    (b : Bool) × (is_otaped 20 updated ≡ ok b) × (b ≡ true ↔ All (IsOtaped 3 updated) (5 ∷ 7 ∷ []))
unfolding operations operate add wait
is_otaped_iff_example = is_otaped_iff 20 3 10 updated updated-IsInventory refl refl refl

all_otaped : is_otaped 20 updated ≡ ok true
unfolding is_otaped operations operate add wait make_event event_of_one
all_otaped = refl

-- A node that reports a signal strength alone
abbrev unknown : Inventory
unknown = operations (adds 5 (negsuc 70 ∷ []) [] none ∷ []) tracked

is_frequency_reached-cases_example :
    ((b : Bool) × (is_frequency_reached unknown ≡ ok b)
      × ((n : ℕ) → has n unknown.nodes ≡ true → Shows unknown.index n))
    ⊎ ((is_frequency_reached unknown ≡ err key_error) × ((n : ℕ) × Lacks unknown.index n))
unfolding operations operate add
is_frequency_reached-cases_example =
    is_frequency_reached-cases unknown
      (operations-IsInventory (adds 5 (negsuc 70 ∷ []) [] none ∷ []) tracked
        (new_inventory-IsInventory (some (5 ∷ 7 ∷ [])) (some 3) none 10 60))
      refl refl
