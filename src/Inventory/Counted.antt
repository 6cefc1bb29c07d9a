-- ===== src/Inventory/Counted.antt =====
-- How often each node was counted.
use backend_client.Base.{
  ℕ, ◌+◌, ◌≡◌, sym, ap, ◌∙◌, Option, none, some, List, [], ◌∷◌, arith, inl, inr, eqb, eqb_iff,
  nat_eq, if◌then◌else◌, Bool-cases,
}
use backend_client.Base.Dict.{Dict, lookup, insert, lookup-insert}
use backend_client.Base.Int.{ℤ}
use backend_client.Inventory.{Sighting, Seen, Inventory, add, seen_again}
use backend_client.Inventory.Kept.{make_event-cases, usable_apart}
use backend_client.Inventory.Reached.{Operation, adds, operate, operations}

abbrev pub count_of : Option Seen → ℕ
count_of none = 0
count_of (some s) = s.count

-- How often a node was counted
abbrev pub seen_count : ℕ → Inventory → ℕ
seen_count n inv = count_of (lookup n inv.index)

-- A sighting: node, measurements, sequences and time
abbrev pub Visit : Type 0
Visit = ℕ × List ℤ × List ℕ × Option ℕ

abbrev pub visits : List Visit → List Operation
visits [] = []
visits ((node, rss, otap, timestamp) ∷ more) = adds node rss otap timestamp ∷ visits more

-- How often a node is among the sightings
abbrev pub occurrences : ℕ → List Visit → ℕ
occurrences n [] = 0
occurrences n ((node, rss, otap, timestamp) ∷ more) =
    (if eqb n node then 1 else 0) + occurrences n more

count-again :
    (o : Option Seen) (timestamp : Option ℕ) (e : Sighting)
    → (seen_again o timestamp e).count ≡ 1 + count_of o
count-again none timestamp e = omega arith
count-again (some s) timestamp e = omega arith

count-insert :
    (n node : ℕ) (timestamp : Option ℕ) (e : Sighting) (index : Dict ℕ Seen)
    → count_of (lookup n (insert node (seen_again (lookup node index) timestamp e) index))
      ≡ (if eqb n node then 1 else 0) + count_of (lookup n index)
count-insert n node timestamp e index =
    let s = seen_again (lookup node index) timestamp e in
    ap count_of (lookup-insert n node s index) ∙ elim (Bool-cases (eqb n node)) [
      | inl same ↦
          let p = (eqb_iff n node).0 same in
          rw same (
            count-again (lookup node index) timestamp e
            ∙ ap (λ k. 1 + count_of (lookup k index)) (sym p))
      | inr other ↦ rw other (omega arith)
    ]

add-seen_count :
    (n node : ℕ) (rss : List ℤ) (otap : List ℕ) (timestamp : Option ℕ) (inv : Inventory)
    → seen_count n (add node (some rss) (some otap) timestamp inv).1
      ≡ (if eqb n node then 1 else 0) + seen_count n inv
unfolding add
add-seen_count n node rss otap timestamp inv = elim (make_event-cases (some rss) (some otap)) [
  | inl (_, unusable) ↦
      absurd (usable_apart (some rss) (some otap) ((λ z. cc), inr (λ z. cc)) unusable)
  | inr ((e, p), _) ↦ rw (add, p) (count-insert n node timestamp e inv.index)
]

-- A round of sightings counts every node as often as it was seen, on top of what was counted before.
pub operations-seen_count :
    (more : List Visit) (n : ℕ) (inv : Inventory)
    → seen_count n (operations (visits more) inv) ≡ occurrences n more + seen_count n inv
unfolding operations operate
operations-seen_count [] n inv = omega arith
operations-seen_count ((node, rss, otap, timestamp) ∷ more) n inv = omega (
  arith,
  operations-seen_count more n (operate (adds node rss otap timestamp) inv),
  add-seen_count n node rss otap timestamp inv,
)
