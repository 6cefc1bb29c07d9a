-- ===== src/Inventory.antt =====
-- wirepas_backend_client/management/inventory.py: the count of the nodes that a test has seen.
pub mod Sets
pub mod Counts
pub mod Kept
pub mod Reached
pub mod Counted
pub mod Targets
pub mod Frequency
pub mod Completion
pub mod Otap
pub mod Missing
mod Tests
use backend_client.Base.{
  ℕ, suc, ◌+◌, ◌≡◌, Bool, true, false, ◌&&◌, ◌||◌, not, Option, none, some, List, [], ◌∷◌, ◌++◌,
  map, eqb, leb, ltb, if◌then◌else◌, nat_eq,
}
use backend_client.Base.Dict.{Dict, lookup, contains, insert, erase}
use backend_client.Base.Int.{ℤ, pos, eqb_ℤ, sub_ℕ, leb_ℤ}
use backend_client.Base.Exceptions.{
  Exception, key_error, index_error, type_error, Result, ok, err, ◌>>=◌, or_raise,
}
use Sets.{has, set_add, set_remove, issuperset, symmetric_difference, sorted}

-- The dictionary of one event. A key that is not there is `none`.
pub record Sighting : Type 0 where
  pub rss : Option (List ℤ)
  pub otap : Option (List ℕ)
  pub otap_max : Option ℕ
  pub otap_min : Option ℕ

-- The dictionary of one node in `_index`
pub record Seen : Type 0 where
  pub last_seen : Option ℕ
  pub events : List Sighting
  pub count : ℕ

-- Instants and spans of time are numbers, in one unit. A target frequency of `none` is infinite.
-- `_otaped_nodes`, `_runtime` and `_elapsed` are left out: they are written, and never read before the
-- next write.
pub record Inventory : Type 0 where
  pub target_nodes : List ℕ
  pub target_otap_sequence : Option ℕ
  pub target_frequency : Option ℕ
  pub start_delay : ℕ
  pub maximum_duration : ℕ
  pub nodes : List ℕ
  pub index : Dict ℕ Seen
  pub sequence : Option ℕ
  pub start : Option ℕ
  pub deadline : Option ℕ
  pub finished : Option ℕ

-- `__init__`
abbrev pub new_inventory : Option (List ℕ) → Option ℕ → Option ℕ → ℕ → ℕ → Inventory
new_inventory targets otap frequency start_delay maximum_duration = record {
  target_nodes = elim targets [ none ↦ [] | some s ↦ s ];
  target_otap_sequence = otap;
  target_frequency = frequency;
  start_delay = start_delay;
  maximum_duration = maximum_duration;
  nodes = [];
  index = [];
  sequence = none;
  start = none;
  deadline = none;
  finished = none;
}

-- `elapsed`: it is an error to ask before the start.
abbrev pub elapsed : ℕ → Inventory → Result ℤ
elapsed now inv = do
  start ← or_raise inv.start type_error
  ok (sub_ℕ (elim inv.finished [ none ↦ now | some t ↦ t ]) start)

-- `until`
abbrev pub until : ℕ → ℕ → ℤ
until now deadline = sub_ℕ deadline now

-- `finish`
abbrev pub finish : ℕ → Inventory → Inventory
finish now inv = record inv { finished = some now }

unfoldable pub reset : Inventory → Inventory
reset inv = record inv { nodes = []; index = []; start = none; deadline = none; finished = none }

-- `wait`, but for the sleep
unfoldable pub wait : ℕ → Inventory → Inventory
unfolding reset
wait now inv = record (reset inv) {
  start = some (now + inv.start_delay);
  deadline = some (now + inv.start_delay + inv.maximum_duration);
}

-- `any` of the measurements or sequences, which are an error if they are None.
abbrev pub any_rss : Option (List ℤ) → Result Bool
any_rss none = err type_error
any_rss (some []) = ok false
any_rss (some (x ∷ xs)) = if eqb_ℤ x (pos 0) then any_rss (some xs) else ok true

abbrev pub any_otap : Option (List ℕ) → Result Bool
any_otap none = err type_error
any_otap (some []) = ok false
any_otap (some (x ∷ xs)) = if eqb x 0 then any_otap (some xs) else ok true

-- `min` and `max` of a sequence that is there and not empty
abbrev pub lowest : List ℕ → Option ℕ
lowest [] = none
lowest (x ∷ xs) = elim (lowest xs) [ none ↦ some x | some y ↦ some (if leb x y then x else y) ]

abbrev pub highest : List ℕ → Option ℕ
highest [] = none
highest (x ∷ xs) = elim (highest xs) [ none ↦ some x | some y ↦ some (if leb y x then x else y) ]

abbrev pub of_otap : (List ℕ → Option ℕ) → Option (List ℕ) → Option ℕ
of_otap f none = none
of_otap f (some xs) = f xs

-- Whether a number is there and not zero
abbrev pub truthy : Option ℕ → Bool
truthy none = false
truthy (some n) = not (eqb n 0)

-- The event that `add` builds where the measurements and the sequences are not both of use
unfoldable pub event_of_one : Option (List ℤ) → Option (List ℕ) → Result Sighting
event_of_one rss otap = do
  only_rss ← any_rss rss
  if only_rss then ok (record { rss = rss; otap = none; otap_max = none; otap_min = none }) else (do
    only_otap ← any_otap otap
    if only_otap
        then ok (record {
          rss = none;
          otap = otap;
          otap_max = of_otap highest otap;
          otap_min = of_otap lowest otap;
        })
        else ok (record { rss = rss; otap = otap; otap_max = none; otap_min = none }))

-- The event that `add` builds
unfoldable pub make_event : Option (List ℤ) → Option (List ℕ) → Result Sighting
unfolding event_of_one
make_event rss otap =
    let hi = of_otap highest otap in
    let lo = of_otap lowest otap in
    do
      both ← if truthy lo && truthy hi then any_rss rss else ok false
      if both
          then ok (record { rss = rss; otap = otap; otap_max = hi; otap_min = lo })
          else event_of_one rss otap

-- The dictionary of a node after one event more
abbrev pub seen_again : Option Seen → Option ℕ → Sighting → Seen
seen_again none timestamp e = record { last_seen = timestamp; events = e ∷ []; count = 1 }
seen_again (some s) timestamp e = record {
  last_seen = timestamp;
  events = s.events ++ e ∷ [];
  count = s.count + 1;
}

-- `add`. The node is in `nodes` already when the event raises.
unfoldable pub add :
    ℕ → Option (List ℤ) → Option (List ℕ) → Option ℕ → Inventory → Result (Unit {0}) × Inventory
unfolding make_event
add node rss otap timestamp inv =
    let inv1 = record inv { nodes = set_add node inv.nodes } in
    elim (make_event rss otap) [
      | err x ↦ (err x, inv1)
      | ok e ↦ (
        ok tt,
        record inv1 {
          index = insert node (seen_again (lookup node inv.index) timestamp e) inv.index;
        },
      )
    ]

-- `remove`
unfoldable pub remove : ℕ → Inventory → Result (Unit {0}) × Inventory
remove node inv =
    if has node inv.nodes
    then (let inv1 = record inv { nodes = set_remove node inv.nodes } in
        if contains node inv.index
        then (ok tt, record inv1 { index = erase node inv.index })
        else (err key_error, inv1))
    else (err key_error, inv)

-- `is_out_of_time`
unfoldable pub is_out_of_time : ℕ → Inventory → Result Bool
is_out_of_time now inv = do
  deadline ← or_raise inv.deadline type_error
  ok (leb_ℤ (until now deadline) (pos 0))

-- `not self._target_nodes`
abbrev pub is_empty : List ℕ → Bool
is_empty [] = true
is_empty (n ∷ s) = false

-- `is_complete`: the message about what is missing needs the elapsed time.
unfoldable pub is_complete : ℕ → Inventory → Result Bool
is_complete now inv =
    if is_empty inv.target_nodes || (elim inv.target_frequency [ none ↦ false | some n ↦ true ])
    then ok false
    else (if issuperset inv.nodes inv.target_nodes
        then ok (not (truthy inv.target_otap_sequence))
        else (elapsed now inv >>= λ _. ok false))

-- `difference`
abbrev pub difference : Inventory → List ℕ
difference inv = symmetric_difference inv.nodes inv.target_nodes
