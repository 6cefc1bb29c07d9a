-- ===== src/Inventory/Counts.antt =====
-- The parts of management/inventory.py that evaluate the inventory: which nodes have the target otap
-- sequence, how often each was seen, and whether the targets are reached.
use backend_client.Base.{
  ℕ, Bool, true, false, ◌&&◌, ◌||◌, Option, none, some, List, [], ◌∷◌, map, eqb, leb, if◌then◌else◌,
  nat_eq,
}
use backend_client.Base.Dict.{Dict, lookup, contains, insert}
use backend_client.Base.Exceptions.{key_error, index_error, Result, ok, err, ◌>>=◌, or_raise}
use backend_client.Inventory.Sets.{has, set_add, issuperset, sorted}
use backend_client.Inventory.{Sighting, Seen, Inventory, truthy, is_empty, elapsed}

-- `events[-1]`
abbrev pub last : List Sighting → Result Sighting
last [] = err index_error
last (e ∷ []) = ok e
last (e ∷ es) = last es

-- Whether the lowest or the highest sequence of an event is the target; a missing key is an error.
abbrev pub has_target : Option ℕ → Sighting → Result Bool
has_target target e = do
  lo ← or_raise e.otap_min key_error
  if (elim target [ none ↦ false | some t ↦ eqb lo t ]) then ok true else (do
    hi ← or_raise e.otap_max key_error
    ok (elim target [ none ↦ false | some t ↦ eqb hi t ]))

-- The body of the loop in `otaped_nodes`: `except KeyError: pass`.
abbrev pub add_otaped : Option ℕ → ℕ → Seen → List ℕ → Result (List ℕ)
add_otaped target node seen otaped = elim (last seen.events >>= has_target target) [
  | ok true ↦ ok (set_add node otaped)
  | ok false ↦ ok otaped
  | err key_error ↦ ok otaped
  | err x ↦ err x
]

unfoldable pub otaped_in : Option ℕ → Dict ℕ Seen → List ℕ → Result (List ℕ)
otaped_in target [] otaped = ok otaped
otaped_in target ((node, seen) ∷ index) otaped = do
  more ← add_otaped target node seen otaped
  otaped_in target index more

-- `otaped_nodes`
unfoldable pub otaped_nodes : Inventory → Result (List ℕ)
unfolding otaped_in
otaped_nodes inv = otaped_in inv.target_otap_sequence inv.index []

-- `is_otaped`
unfoldable pub is_otaped : ℕ → Inventory → Result Bool
unfolding otaped_nodes
is_otaped now inv =
    if is_empty inv.target_nodes || (elim inv.target_otap_sequence [ none ↦ true | some n ↦ false ])
    then ok false
    else (do
      otaped ← otaped_nodes inv
      if issuperset otaped inv.target_nodes then ok true else (elapsed now inv >>= λ _. ok false))

-- What `frequency` reports of a node
abbrev pub frequency_of : Option ℕ → Seen → Result ℕ
frequency_of target seen =
    if truthy target
    then (do e ← last seen.events; or_raise e.otap_max key_error)
    else ok seen.count

-- The loop over the sorted nodes
unfoldable pub frequencies : Option ℕ → Dict ℕ Seen → List ℕ → Dict ℕ ℕ → Result (Dict ℕ ℕ)
frequencies target index [] d = ok d
frequencies target index (node ∷ nodes) d = do
  seen ← or_raise (lookup node index) key_error
  n ← frequency_of target seen
  frequencies target index nodes (insert node n d)

-- `_account_for_target_nodes`
unfoldable pub account_for_target_nodes : List ℕ → Dict ℕ ℕ → Dict ℕ ℕ
account_for_target_nodes [] d = d
account_for_target_nodes (node ∷ nodes) d =
    account_for_target_nodes nodes (if contains node d then d else insert node 0 d)

-- `frequency`
unfoldable pub frequency : Inventory → Result (Dict ℕ ℕ)
unfolding frequencies account_for_target_nodes
frequency inv = do
  d ← frequencies inv.target_otap_sequence inv.index (sorted (map (λ p. p.0) inv.index)) []
  ok (account_for_target_nodes inv.target_nodes d)

-- `_filter_dict`
unfoldable pub filter_dict : List ℕ → Dict ℕ ℕ → Dict ℕ ℕ
filter_dict targets [] = []
filter_dict targets ((node, n) ∷ d) =
    if has node targets then (node, n) ∷ filter_dict targets d else filter_dict targets d

-- `x >= self._target_frequency`
abbrev pub reaches : Option ℕ → ℕ → Bool
reaches none x = false
reaches (some f) x = leb f x

abbrev pub all_reach : Option ℕ → Dict ℕ ℕ → Bool
all_reach f [] = true
all_reach f ((node, n) ∷ d) = reaches f n && all_reach f d

-- `is_frequency_reached`. The target frequency is never None.
unfoldable pub is_frequency_reached : Inventory → Result Bool
unfolding frequency filter_dict
is_frequency_reached inv = if is_empty inv.target_nodes then ok false else (do
  d ← frequency inv
  ok (all_reach inv.target_frequency (filter_dict inv.target_nodes d)))

-- The loop of `frequency_by_value`: the nodes of each frequency
unfoldable pub by_value :
    Option ℕ → Dict ℕ Seen → List ℕ → Dict ℕ (List ℕ) → Result (Dict ℕ (List ℕ))
by_value target index [] d = ok d
by_value target index (node ∷ nodes) d = do
  seen ← or_raise (lookup node index) key_error
  n ← frequency_of target seen
  by_value target index nodes
      (insert n (set_add node (elim (lookup n d) [ none ↦ [] | some s ↦ s ])) d)

abbrev pub ordered : List ℕ → Dict ℕ (List ℕ) → Dict ℕ (List ℕ)
ordered [] d = []
ordered (n ∷ keys) d = (n, elim (lookup n d) [ none ↦ [] | some s ↦ s ]) ∷ ordered keys d

-- `frequency_by_value`, with the frequency itself for the label that is made of it
unfoldable pub frequency_by_value : Inventory → Result (Dict ℕ (List ℕ))
unfolding by_value
frequency_by_value inv = do
  d ← by_value inv.target_otap_sequence inv.index (sorted (map (λ p. p.0) inv.index)) []
  ok (ordered (sorted (map (λ p. p.0) d)) d)
