-- ===== src/Inventory/Otap.antt =====
-- When the target nodes have the target otap sequence.
use mathlib.Core.Bool.{or_assoc}
use backend_client.Base.{
  ℕ, ◌≤◌, ◌≡◌, ◌↔◌, ◌⊎◌, refl, sym, ap, ◌∙◌, Bool, true, false, ◌||◌, Option, none, some, List, [],
  ◌∷◌, arith, inl, inr, length, All, All-map, eqb, eqb_iff, nat_eq, if◌then◌else◌, Bool-cases,
  Option-cases, some-eq,
}
use backend_client.Base.Dict.{Dict, lookup, IsDict}
use backend_client.Base.Exceptions.{Result, ok, err, Result-cases}
use backend_client.Inventory.Sets.{has, set_add, has-set_add, issuperset, issuperset_iff}
use backend_client.Inventory.{Sighting, Seen, Inventory, is_empty}
use backend_client.Inventory.Kept.{IsSeen, IsSeen-events, IsInventory}
use backend_client.Inventory.Counts.{last, add_otaped, otaped_in, otaped_nodes, is_otaped}

-- An event carries the target as its lowest sequence, or as its highest one beside a lowest.
abbrev pub Carries : ℕ → Sighting → Type 0
Carries t e = (e.otap_min ≡ some t) ⊎ ((lo : ℕ) × (e.otap_min ≡ some lo) × (e.otap_max ≡ some t))

-- The last event of a node carries the target.
abbrev pub IsOtaped : ℕ → Inventory → ℕ → Type 0
IsOtaped t inv n =
    (s : Seen) × (e : Sighting) × (lookup n inv.index ≡ some s)
    × (last s.events ≡ ok e)
    × Carries t e

-- The same as tests
abbrev carries : ℕ → Option ℕ → Option ℕ → Bool
carries t none hi = false
carries t (some lo) none = eqb lo t
carries t (some lo) (some hi) = eqb lo t || eqb hi t

abbrev shown : ℕ → Result Sighting → Bool
shown t (err x) = false
shown t (ok e) = carries t e.otap_min e.otap_max

abbrev found : ℕ → Option Seen → Bool
found t none = false
found t (some s) = shown t (last s.events)

pub last-ok : (es : List Sighting) → 1 ≤ length es → (e : Sighting) × (last es ≡ ok e)
last-ok [] h = absurd (omega arith)
last-ok (e ∷ []) h = (e, refl)
last-ok (e ∷ f ∷ es) h = last-ok (f ∷ es) (omega arith)

add_otaped-shown :
    (t node : ℕ) (s : Seen) (otaped : List ℕ)
    → 1 ≤ length s.events
    → add_otaped (some t) node s otaped
      ≡ ok (if shown t (last s.events) then set_add node otaped else otaped)
add_otaped-shown t node s otaped h = let (e, p) = last-ok s.events h in rw p (ground arith)

has-added :
    (n node : ℕ) (b : Bool) (otaped : List ℕ)
    → has n (if b then set_add node otaped else otaped)
      ≡ (has n otaped || (if eqb n node then b else false))
has-added n node true otaped = has-set_add n node otaped ∙ ground arith
has-added n node false otaped = ground arith

found-cons :
    (t n node : ℕ) (s : Seen) (index : Dict ℕ Seen)
    → lookup node index ≡ none
    → ((if eqb n node then shown t (last s.events) else false) || found t (lookup n index))
      ≡ found t (lookup n ((node, s) ∷ index))
found-cons t n node s index fresh = elim (Bool-cases (eqb n node)) [
  | inl same ↦
      let none_left : lookup n index ≡ none =
        ap (λ k. lookup k index) ((eqb_iff n node).0 same) ∙ fresh in
      rw (same, none_left) (ground arith)
  | inr other ↦ rw other refl
]

-- What is otaped at the end was otaped before, or carries the target.
otaped_in-found :
    (t : ℕ) (index : Dict ℕ Seen) (otaped : List ℕ)
    → All IsSeen index
    → IsDict index
    → (s : List ℕ) × (otaped_in (some t) index otaped ≡ ok s)
      × ((n : ℕ) → has n s ≡ (has n otaped || found t (lookup n index)))
unfolding otaped_in
otaped_in-found t [] otaped all d = (otaped, refl, λ n. ground arith)
otaped_in-found t ((node, s) ∷ index) otaped (seen, all) (fresh, d) =
    let b = shown t (last s.events) in
    let (result, done, members) =
      otaped_in-found t index (if b then set_add node otaped else otaped) all d in
    (
      result,
      rw (add_otaped-shown t node s otaped (IsSeen-events node s seen)) done,
      λ n.
          members n
          ∙ ap (λ h. h || found t (lookup n index)) (has-added n node b otaped)
          ∙ or_assoc (has n otaped) (if eqb n node then b else false) (found t (lookup n index))
          ∙ ap (λ f. has n otaped || f) (found-cons t n node s index fresh),
    )

carries_iff :
    (t : ℕ) (lo hi : Option ℕ)
    → (carries t lo hi ≡ true) ↔ ((lo ≡ some t) ⊎ ((k : ℕ) × (lo ≡ some k) × (hi ≡ some t)))
carries_iff t none hi =
    (λ h. absurd (cc), λ c. elim c [ inl p ↦ absurd (cc) | inr (k, p, q) ↦ absurd (cc) ])
carries_iff t (some lo) none = (
  λ h. inl (ap some ((eqb_iff lo t).0 h)),
  λ c. elim c [ inl p ↦ (eqb_iff lo t).1 (some-eq p) | inr (k, p, q) ↦ absurd (cc) ],
)
carries_iff t (some lo) (some hi) = (
  λ h. elim (Bool-cases (eqb lo t)) [
    | inl same ↦ inl (ap some ((eqb_iff lo t).0 same))
    | inr other ↦ inr (lo, refl, ap some ((eqb_iff hi t).0 (rw other at h)))
  ],
  λ c. elim c [
    | inl p ↦ rw ((eqb_iff lo t).1 (some-eq p)) refl
    | inr (k, p, q) ↦ rw ((eqb_iff hi t).1 (some-eq q)) (ground arith)
  ],
)

-- A node is found exactly if its last event carries the target.
found_iff :
    (t : ℕ) (inv : Inventory) (n : ℕ) → (found t (lookup n inv.index) ≡ true) ↔ IsOtaped t inv n
found_iff t inv n = (
  λ h. elim (Option-cases (lookup n inv.index)) [
    | inl missing ↦ absurd (let h' = rw missing at h in cc)
    | inr (s, p) ↦
        let h' : shown t (last s.events) ≡ true = rw p at h in
        elim (Result-cases (last s.events)) [
          | inl (e, q) ↦ (s, e, p, q, (carries_iff t e.otap_min e.otap_max).0 (rw q at h'))
          | inr (x, q) ↦ absurd (let h'' = rw q at h' in cc)
        ]
  ],
  λ (s, e, p, q, c). rw (p, q) ((carries_iff t e.otap_min e.otap_max).1 c),
)

-- In a round that was started, of a well-formed inventory with target nodes and a target otap sequence,
-- `is_otaped` returns, and returns True exactly if the last event of every target node carries that
-- sequence, as its lowest one or as its highest one. Other nodes that carry it make no difference.
pub is_otaped_iff :
    (now t start : ℕ) (inv : Inventory)
    → IsInventory inv
    → inv.target_otap_sequence ≡ some t
    → is_empty inv.target_nodes ≡ false
    → inv.start ≡ some start
    → (b : Bool) × (is_otaped now inv ≡ ok b) × (b ≡ true ↔ All (IsOtaped t inv) inv.target_nodes)
unfolding is_otaped otaped_nodes
is_otaped_iff now t start inv i target targets started =
    let (otaped, done, members) = otaped_in-found t inv.index [] i.counted i.distinct in
    (
      issuperset otaped inv.target_nodes,
      rw (is_otaped, targets, target, done)
          (elim (Bool-cases (issuperset otaped inv.target_nodes)) [
            | inl all ↦ rw all refl
            | inr some_missing ↦ rw (some_missing, started) refl
          ]),
      (
        λ h.
            All-map inv.target_nodes (λ n p. (found_iff t inv n).0 (sym (members n) ∙ p))
              ((issuperset_iff otaped inv.target_nodes).0 h),
        λ all.
            (issuperset_iff otaped inv.target_nodes).1
              (All-map inv.target_nodes (λ n p. members n ∙ (found_iff t inv n).1 p) all),
      ),
    )
