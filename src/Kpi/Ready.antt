-- ===== src/Kpi/Ready.antt =====
-- The inventory of a running test, and what the tests of its loop return.
use backend_client.Base.{
  ℕ, ◌≤◌, ◌≡◌, ◌↔◌, refl, ap, ◌∙◌, Bool, true, false, Option, some, List, [], ◌∷◌, arith, inl, inr,
  All, Bool-cases, Option-cases,
}
use backend_client.Base.Dict.{Dict}
use backend_client.Base.Int.{ℤ, pos, leb_ℤ, sub_ℕ}
use backend_client.Base.Exceptions.{ok}
use backend_client.Base.State.{>>=-ok}
use backend_client.Advertiser.{Advertised}
use backend_client.Inventory.{Inventory, add, is_empty, truthy, is_out_of_time}
use backend_client.Inventory.Kept.{IsInventory, make_event-cases, add-IsInventory}
use backend_client.Inventory.Counts.{reaches, is_otaped, is_frequency_reached}
use backend_client.Inventory.Counted.{seen_count}
use backend_client.Inventory.Frequency.{is_frequency_reached_iff}
use backend_client.Inventory.Otap.{IsOtaped, is_otaped_iff}
use backend_client.Kpi.{add_nodes}

-- The inventory is well-formed and its test has started. It tracks no otap sequence.
pub record IsReady (start deadline : ℕ) (inv : Inventory) : Type 0 where
  pub kept : IsInventory inv
  pub starts : inv.start ≡ some start
  pub ends : inv.deadline ≡ some deadline
  pub no_otap : truthy inv.target_otap_sequence ≡ false

-- There are target nodes, and every one has the target sequence, which is 0 here.
abbrev pub AreOtaped : Inventory → Type 0
AreOtaped inv =
    (is_empty inv.target_nodes ≡ false)
    × ((t : ℕ) × (inv.target_otap_sequence ≡ some t) × All (IsOtaped t inv) inv.target_nodes)

-- There are target nodes, and every one was counted as often as asked.
abbrev pub AreCounted : Inventory → Type 0
AreCounted inv =
    (is_empty inv.target_nodes ≡ false)
    × All (λ n. reaches inv.target_frequency (seen_count n inv) ≡ true) inv.target_nodes

-- What a test does not change of its inventory
abbrev pub SameSettings : Inventory → Inventory → Type 0
SameSettings inv inv' =
    (inv'.start_delay ≡ inv.start_delay)
    × (inv'.maximum_duration ≡ inv.maximum_duration)
    × (inv'.target_otap_sequence ≡ inv.target_otap_sequence)

pub SameSettings-trans :
    (a b c : Inventory) → SameSettings a b → SameSettings b c → SameSettings a c
SameSettings-trans a b c first second = (second.0 ∙ first.0, second.1 ∙ first.1, second.2 ∙ first.2)

-- `add` leaves the times and the targets alone.
pub add_frame :
    (node : ℕ) (rss : List ℤ) (otap : List ℕ) (time : Option ℕ) (inv : Inventory)
    → let after = (add node (some rss) (some otap) time inv).1 in
      (after.start ≡ inv.start) × (after.deadline ≡ inv.deadline) × SameSettings inv after
unfolding add
add_frame node rss otap time inv = elim (make_event-cases (some rss) (some otap)) [
  | inl (p, _) ↦ rw (add, p) (refl, refl, (refl, refl, refl))
  | inr ((e, p), _) ↦ rw (add, p) (refl, refl, (refl, refl, refl))
]

module _ {start deadline : ℕ} where
  add-IsReady :
      (node : ℕ) (rss : List ℤ) (otap : List ℕ) (time : Option ℕ) (inv : Inventory)
      → IsReady start deadline inv
      → (inv' : Inventory) × (add node (some rss) (some otap) time inv ≡ (ok tt, inv'))
        × IsReady start deadline inv'
  unfolding add
  add-IsReady node rss otap time inv r =
      let after = (add node (some rss) (some otap) time inv).1 in
      let (returned, kept) =
        add-IsInventory node (some rss) (some otap) time inv ((λ z. cc), inr (λ z. cc)) r.kept in
      let (start_kept, deadline_kept, settings) = add_frame node rss otap time inv in
      (
        after,
        ap (λ q. (q, after)) returned,
        record {
          kept = kept;
          starts = start_kept ∙ r.starts;
          ends = deadline_kept ∙ r.ends;
          no_otap = ap truthy settings.2 ∙ r.no_otap;
        },
      )

  pub add_nodes-IsReady :
      (adv : Dict ℕ Advertised) (inv : Inventory)
      → IsReady start deadline inv
      → (inv' : Inventory) × (add_nodes adv inv ≡ (ok tt, inv')) × IsReady start deadline inv'
  unfolding add_nodes
  add_nodes-IsReady [] inv r = (inv, refl, r)
  add_nodes-IsReady ((node, d) ∷ adv) inv r =
      let (inv1, p, r1) = add-IsReady node d.rss d.otap d.time inv r in
      let (inv2, q, r2) = add_nodes-IsReady adv inv1 r1 in
      (inv2, >>=-ok (add node (some d.rss) (some d.otap) d.time) (λ _. add_nodes adv) p ∙ q, r2)

module _ {start deadline : ℕ} (now : ℕ) (inv : Inventory) (r : IsReady start deadline inv) where
  pub is_out_of_time-ready :
      (b : Bool) × (is_out_of_time now inv ≡ ok b) × (b ≡ true ↔ deadline ≤ now)
  unfolding is_out_of_time
  is_out_of_time-ready =
      let b = leb_ℤ (sub_ℕ deadline now) (pos 0) in
      (b, rw (is_out_of_time, r.ends) refl, (λ h. ground arith, λ h. ground arith))

  pub is_otaped-ready : (b : Bool) × (is_otaped now inv ≡ ok b) × (b ≡ true → AreOtaped inv)
  unfolding is_otaped
  is_otaped-ready = elim (Bool-cases (is_empty inv.target_nodes)) [
    | inl no_targets ↦ (false, rw (is_otaped, no_targets) refl, λ h. absurd (cc h))
    | inr targets ↦ elim (Option-cases inv.target_otap_sequence) [
      | inl no_target ↦ (false, rw (is_otaped, targets, no_target) refl, λ h. absurd (cc h))
      | inr (t, target) ↦
          let (b, p, h) = is_otaped_iff now t start inv r.kept target targets r.starts in
          (b, p, λ q. (targets, (t, target, h.0 q)))
    ]
  ]

  pub is_frequency_reached-ready :
      (b : Bool) × (is_frequency_reached inv ≡ ok b) × (b ≡ true → AreCounted inv)
  unfolding is_frequency_reached
  is_frequency_reached-ready = elim (Bool-cases (is_empty inv.target_nodes)) [
    | inl no_targets ↦ (false, rw (is_frequency_reached, no_targets) refl, λ h. absurd (cc h))
    | inr targets ↦
        let (b, p, h) = is_frequency_reached_iff inv r.kept r.no_otap targets in
        (b, p, λ q. (targets, h.0 q))
  ]
