-- ===== src/Inventory/Completion.antt =====
-- When the inventory of the target nodes is complete.
use backend_client.Base.{
  ℕ, ◌≡◌, ◌↔◌, refl, ap, Bool, true, false, not, none, some, arith, inl, inr, All, Bool-cases,
  Option-cases,
}
use backend_client.Base.Exceptions.{ok}
use backend_client.Inventory.Sets.{has, issuperset, issuperset_iff}
use backend_client.Inventory.{Inventory, truthy, is_empty, is_complete}

-- What `is_complete` asks for
pub record IsComplete (inv : Inventory) : Type 0 where
  pub targets : is_empty inv.target_nodes ≡ false
  pub no_frequency : inv.target_frequency ≡ none
  pub no_otap : truthy inv.target_otap_sequence ≡ false
  pub seen : All (λ n. has n inv.nodes ≡ true) inv.target_nodes

-- In a round that was started `is_complete` returns, and returns True exactly if there are target
-- nodes, no target frequency and no target otap sequence, and every target node is among the nodes.
pub is_complete_iff :
    (now : ℕ) (inv : Inventory) (t : ℕ)
    → inv.start ≡ some t
    → (b : Bool) × (is_complete now inv ≡ ok b) × (b ≡ true ↔ IsComplete inv)
unfolding is_complete
is_complete_iff now inv t started = elim (Bool-cases (is_empty inv.target_nodes)) [
  | inl empty ↦ (
    false,
    rw (is_complete, empty) refl,
    (λ h. absurd (cc h), λ c. absurd (let z = c.targets in cc)),
  )
  | inr targets ↦ elim (Option-cases inv.target_frequency) [
    | inr (f, p) ↦ (
      false,
      rw (is_complete, targets, p) refl,
      (λ h. absurd (cc h), λ c. absurd (let z = c.no_frequency in cc)),
    )
    | inl p ↦ elim (Bool-cases (issuperset inv.nodes inv.target_nodes)) [
      | inr q ↦ (
        false,
        rw (is_complete, targets, p, q, started) refl,
        (
          λ h. absurd (cc h),
          λ c. absurd (let z = (issuperset_iff inv.nodes inv.target_nodes).1 c.seen in cc),
        ),
      )
      | inl q ↦ (
        not (truthy inv.target_otap_sequence),
        rw (is_complete, targets, p, q) refl,
        (
          λ h. record {
            targets = targets;
            no_frequency = p;
            no_otap = ground arith;
            seen = (issuperset_iff inv.nodes inv.target_nodes).0 q;
          },
          λ c. ap (λ b. not b) c.no_otap,
        ),
      )
    ]
  ]
]
