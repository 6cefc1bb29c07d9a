-- ===== src/Kpi/Kept.antt =====
-- The loop of the inventory test sends no report.
use backend_client.Base.{ℕ, ◌≡◌, refl, Bool, true, false, some, List, [], ◌∷◌, inl, inr, nat_eq}
use backend_client.Base.Dict.{Dict}
use backend_client.Base.Exceptions.{Result, Result-cases}
use backend_client.Base.State.{◌>>=◌, >>=-holds, done}
use backend_client.Inventory.{Inventory, add, is_out_of_time, is_complete}
use backend_client.Inventory.Counts.{is_otaped, is_frequency_reached}
use backend_client.Kpi.Ready.{SameSettings, SameSettings-trans, add_frame}
use backend_client.Advertiser.{Advertised}
use backend_client.Kpi.{
  Manager, M, Turn, exit, received, empty, Outcome, waiting, exited, out_of_time, completed, otaped,
  frequency_reached, add_nodes, on_inventory, or_break, break_if, store, round, go_on, while_not,
  loop,
}

-- The loop leaves the reports, the number of the test and the settings alone.
abbrev pub Keeps : Manager → Manager → Type 0
Keeps m0 m =
    (m.tx_queue ≡ m0.tx_queue)
    × (m.test_sequence_number ≡ m0.test_sequence_number)
    × SameSettings m0.inventory m.inventory

-- Messages leave the settings of the inventory alone.
add_nodes-SameSettings :
    (inv0 : Inventory) (adv : Dict ℕ Advertised) (inv : Inventory)
    → SameSettings inv0 inv
    → SameSettings inv0 (add_nodes adv inv).1
unfolding add_nodes
add_nodes-SameSettings inv0 [] inv same = same
add_nodes-SameSettings inv0 ((node, d) ∷ adv) inv same =
    let after = (add node (some d.rss) (some d.otap) d.time inv).1 in
    let (_, _, settings) = add_frame node d.rss d.otap d.time inv in
    let still = SameSettings-trans inv0 inv after same settings in
    >>=-holds (add node (some d.rss) (some d.otap) d.time) (λ _. add_nodes adv) (SameSettings inv0)
      still (λ _ _. add_nodes-SameSettings inv0 adv after still)

-- What is stable under the nodes of a message holds after a round.
module _ (Holds : Manager → Type 0)
    (added : (adv : Dict ℕ Advertised) (m : Manager)
      → Holds m
      → Holds (on_inventory (add_nodes adv) (store adv m)).1) where
  or_break-Holds :
      (o : Outcome) (next : M Outcome) (m : Manager) (b : Bool)
      → Holds m
      → Holds (next m).1
      → Holds (or_break o next b m).1
  or_break-Holds o next m true kept later = kept
  or_break-Holds o next m false kept later = later

  break_if-Holds :
      (test : Inventory → Result Bool) (o : Outcome) (next : M Outcome) (m : Manager)
      → Holds m
      → Holds (next m).1
      → Holds (break_if test o next m).1
  break_if-Holds test o next m kept later = elim (Result-cases (test m.inventory)) [
    | inr (x, p) ↦ rw p kept
    | inl (b, p) ↦ rw p (or_break-Holds o next m b kept later)
  ]

  pub empty-Holds : (now : ℕ) (m : Manager) → Holds m → Holds (round (empty now) m).1
  unfolding round
  empty-Holds now m kept =
      break_if-Holds (is_out_of_time now) out_of_time (done waiting) m kept kept

  pub received-Holds :
      (adv : Dict ℕ Advertised) (now : ℕ) (m : Manager)
      → Holds m
      → Holds (round (received adv now) m).1
  unfolding round
  received-Holds adv now m kept =
      let counted_next : M Outcome =
        break_if is_frequency_reached frequency_reached (done waiting) in
      let otaped_next : M Outcome = break_if (is_otaped now) otaped counted_next in
      let complete_next : M Outcome = break_if (is_complete now) completed otaped_next in
      let after = (on_inventory (add_nodes adv) (store adv m)).1 in
      let still = added adv m kept in
      >>=-holds (on_inventory (add_nodes adv))
        (λ _. break_if (is_out_of_time now) out_of_time complete_next) Holds still
        (λ _ _. break_if-Holds (is_out_of_time now) out_of_time complete_next after still (
          break_if-Holds (is_complete now) completed otaped_next after still (
            break_if-Holds (is_otaped now) otaped counted_next after still (
              break_if-Holds is_frequency_reached frequency_reached (done waiting) after still
                still))))

-- A message, or none, leaves the exit signal alone.
pub received-same_signal :
    (adv : Dict ℕ Advertised) (now : ℕ) (m : Manager)
    → (round (received adv now) m).1.exit_signal ≡ m.exit_signal
received-same_signal adv now m =
    received-Holds (λ m1. m1.exit_signal ≡ m.exit_signal) (λ _ _ same. same) adv now m refl

pub empty-same_signal :
    (now : ℕ) (m : Manager) → (round (empty now) m).1.exit_signal ≡ m.exit_signal
empty-same_signal now m =
    empty-Holds (λ m1. m1.exit_signal ≡ m.exit_signal) (λ _ _ same. same) now m refl

module _ (m0 : Manager) where
  added-Keeps :
      (adv : Dict ℕ Advertised) (m : Manager)
      → Keeps m0 m
      → Keeps m0 (on_inventory (add_nodes adv) (store adv m)).1
  added-Keeps adv m (tx, number, same) =
      (tx, number, add_nodes-SameSettings m0.inventory adv m.inventory same)

  round-Keeps : (turn : Turn) (m : Manager) → Keeps m0 m → Keeps m0 (round turn m).1
  unfolding round
  round-Keeps exit m kept = kept
  round-Keeps (empty now) m kept = empty-Holds (Keeps m0) added-Keeps now m kept
  round-Keeps (received adv now) m kept = received-Holds (Keeps m0) added-Keeps adv now m kept

  go_on-Keeps :
      (o : Outcome) (turns : List Turn) (m : Manager)
      → Keeps m0 m
      → Keeps m0 (loop turns m).1
      → Keeps m0 (go_on o (loop turns) m).1
  go_on-Keeps waiting turns m kept later = later
  go_on-Keeps exited turns m kept later = kept
  go_on-Keeps out_of_time turns m kept later = kept
  go_on-Keeps completed turns m kept later = kept
  go_on-Keeps otaped turns m kept later = kept
  go_on-Keeps frequency_reached turns m kept later = kept

  while_not-Keeps :
      (next : M Outcome) (set : Bool) (m : Manager)
      → Keeps m0 m
      → Keeps m0 (next m).1
      → Keeps m0 (while_not next set m).1
  while_not-Keeps next true m kept later = kept
  while_not-Keeps next false m kept later = later

  pub loop-Keeps : (turns : List Turn) (m : Manager) → Keeps m0 m → Keeps m0 (loop turns m).1
  unfolding loop
  loop-Keeps [] m kept = while_not-Keeps (done waiting) m.exit_signal m kept kept
  loop-Keeps (turn ∷ turns) m kept =
      while_not-Keeps (round turn >>= λ o. go_on o (loop turns)) m.exit_signal m kept (
        >>=-holds (round turn) (λ o. go_on o (loop turns)) (Keeps m0) (round-Keeps turn m kept)
          (λ o _.
            go_on-Keeps o turns (round turn m).1 (round-Keeps turn m kept)
              (loop-Keeps turns (round turn m).1 (round-Keeps turn m kept))))
