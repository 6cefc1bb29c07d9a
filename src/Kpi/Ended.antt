-- ===== src/Kpi/Ended.antt =====
-- The inventory test ends, and reports.
use mathlib.Core.Path.{subst}
use backend_client.Base.{ℕ, ◌+◌, ◌≡◌, refl, sym, ap, ◌∙◌, Bool, false, List}
use backend_client.Base.State.{>>=-ok}
use backend_client.Inventory.{Inventory, truthy, wait, reset}
use backend_client.Kpi.{
  Manager, Turn, Outcome, waiting, exited, out_of_time, completed, otaped, frequency_reached,
  is_waiting, loop, begin, conclude_unless, test_inventory,
}
use backend_client.Kpi.Ready.{IsReady}
use backend_client.Kpi.Rounds.{HasReason, Justifies, loop-LeavesLoop}
use backend_client.Kpi.Kept.{loop-Keeps}
use backend_client.Kpi.Reports.{IsReported, conclude-IsReported}

-- The deadline of a test that starts at `now`
abbrev pub deadline_from : ℕ → Inventory → ℕ
deadline_from now inv = now + inv.start_delay + inv.maximum_duration

begun-IsReady :
    (number now : ℕ) (m : Manager)
    → truthy m.inventory.target_otap_sequence ≡ false
    → IsReady
        (now + m.inventory.start_delay)
        (deadline_from now m.inventory)
        (begin number now m).inventory
unfolding wait reset
begun-IsReady number now m no_otap = record {
  kept = record { same_nodes = λ n. refl; set = tt; distinct = tt; counted = tt };
  starts = refl;
  ends = refl;
  no_otap = no_otap;
}

-- Where a turn is a reason to end, the loop does not wait.
not_waiting :
    (deadline : ℕ) (set : Bool) (turns : List Turn) (o : Outcome) (inv : Inventory)
    → HasReason deadline set turns
    → Justifies deadline set turns o inv
    → is_waiting o ≡ false
not_waiting deadline set turns waiting inv reason j = absurd (j reason)
not_waiting deadline set turns exited inv reason j = refl
not_waiting deadline set turns out_of_time inv reason j = refl
not_waiting deadline set turns completed inv reason j = refl
not_waiting deadline set turns otaped inv reason j = refl
not_waiting deadline set turns frequency_reached inv reason j = refl

-- An inventory test that tracks no otap sequence ends, whatever messages arrive, if the exit signal is set
-- before it or meanwhile, or a turn comes at its deadline or later, and then sends exactly one report: under the test's
-- number, with the nodes that were observed, and with the count of every target node. It ends for one of
-- the reasons that it logs, and the reason holds: the signal, the deadline, or that all targets are seen,
-- have the sequence, or were counted as often as asked. Afterwards the signal is set exactly if it was
-- before or if it ended the test.
pub test_inventory-IsReported :
    (number now end : ℕ) (turns : List Turn) (m : Manager)
    → truthy m.inventory.target_otap_sequence ≡ false
    → HasReason (deadline_from now m.inventory) m.exit_signal turns
    → IsReported number
        (deadline_from now m.inventory)
        turns
        m
        (test_inventory number now turns end m)
unfolding test_inventory wait reset
test_inventory-IsReported number now end turns m no_otap reason =
    let deadline = deadline_from now m.inventory in
    let start = now + m.inventory.start_delay in
    let m0 = begin number now m in
    let (o, p, j, ready, signal) =
      loop-LeavesLoop start deadline turns m0 (begun-IsReady number now m no_otap) in
    let m1 = (loop turns m0).1 in
    let ended = not_waiting deadline m.exit_signal turns o m1.inventory reason j in
    subst (IsReported number deadline turns m)
      (sym (
        >>=-ok (loop turns) (λ o. conclude_unless (is_waiting o) end o) {s = m0}
          (ap (λ q. (q, m1)) p)
        ∙ ap (λ b. conclude_unless b end o m1) ended))
      (conclude-IsReported number start deadline end turns o m m1 ended j ready signal
        (loop-Keeps m0 turns m0 (refl, refl, (refl, refl, refl))))
