-- ===== src/Kpi/Tasks.antt =====
-- All tasks of a test manager report.
use mathlib.Core.Path.{subst}
use backend_client.Base.{
  ℕ, suc, ◌++◌, [], ◌∷◌, Bool, true, map, All, All-map, ◌≡◌, arith, ◌⊎◌, refl, sym, ap, ◌∙◌, ◌||◌,
  not, inl, inr, false, List,
}
use backend_client.Base.Exceptions.{Result, ok}
use mathlib.Core.List.{append-nil, append_assoc}
use backend_client.Base.State.{>>=-ok}
use backend_client.Inventory.{Inventory, truthy}
use backend_client.Kpi.{
  Report, Task, run_tasks, run, next_unless, reset_signal, Manager, Outcome, is_waiting,
  test_inventory,
}
use backend_client.Kpi.Ready.{SameSettings}
use backend_client.Kpi.Rounds.{HasExit, IsLate, HasReason, is_exited}
use backend_client.Kpi.Ended.{deadline_from, test_inventory-IsReported}
use mathlib.Core.Path.{ap₂}
use backend_client.Kpi.{M}

-- The numbers of the next tests
abbrev pub numbers : ℕ → List Task → List ℕ
numbers task_counter [] = []
numbers task_counter (task ∷ tasks) = suc task_counter ∷ numbers (suc task_counter) tasks

-- The test of a task ends: the exit signal, or a turn at its deadline or later.
abbrev pub HasEnd : Inventory → Task → Type 0
HasEnd inv task = HasExit task.turns ⊎ IsLate (deadline_from task.begins inv) task.turns

HasEnd-same :
    (inv inv' : Inventory)
    → SameSettings inv inv'
    → (task : Task) → HasEnd inv task
    → HasEnd inv' task
HasEnd-same inv inv' same task h =
    let same_deadline : deadline_from task.begins inv ≡ deadline_from task.begins inv' =
      omega (arith, same.0, same.1) in
    subst (λ d. HasExit task.turns ⊎ IsLate d task.turns) same_deadline h

-- Every task meets an end, or the exit signal is set from the start, which ends them all at once.
abbrev pub HaveEnds : Bool → Inventory → List Task → Type 0
HaveEnds set inv tasks = (set ≡ true) ⊎ All (HasEnd inv) tasks

-- What the tasks leave: a report of each, in their order, and the exit signal set where it was
abbrev pub Reports : List ℕ → Manager → Result Bool × Manager → Type 0
Reports ns m q =
    (q.0 ≡ ok true)
    × ((not m.exit_signal || q.1.exit_signal) ≡ true)
    × ((rs : List Report) × (q.1.tx_queue ≡ m.tx_queue ++ rs)
        × (map (λ r. r.test_sequence_number) rs ≡ ns))

first_reason :
    (set : Bool) (inv : Inventory) (task : Task) (tasks : List Task)
    → HaveEnds set inv (task ∷ tasks)
    → HasReason (deadline_from task.begins inv) set task.turns
first_reason set inv task tasks (inl is_set) = inl is_set
first_reason set inv task tasks (inr (first, all)) = inr first

-- The signal or the ends are there for the other tasks too.
HaveEnds-tail :
    (set exited : Bool) (inv inv' : Inventory) (task : Task) (tasks : List Task)
    → SameSettings inv inv'
    → HaveEnds set inv (task ∷ tasks)
    → HaveEnds (set || exited) inv' tasks
HaveEnds-tail set exited inv inv' task tasks same (inl is_set) = inl (rw is_set refl)
HaveEnds-tail set exited inv inv' task tasks same (inr (first, all)) =
    inr (All-map tasks (HasEnd-same inv inv' same) all)

-- A signal that one test keeps set, the others do.
still_set : (a b c : Bool) → (not (a || b) || c) ≡ true → (not a || c) ≡ true
still_set true b c h = h
still_set false b c h = refl

run_tasks-Reports :
    (task_counter : ℕ) (tasks : List Task) (m : Manager)
    → truthy m.inventory.target_otap_sequence ≡ false
    → HaveEnds m.exit_signal m.inventory tasks
    → Reports (numbers task_counter tasks) m (run_tasks task_counter tasks m)
unfolding run_tasks
run_tasks-Reports task_counter [] m no_otap ends =
    (refl, same m.exit_signal, ([], sym (append-nil m.tx_queue), refl))
  where
    same : (b : Bool) → (not b || b) ≡ true
    same true = refl
    same false = refl
run_tasks-Reports task_counter (task ∷ tasks) m no_otap ends =
    let number = suc task_counter in
    let test : M Outcome = test_inventory number task.begins task.turns task.ends in
    let r =
      test_inventory-IsReported number task.begins task.ends task.turns m no_otap
        (first_reason m.exit_signal m.inventory task tasks ends) in
    let m1 = (test m).1 in
    let after : HaveEnds m1.exit_signal m1.inventory tasks =
      subst (λ b. HaveEnds b m1.inventory tasks) (sym r.signal)
        (HaveEnds-tail m.exit_signal (is_exited r.outcome) m.inventory m1.inventory task tasks
          r.same_settings ends) in
    let (done, signal, (rs, sent, numbered)) =
      run_tasks-Reports number tasks (reset_signal m1) (ap truthy r.same_settings.2 ∙ no_otap)
        after in
    let last = (run_tasks number tasks (reset_signal m1)).1.exit_signal in
    subst (Reports (number ∷ numbers number tasks) m)
      (sym (
        >>=-ok test (λ o. next_unless (is_waiting o) (run_tasks number tasks)) {s = m}
          (ap (λ q. (q, m1)) r.returned)
        ∙ ap (λ b. next_unless b (run_tasks number tasks) m1) r.ended))
      (
        done,
        still_set m.exit_signal (is_exited r.outcome) last
            (sym (ap (λ b. not b || last) r.signal) ∙ signal),
        (
          r.report_sent ∷ rs,
          sent ∙ ap (λ t. t ++ rs) r.sent ∙ append_assoc m.tx_queue (r.report_sent ∷ []) rs,
          ap₂ (λ n ns. n ∷ ns) r.numbered numbered,
        ),
      )

-- Where no otap sequence is tracked, and the exit signal is set from the start or every task meets an end,
-- `run` executes all tasks and catches no exception: each task sends one report, in their order, numbered
-- from 1 on, also those that an exit signal ends at once. A signal that was set is still set.
pub run-reports :
    (tasks : List Task) (m : Manager)
    → truthy m.inventory.target_otap_sequence ≡ false
    → HaveEnds m.exit_signal m.inventory tasks
    → ((run_tasks 0 tasks m).0 ≡ ok true)
      × ((not m.exit_signal || (run tasks m).exit_signal) ≡ true)
      × ((rs : List Report) × ((run tasks m).tx_queue ≡ m.tx_queue ++ rs)
          × (map (λ r. r.test_sequence_number) rs ≡ numbers 0 tasks))
unfolding run
run-reports tasks m no_otap ends =
    let (done, signal, sent) = run_tasks-Reports 0 tasks m no_otap ends in
    rw (run, done) (refl, signal, sent)
