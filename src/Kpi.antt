-- ===== src/Kpi.antt =====
-- The inventory test of wirepas_backend_client/test/kpi_adv.py, and the tasks of
-- wirepas_backend_client/test/manager.py.
pub mod Ready
pub mod Rounds
pub mod Kept
pub mod Reports
pub mod Ended
pub mod Tasks
mod Tests
use backend_client.Base.{
  ℕ, suc, ◌+◌, Bool, true, false, Option, none, some, List, [], ◌∷◌, ◌++◌, length, if◌then◌else◌,
}
use backend_client.Base.Dict.{Dict}
use backend_client.Base.Int.{ℤ}
use backend_client.Base.Exceptions.{Result, ok, err}
use backend_client.Base.State.{State, ◌>>=◌, ◌>>◌, done, gets, lift, modify}
use backend_client.Advertiser.{Advertised}
use backend_client.Inventory.{
  Inventory, wait, add, is_out_of_time, is_complete, finish, elapsed, difference,
}
use backend_client.Inventory.Counts.{is_otaped, is_frequency_reached, frequency, frequency_by_value}

-- The dictionary that `report` makes
pub record Report : Type 0 where
  pub test_sequence_number : ℕ
  pub start : Option ℕ
  pub end : Option ℕ
  pub elapsed : ℤ
  pub difference : List ℕ
  pub inventory_target_nodes : List ℕ
  pub inventory_target_otap : Option ℕ
  pub inventory_target_frequency : Option ℕ
  pub node_frequency : Dict ℕ ℕ
  pub frequency_by_value : Dict ℕ (List ℕ)
  pub observed_total : ℕ
  pub observed : List ℕ

-- AdvertiserManager: its signals, and what it has put into its queues. A message is its `apdu["adv"]`.
pub record Manager : Type 0 where
  pub inventory : Inventory
  pub test_sequence_number : ℕ
  pub start_signal : Bool
  pub exit_signal : Bool
  pub storage_queue : Option (List (Dict ℕ Advertised))
  pub tx_queue : List Report

abbrev pub M : Type 0 → Type 0
M = State Manager

-- What the loop meets, and when: another process sets the exit signal, a message comes, or none within
-- the timeout. The clock is read at most three times a round, and only its first reading matters.
pub data Turn : Type 0 where
  exit : Turn
  received : (adv : Dict ℕ Advertised) → (now : ℕ) → Turn
  empty : (now : ℕ) → Turn

-- How the loop was left: by the signal, or by one of the breaks. It may wait for more turns.
pub data Outcome : Type 0 where
  waiting exited out_of_time completed otaped frequency_reached : Outcome

abbrev pub put_inventory : Inventory → Manager → Manager
put_inventory inv m = record m { inventory = inv }

abbrev pub on_inventory : {A : Type 0} → State Inventory A → M A
on_inventory f m = let (r, inv) = f m.inventory in (r, put_inventory inv m)

-- The loop over the nodes of a message
unfoldable pub add_nodes : Dict ℕ Advertised → State Inventory (Unit {0})
add_nodes [] = done tt
add_nodes ((node, details) ∷ adv) =
    add node (some details.rss) (some details.otap) details.time >> add_nodes adv

-- `if …: break`, or what follows
abbrev pub or_break : Outcome → M Outcome → Bool → M Outcome
or_break outcome next true = done outcome
or_break outcome next false = next

abbrev pub break_if : (Inventory → Result Bool) → Outcome → M Outcome → M Outcome
break_if test outcome next = gets (λ m. test m.inventory) >>= λ r. lift r >>= or_break outcome next

abbrev pub store : Dict ℕ Advertised → Manager → Manager
store adv m = record m {
  storage_queue = elim m.storage_queue [ none ↦ none | some q ↦ some (q ++ adv ∷ []) ];
}

-- `self.exit_signal.set()`
abbrev pub set_exit : Manager → Manager
set_exit m = record m { exit_signal = true }

-- A round of the loop, or what happens between two of them
unfoldable pub round : Turn → M Outcome
unfolding add_nodes is_out_of_time is_complete is_otaped is_frequency_reached
round exit = modify set_exit >> done waiting
round (empty now) = break_if (is_out_of_time now) out_of_time (done waiting)
round (received adv now) =
    modify (store adv)
    >> (on_inventory (add_nodes adv)
        >> break_if (is_out_of_time now) out_of_time (
            break_if (is_complete now) completed (
              break_if (is_otaped now) otaped
                (break_if is_frequency_reached frequency_reached (done waiting)))))

abbrev pub is_waiting : Outcome → Bool
is_waiting waiting = true
is_waiting _ = false

abbrev pub go_on : Outcome → M Outcome → M Outcome
go_on outcome next = elim (is_waiting outcome) [ true ↦ next | false ↦ done outcome ]

-- The loop of `test_inventory`: `while not self.exit_signal.is_set()`
abbrev pub while_not : M Outcome → Bool → M Outcome
while_not next true = done exited
while_not next false = next

unfoldable pub loop : List Turn → M Outcome
unfolding round
loop [] = gets (λ m. m.exit_signal) >>= while_not (done waiting)
loop (turn ∷ turns) =
    gets (λ m. m.exit_signal) >>= while_not (round turn >>= λ outcome. go_on outcome (loop turns))

abbrev pub report_of : Manager → ℤ → Dict ℕ ℕ → Dict ℕ (List ℕ) → Report
report_of m seconds nodes values = record {
  test_sequence_number = m.test_sequence_number;
  start = m.inventory.start;
  end = m.inventory.finished;
  elapsed = seconds;
  difference = difference m.inventory;
  inventory_target_nodes = m.inventory.target_nodes;
  inventory_target_otap = m.inventory.target_otap_sequence;
  inventory_target_frequency = m.inventory.target_frequency;
  node_frequency = nodes;
  frequency_by_value = values;
  observed_total = length m.inventory.nodes;
  observed = m.inventory.nodes;
}

-- The entries of the report in their order, of which the first that raises ends it
abbrev pub reported :
    Manager → Result ℤ → Result (Dict ℕ ℕ) → Result (Dict ℕ (List ℕ)) → Result Report
reported m (err x) nodes values = err x
reported m (ok seconds) (err x) values = err x
reported m (ok seconds) (ok nodes) (err x) = err x
reported m (ok seconds) (ok nodes) (ok values) = ok (report_of m seconds nodes values)

-- `report`, which finishes the inventory once more
unfoldable pub report : ℕ → M Report
unfolding frequency frequency_by_value
report now m0 =
    let m = put_inventory (finish now m0.inventory) m0 in
    let inv = m.inventory in
    (reported m (elapsed now inv) (frequency inv) (frequency_by_value inv), m)

abbrev pub begin : ℕ → ℕ → Manager → Manager
begin number now m = record m {
  test_sequence_number = number;
  inventory = wait now (record m.inventory { sequence = some number });
  start_signal = true;
}

abbrev pub send : Report → Manager → Manager
send r m = record m { tx_queue = m.tx_queue ++ r ∷ [] }

-- What follows the loop, with the outcome of the loop
abbrev pub conclude : ℕ → Outcome → M Outcome
unfolding report
conclude now outcome =
    modify (λ m. put_inventory (finish now m.inventory) m)
    >> (report now >>= λ r. modify (send r) >> done outcome)

abbrev pub conclude_unless : Bool → ℕ → Outcome → M Outcome
unfolding report
conclude_unless true now outcome = done outcome
conclude_unless false now outcome = conclude now outcome

-- `test_inventory`, from its start at `now` to its end. With no more turns it still waits.
unfoldable pub test_inventory : ℕ → ℕ → List Turn → ℕ → M Outcome
unfolding wait loop report
test_inventory number now turns end =
    modify (begin number now)
    >> (loop turns >>= λ outcome. conclude_unless (is_waiting outcome) end outcome)

-- A task that is registered: when it starts, what it meets, and when it ends
pub record Task : Type 0 where
  pub begins : ℕ
  pub turns : List Turn
  pub ends : ℕ

-- `reset`, and the tasks that follow, unless a task still waits
abbrev pub reset_signal : Manager → Manager
reset_signal m = record m { start_signal = false }

abbrev pub next_unless : Bool → M Bool → M Bool
next_unless true next = done false
next_unless false next = modify reset_signal >> next

-- The loop over the tasks of `run`, false where a task still waits. The jitter only sleeps.
unfoldable pub run_tasks : ℕ → List Task → M Bool
unfolding test_inventory
run_tasks task_counter [] = done true
run_tasks task_counter (task ∷ tasks) =
    test_inventory (suc task_counter) task.begins task.turns task.ends >>= λ outcome.
    next_unless (is_waiting outcome) (run_tasks (suc task_counter) tasks)

-- `run`: an exception of a task is logged, and sets the exit signal.
unfoldable pub run : List Task → Manager → Manager
unfolding run_tasks
run tasks m = let (r, m') = run_tasks 0 tasks m in elim r [ ok _ ↦ m' | err _ ↦ set_exit m' ]
