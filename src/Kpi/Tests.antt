-- ===== src/Kpi/Tests.antt =====
-- The inventory test on concrete messages.
use backend_client.Base.{
  ◌≡◌, ◌++◌, ◌||◌, not, refl, arith, true, false, none, some, List, [], ◌∷◌, map, inl, inr,
}
use backend_client.Base.Int.{negsuc}
use backend_client.Base.Exceptions.{ok}
use backend_client.Advertiser.{Advertised}
use backend_client.Inventory.{new_inventory, add, make_event, event_of_one}
use backend_client.Kpi.{
  Manager, Report, Turn, exit, received, empty, completed, Task, test_inventory, run_tasks, run,
}
use backend_client.Kpi.Ended.{test_inventory-IsReported}
use backend_client.Kpi.Reports.{IsReported}
use backend_client.Kpi.Tasks.{run-reports}

-- A test of the nodes 5 and 7, from 10 to 70
abbrev manager : Manager
manager = record {
  inventory = new_inventory (some (5 ∷ 7 ∷ [])) none none 10 60;
  test_sequence_number = 0;
  start_signal = false;
  exit_signal = false;
  storage_queue = none;
  tx_queue = [];
}

abbrev strong : Advertised
strong = record { time = some 1; rss = negsuc 70 ∷ []; otap = []; value = [] }

abbrev turns : List Turn
turns = received ((5, strong) ∷ []) 20 ∷ empty 30 ∷ received ((7, strong) ∷ []) 40 ∷ empty 80 ∷ []

test_inventory-IsReported_example :
    IsReported 1 70 turns manager (test_inventory 1 0 turns 90 manager)
test_inventory-IsReported_example =
    test_inventory-IsReported 1 0 90 turns manager refl
      (inr (inr (inr (inr (inr (inl (omega arith)))))))

-- It ends with the second message.
all_seen : (test_inventory 1 0 turns 90 manager).0 ≡ ok completed
unfolding test_inventory add make_event event_of_one
all_seen = refl

abbrev two_tasks : List Task
two_tasks =
    record { begins = 0; turns = turns; ends = 90 }
    ∷ record { begins = 100; turns = exit ∷ []; ends = 110 }
    ∷ []

run-reports_example :
    ((run_tasks 0 two_tasks manager).0 ≡ ok true)
    × ((not false || (run two_tasks manager).exit_signal) ≡ true)
    × ((rs : List Report) × ((run two_tasks manager).tx_queue ≡ [] ++ rs)
        × (map (λ r. r.test_sequence_number) rs ≡ 1 ∷ 2 ∷ []))
run-reports_example =
    run-reports two_tasks manager refl
      (inr (inr (inr (inr (inr (inl (omega arith))))), (inl tt, tt)))

-- The second task was ended by the exit signal.
signal_left : (run two_tasks manager).exit_signal ≡ true
unfolding run add make_event event_of_one
signal_left = refl

-- The same test for the otap sequence 9: the first node that reports no sequence ends the run.
abbrev otap_manager : Manager
otap_manager = record manager { inventory = new_inventory (some (5 ∷ 7 ∷ [])) (some 9) none 10 60 }

no_report :
    ((run two_tasks otap_manager).tx_queue ≡ []) × ((run two_tasks otap_manager).exit_signal ≡ true)
unfolding run add make_event event_of_one
no_report = (refl, refl)
