-- ===== src/Kpi/Reports.antt =====
-- The report of an inventory test.
use mathlib.Core.Path.{subst}
use backend_client.Base.{
  ℕ, ◌≡◌, refl, sym, ap, ◌∙◌, ◌||◌, Bool, true, false, Option, none, some, List, [], ◌∷◌, ◌++◌, map,
  length, All, nat_eq,
}
use backend_client.Base.Dict.{Dict, lookup, insert, contains, contains-some}
use backend_client.Base.Int.{sub_ℕ}
use backend_client.Base.Exceptions.{Result, ok}
use backend_client.Base.State.{>>=-ok, ◌>>◌, done, modify}
use backend_client.Inventory.{Inventory, Seen, truthy, finish, elapsed}
use backend_client.Inventory.Sets.{has, set_add, sorted, has-sorted}
use backend_client.Inventory.Counts.{by_value, ordered, frequency, frequency_by_value}
use backend_client.Inventory.Kept.{IsInventory}
use backend_client.Inventory.Counted.{seen_count}
use backend_client.Inventory.Targets.{has-keys}
use backend_client.Inventory.Frequency.{frequency-lookup, All-members}
use backend_client.Kpi.{
  Report, Manager, Turn, Outcome, waiting, exited, out_of_time, completed, otaped,
  frequency_reached, put_inventory, is_waiting, report_of, reported, report, send, conclude,
}
use backend_client.Kpi.Ready.{IsReady, SameSettings}
use backend_client.Kpi.Rounds.{Justifies, is_exited}

-- `frequency_by_value` returns where no otap sequence is tracked.
by_value-ok :
    (target : Option ℕ) (index : Dict ℕ Seen) (nodes : List ℕ) (d : Dict ℕ (List ℕ))
    → truthy target ≡ false
    → All (λ n. contains n index ≡ true) nodes
    → (d' : Dict ℕ (List ℕ)) × (by_value target index nodes d ≡ ok d')
unfolding by_value
by_value-ok target index [] d t all = (d, refl)
by_value-ok target index (node ∷ nodes) d t all =
    let (s, there) = contains-some node index all.0 in
    let (d', p) =
      by_value-ok target index nodes
        (insert s.count (set_add node (elim (lookup s.count d) [ none ↦ [] | some s ↦ s ])) d) t
        all.1 in
    (d', rw (there, t) p)

frequency_by_value-ok :
    (inv : Inventory)
    → IsInventory inv
    → truthy inv.target_otap_sequence ≡ false
    → (v : Dict ℕ (List ℕ)) × (frequency_by_value inv ≡ ok v)
unfolding frequency_by_value
frequency_by_value-ok inv i t =
    let keys : List ℕ = map (λ p. p.0) inv.index in
    let (d, p) = by_value-ok inv.target_otap_sequence inv.index (sorted keys) [] t (
      All-members (λ n. contains n inv.index ≡ true) (sorted keys)
        (λ n h. sym (has-sorted n keys ∙ has-keys n inv.index) ∙ h)) in
    (ordered (sorted (map (λ p. p.0) d)) d, rw p refl)

-- What a report tells of an inventory
abbrev pub Tells : Report → Inventory → Type 0
Tells r inv =
    (r.observed ≡ inv.nodes)
    × (r.observed_total ≡ length inv.nodes)
    × ((n : ℕ)
        → has n inv.target_nodes ≡ true
        → lookup n r.node_frequency ≡ some (seen_count n inv))

report-Tells :
    (start deadline now : ℕ) (m : Manager)
    → IsReady start deadline m.inventory
    → (r : Report) × (report now m ≡ (ok r, put_inventory (finish now m.inventory) m))
      × (r.test_sequence_number ≡ m.test_sequence_number)
      × Tells r m.inventory
unfolding report
report-Tells start deadline now m r =
    let inv = finish now m.inventory in
    let m1 = put_inventory inv m in
    let seconds : elapsed now inv ≡ ok (sub_ℕ now start) = rw r.starts refl in
    let kept : IsInventory inv = record {
      same_nodes = r.kept.same_nodes;
      set = r.kept.set;
      distinct = r.kept.distinct;
      counted = r.kept.counted;
    } in
    let (nodes, p, distinct, told) = frequency-lookup inv kept r.no_otap in
    let (values, q) = frequency_by_value-ok inv kept r.no_otap in
    (
      report_of m1 (sub_ℕ now start) nodes values,
      ap (λ e. (reported m1 e (frequency inv) (frequency_by_value inv), m1)) seconds
          ∙ ap (λ f. (reported m1 (ok (sub_ℕ now start)) f (frequency_by_value inv), m1)) p
          ∙ ap (λ v. (reported m1 (ok (sub_ℕ now start)) (ok nodes) v, m1)) q,
      refl,
      (refl, refl, told),
    )

-- A test that reports: its outcome is one of those that end the loop, and is justified, and one report
-- more is sent, which tells of the inventory. The exit signal is set if it was, or if it ended the test;
-- the settings stay.
pub record IsReported (number deadline : ℕ) (turns : List Turn) (m : Manager)
    (q : Result Outcome × Manager) : Type 0 where
  pub outcome : Outcome
  pub report_sent : Report
  pub returned : q.0 ≡ ok outcome
  pub ended : is_waiting outcome ≡ false
  pub justified : Justifies deadline m.exit_signal turns outcome q.1.inventory
  pub sent : q.1.tx_queue ≡ m.tx_queue ++ report_sent ∷ []
  pub numbered : report_sent.test_sequence_number ≡ number
  pub tells : Tells report_sent q.1.inventory
  pub signal : q.1.exit_signal ≡ (m.exit_signal || is_exited outcome)
  pub same_settings : SameSettings m.inventory q.1.inventory

-- What justified the end of the loop does so after the inventory is finished.
Justifies-finish :
    (deadline : ℕ) (set : Bool) (turns : List Turn) (o : Outcome) (now : ℕ) (inv : Inventory)
    → Justifies deadline set turns o inv
    → Justifies deadline set turns o (finish now inv)
Justifies-finish deadline set turns waiting now inv j = j
Justifies-finish deadline set turns exited now inv j = j
Justifies-finish deadline set turns out_of_time now inv j = j
Justifies-finish deadline set turns completed now inv j = record {
  targets = j.targets;
  no_frequency = j.no_frequency;
  no_otap = j.no_otap;
  seen = j.seen;
}
Justifies-finish deadline set turns otaped now inv j = j
Justifies-finish deadline set turns frequency_reached now inv j = j

IsReady-finish :
    (start deadline now : ℕ) (inv : Inventory)
    → IsReady start deadline inv
    → IsReady start deadline (finish now inv)
IsReady-finish start deadline now inv r = record {
  kept = record {
    same_nodes = r.kept.same_nodes;
    set = r.kept.set;
    distinct = r.kept.distinct;
    counted = r.kept.counted;
  };
  starts = r.starts;
  ends = r.ends;
  no_otap = r.no_otap;
}

-- After the loop
pub conclude-IsReported :
    (number start deadline now : ℕ) (turns : List Turn) (o : Outcome) (before m : Manager)
    → is_waiting o ≡ false
    → Justifies deadline before.exit_signal turns o m.inventory
    → IsReady start deadline m.inventory
    → (m.exit_signal ≡ (before.exit_signal || is_exited o))
    → (m.tx_queue ≡ before.tx_queue)
      × (m.test_sequence_number ≡ number)
      × SameSettings before.inventory m.inventory
    → IsReported number deadline turns before (conclude now o m)
unfolding report
conclude-IsReported number start deadline now turns o before m ended j ready signal kept =
    let m1 = put_inventory (finish now m.inventory) m in
    let (r, p, n, told) =
      report-Tells start deadline now m1 (IsReady-finish start deadline now m.inventory ready) in
    let m2 = put_inventory (finish now m1.inventory) m1 in
    subst (IsReported number deadline turns before)
      (sym (>>=-ok (report now) (λ r. modify (send r) >> done o) {s = m1} p))
      (record {
        outcome = o;
        report_sent = r;
        returned = refl;
        ended = ended;
        justified = Justifies-finish deadline before.exit_signal turns o now m.inventory j;
        sent = ap (λ t. t ++ r ∷ []) kept.0;
        numbered = n ∙ kept.1;
        tells = told;
        signal = signal;
        same_settings = kept.2;
      })
