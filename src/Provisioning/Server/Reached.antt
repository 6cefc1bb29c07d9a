-- ===== src/Provisioning/Server/Reached.antt =====
-- Every server that actions lead to is well-formed, and its sessions are runs of the state machine.
use mathlib.Core.Path.{subst}
use backend_client.Base.{
  ℕ, ◌≡◌, refl, sym, ap, ◌∙◌, true, not, some, List, [], ◌∷◌, ◌++◌, arith, inl, inr, nat_eq,
  Bool-cases, Option-cases, length, drop, &&_true, some-eq,
}
use backend_client.Base.Dict.{
  lookup, insert, lookup-insert_self, lookup-insert-cases, insert-IsDict,
}
use backend_client.Base.Exceptions.{ok, err}
use backend_client.Provisioning.Data.{ProvisioningData}
use backend_client.Provisioning.Events.{Event}
use backend_client.Provisioning.Machine.Defs.{Crypto, Packet}
use backend_client.Provisioning.Machine.{step, new_machine, is_ongoing}
use backend_client.Provisioning.Machine.Invariant.{Inv, session-Inv}
use backend_client.Provisioning.Machine.Rounds.{step-IsRound}
use backend_client.Provisioning.Machine.Resumed.{run-append}
use backend_client.Provisioning.Server.{
  Session, Server, new_server, has_raised, send_packet, send_packets, take_event, next_event, runs,
  act, acts, Action, receives, responds, takes_event, elapses, ends_session,
}
use backend_client.Provisioning.Server.Routing.{
  IsRun, IsServer, replace-IsServer, receive-IsServer, respond-IsServer, elapse-IsServer,
  end_session-IsServer,
}

module _ (crypto : Crypto) (draw : ℕ → ℕ) where
  send_packet-IsServer :
      (r : ℕ) (p : Packet) (o : Session) (s : Server)
      → lookup r s.objects ≡ some o
      → IsServer crypto s
      → IsServer crypto (send_packet crypto draw r p s)
  unfolding send_packet
  send_packet-IsServer r p o s found i = record {
    distinct = i.distinct;
    requests = insert-IsDict (draw (length s.request_queue)) r s.send_list i.requests;
    owned = i.owned;
    awaited = λ q r' l. elim (lookup-insert-cases q (draw (length s.request_queue)) r s.send_list) [
      | inl (same, l') ↦
          let q : r ≡ r' = some-eq (sym l' ∙ l) in (o, ap (λ z. lookup z s.objects) (sym q) ∙ found)
      | inr (other, l') ↦ i.awaited q r' (sym l' ∙ l)
    ];
    fresh = i.fresh;
    faithful = i.faithful;
  }

  send_packets-IsServer :
      (r : ℕ) (ps : List Packet) (o : Session) (s : Server)
      → lookup r s.objects ≡ some o
      → IsServer crypto s
      → IsServer crypto (send_packets crypto draw r ps s)
  unfolding send_packets send_packet
  send_packets-IsServer r [] o s found i = i
  send_packets-IsServer r (p ∷ ps) o s found i =
      send_packets-IsServer r ps o (send_packet crypto draw r p s) found
        (send_packet-IsServer r p o s found i)

  -- The round of an event leads from a run to a run.
  step-IsRun :
      (whitelist : ProvisioningData) (o : Session) (e : Event) (rest : List Event)
      → runs o ≡ true
      → IsRun crypto whitelist o
      → let (q, m) = step crypto e o.machine in
        (m.sm_id ≡ o.machine.sm_id)
        × IsRun crypto whitelist (record { machine = m; queue = rest; crashed = has_raised q })
  unfolding IsRun
  step-IsRun whitelist o e rest live (counter, es, ok tt', h, c) =
      let (on', off) = &&_true (not o.crashed) (is_ongoing o.machine.status) live in
      let next =
        run-append crypto es e (new_machine o.machine.sm_id whitelist counter) o.machine h off in
      let same : (step crypto e o.machine).1.sm_id ≡ o.machine.sm_id =
        (step-IsRound crypto e o.machine (ground arith) (
          subst Inv (ap (λ r. r.1) h)
            (session-Inv crypto es o.machine.sm_id whitelist counter))).same_id in
      (same, (counter, es ++ e ∷ [], (step crypto e o.machine).0, rw same next, refl))
  step-IsRun whitelist o e rest live (counter, es, err x, h, c) =
      absurd (cc (c, (&&_true (not o.crashed) (is_ongoing o.machine.status) live).0))

  take_event-IsServer :
      (r : ℕ) (s : Server) → IsServer crypto s → IsServer crypto (take_event crypto draw r s)
  unfolding take_event
  take_event-IsServer r s i = elim (Option-cases (lookup r s.objects)) [
    | inl missing ↦ rw (take_event, missing) i
    | inr (o, found) ↦ elim (Bool-cases (runs o)) [
      | inr over ↦ rw (take_event, found, over) i
      | inl live ↦ rw (take_event, found, live) (next o found live o.queue)
    ]
  ]
    where
      next :
          (o : Session)
          → lookup r s.objects ≡ some o
          → runs o ≡ true
          → (es : List Event) → IsServer crypto (next_event crypto draw r o es s)
      next o found live [] = i
      next o found live (e ∷ rest) =
          let (q, m) = step crypto e o.machine in
          let o' : Session = record { machine = m; queue = rest; crashed = has_raised q } in
          let (same, run') = step-IsRun s.whitelist o e rest live (i.faithful r o found) in
          send_packets-IsServer r (drop (length o.machine.sent) m.sent) o'
            (record s { objects = insert r o' s.objects }) (lookup-insert_self r o' s.objects)
            (replace-IsServer crypto r o o' s found same run' i)

  pub act-IsServer :
      (a : Action) (s : Server) → IsServer crypto s → IsServer crypto (act crypto draw a s)
  unfolding act
  act-IsServer (receives g counter) s = receive-IsServer crypto g counter s
  act-IsServer (responds req_id res) s = respond-IsServer crypto req_id res s
  act-IsServer (takes_event r) s = take_event-IsServer r s
  act-IsServer (elapses r) s = elapse-IsServer crypto r s
  act-IsServer (ends_session id) s = end_session-IsServer crypto id s

  pub acts-IsServer :
      (more : List Action) (s : Server)
      → IsServer crypto s
      → IsServer crypto (acts crypto draw more s)
  unfolding acts
  acts-IsServer [] s i = i
  acts-IsServer (a ∷ more) s i = acts-IsServer more (act crypto draw a s) (act-IsServer a s i)

  new_server-IsServer : (whitelist : ProvisioningData) → IsServer crypto (new_server whitelist)
  new_server-IsServer whitelist = record {
    distinct = tt;
    requests = tt;
    owned = λ id r p. absurd (cc p);
    awaited = λ q r p. absurd (cc p);
    fresh = λ r b. refl;
    faithful = λ r o p. absurd (cc p);
  }

  -- Whatever its threads and timers do, in any order, the server keeps its references: every session
  -- in `sessions` is a machine with the identifier that is its key, the keys of `sessions` and of
  -- `send_list` are distinct, and every reference in them is resolved. Every machine, also one that
  -- `sessions` has dropped, is where `run` leads from a new machine with its identifier and the
  -- server's configuration on a list of events, and its thread has crashed exactly if that `run` has
  -- raised.
  pub acts-new_server-IsServer :
      (more : List Action) (whitelist : ProvisioningData)
      → IsServer crypto (acts crypto draw more (new_server whitelist))
  acts-new_server-IsServer more whitelist =
      acts-IsServer more (new_server whitelist) (new_server-IsServer whitelist)
