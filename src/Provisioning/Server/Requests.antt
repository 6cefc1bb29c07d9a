-- ===== src/Provisioning/Server/Requests.antt =====
-- The answers of the gateways: each is given once, to the machine that sent the packet.
use backend_client.Base.{
  ℕ, ◌≤◌, ◌≡◌, ◌≢◌, refl, sym, ap, ◌∙◌, Bool, false, ◌||◌, none, some, List, [], ◌∷◌, arith, inl,
  inr, nat_eq, ◌==◌, ==_ne, Bool-cases, Option-cases, length, length-append, drop, if◌then◌else◌,
}
use backend_client.Base.Dict.{
  lookup, insert, erase, lookup-insert_ne, lookup-erase_self, lookup-erase_ne,
}
use backend_client.Provisioning.Events.{Event, packet_sent, ResultCode}
use backend_client.Provisioning.Machine.{step}
use backend_client.Provisioning.Machine.Defs.{Crypto, Packet}
use backend_client.Provisioning.Server.{
  id_eq, Session, Server, queued, put_event, receive, respond, elapse, end_session, take_event,
  next_event, runs, has_raised, send_packet, send_packets, act, acts, Action, receives, responds,
  takes_event, elapses, ends_session,
}
use backend_client.Provisioning.Server.Routing.{IsServer}
use backend_client.Provisioning.Server.Reached.{acts-IsServer}
use backend_client.Provisioning.Server.Delivery.{lookup-put_event}
use backend_client.Provisioning.Server.Quiet.{
  SameRequests, put_event-SameRequests, receive-SameRequests, elapse-SameRequests,
  end_session-SameRequests,
}

-- Whether the answer to the request `q` is among the actions.
abbrev pub answers : ℕ → List Action → Bool
answers q [] = false
answers q (responds q' res ∷ more) = q == q' || answers q more
answers q (_ ∷ more) = answers q more

or_false : (a b : Bool) → (a || b) ≡ false → (a ≡ false) × (b ≡ false)
or_false a b h = ground arith

answers_cons :
    (q : ℕ) (a : Action) (more : List Action)
    → answers q (a ∷ more) ≡ false
    → (answers q (a ∷ []) ≡ false) × (answers q more ≡ false)
answers_cons q (responds q' res) more h = ground arith
answers_cons q (receives g counter) more h = (refl, h)
answers_cons q (takes_event r) more h = (refl, h)
answers_cons q (elapses r) more h = (refl, h)
answers_cons q (ends_session id) more h = (refl, h)

module _ (crypto : Crypto) (draw : ℕ → ℕ) (q r : ℕ) where
  -- The request `q` of the machine `r` waits for its answer, and its identifier is not drawn again.
  pub record IsPending (s : Server) : Type 0 where
    pub waits : lookup q s.send_list ≡ some r
    pub unique : (n : ℕ) → length s.request_queue ≤ n → draw n ≢ q

  same-IsPending : (s s' : Server) → SameRequests s s' → IsPending s → IsPending s'
  same-IsPending s s' (same, queue) p = record {
    waits = ap (lookup q) same ∙ p.waits;
    unique = λ n b. p.unique n (omega (arith, ap length queue));
  }

  send_packets-IsPending :
      (r' : ℕ) (ps : List Packet) (s : Server)
      → IsPending s
      → IsPending (send_packets crypto draw r' ps s)
  unfolding send_packets send_packet
  send_packets-IsPending r' [] s p = p
  send_packets-IsPending r' (packet ∷ ps) s p =
      send_packets-IsPending r' ps (send_packet crypto draw r' packet s) (record {
        waits =
            lookup-insert_ne q (draw (length s.request_queue)) r' s.send_list (
              ==_ne q (draw (length s.request_queue))
                (λ e. p.unique (length s.request_queue) (omega arith) (sym e)))
            ∙ p.waits;
        unique = λ n b. p.unique n (
            omega (
              arith,
              b,
              length-append s.request_queue ((draw (length s.request_queue), packet) ∷ []),
            ));
      })

  take_event-IsPending :
      (r' : ℕ) (s : Server) → IsPending s → IsPending (take_event crypto draw r' s)
  unfolding take_event
  take_event-IsPending r' s p = elim (Option-cases (lookup r' s.objects)) [
    | inl missing ↦ rw (take_event, missing) p
    | inr (o, found) ↦ elim (Bool-cases (runs o)) [
      | inr over ↦ rw (take_event, found, over) p
      | inl live ↦ rw (take_event, found, live) (next o o.queue)
    ]
  ]
    where
      next : (o : Session) (es : List Event) → IsPending (next_event crypto draw r' o es s)
      next o [] = p
      next o (e ∷ rest) =
          let (res, m) = step crypto e o.machine in
          send_packets-IsPending r' (drop (length o.machine.sent) m.sent)
            (record s {
              objects =
                  insert r' (record { machine = m; queue = rest; crashed = has_raised res })
                    s.objects;
            })
            (record { waits = p.waits; unique = p.unique })

  respond-IsPending :
      (q' : ℕ) (res : ResultCode) (s : Server)
      → (q == q') ≡ false
      → IsPending s
      → IsPending (respond q' res s)
  unfolding respond
  respond-IsPending q' res s other p = elim (Option-cases (lookup q' s.send_list)) [
    | inl missing ↦ rw (respond, missing) p
    | inr (r', found) ↦
        rw (respond, found)
          (erased (put_event r' (packet_sent q' res) s) (
            same-IsPending s (put_event r' (packet_sent q' res) s)
              (put_event-SameRequests r' (packet_sent q' res) s) p))
  ]
    where
      erased :
          (s1 : Server) → IsPending s1 → IsPending (record s1 { send_list = erase q' s1.send_list })
      erased s1 p1 = record {
        waits = lookup-erase_ne q q' s1.send_list other ∙ p1.waits;
        unique = p1.unique;
      }

  act-IsPending :
      (a : Action) (s : Server)
      → answers q (a ∷ []) ≡ false
      → IsPending s
      → IsPending (act crypto draw a s)
  unfolding act
  act-IsPending (receives g counter) s h =
      same-IsPending s (receive g counter s) (receive-SameRequests g counter s)
  act-IsPending (responds q' res) s h = respond-IsPending q' res s (or_false (q == q') false h).0
  act-IsPending (takes_event r') s h = take_event-IsPending r' s
  act-IsPending (elapses r') s h = same-IsPending s (elapse r' s) (elapse-SameRequests r' s)
  act-IsPending (ends_session id) s h =
      same-IsPending s (end_session id s) (end_session-SameRequests id s)

  acts-IsPending :
      (more : List Action) (s : Server)
      → answers q more ≡ false
      → IsPending s
      → IsPending (acts crypto draw more s)
  unfolding acts
  acts-IsPending [] s h p = p
  acts-IsPending (a ∷ more) s h p =
      let (now, later) = answers_cons q a more h in
      acts-IsPending more (act crypto draw a s) later (act-IsPending a s now p)

  -- What the answer to a request does: it becomes the last event of the machine that sent the packet,
  -- no other machine changes, and the request waits no more.
  pub record IsAnswered (res : ResultCode) (s s' : Server) : Type 0 where
    pub sender : Session
    pub resolved : lookup r s.objects ≡ some sender
    pub delivered :
        (r' : ℕ)
        → lookup r' s'.objects
          ≡ (if r' == r then some (queued (packet_sent q res) sender) else lookup r' s.objects)
    pub removed : lookup q s'.send_list ≡ none

  respond-IsAnswered :
      (res : ResultCode) (s : Server)
      → IsServer crypto s
      → lookup q s.send_list ≡ some r
      → IsAnswered res s (respond q res s)
  unfolding respond
  respond-IsAnswered res s i waits =
      let (o, found) = i.awaited q r waits in
      let e = packet_sent q res in
      rw (respond, waits)
        record {
          sender = o;
          resolved = found;
          delivered = λ r'. lookup-put_event r e o s r' found;
          removed =
              ap (λ d. lookup q (erase q d)) (put_event-SameRequests r e s).0
              ∙ lookup-erase_self q s.send_list i.requests;
        }

  -- A request of the machine `r` waits for its answer. Whatever the threads and the timers do before
  -- the answer comes, also if the session ends and another takes its place in `sessions`: the answer
  -- becomes the last event of the machine `r`, no other machine changes, and the same answer coming
  -- again does nothing. The server is well-formed, and the library does not draw the request's
  -- identifier again.
  pub response_delivered :
      (more : List Action) (res : ResultCode) (s : Server)
      → IsServer crypto s
      → lookup q s.send_list ≡ some r
      → ((n : ℕ) → length s.request_queue ≤ n → draw n ≢ q)
      → answers q more ≡ false
      → let s1 = acts crypto draw more s in
        IsAnswered res s1 (respond q res s1)
        × ((again : ResultCode) → respond q again (respond q res s1) ≡ respond q res s1)
  unfolding respond
  response_delivered more res s i waits unique h =
      let s1 = acts crypto draw more s in
      let a =
        respond-IsAnswered res s1 (acts-IsServer crypto draw more s i)
          (acts-IsPending more s h (record { waits = waits; unique = unique })).waits in
      (a, λ again. ignored again (respond q res s1) a.removed)
    where
      ignored : (res : ResultCode) (s : Server) → lookup q s.send_list ≡ none → respond q res s ≡ s
      ignored res s gone = rw (respond, gone) refl
