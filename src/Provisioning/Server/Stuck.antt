-- ===== src/Provisioning/Server/Stuck.antt =====
-- A session whose thread an exception has ended while its status was ONGOING.
use backend_client.Base.{
  ℕ, ◌≡◌, ◌≢◌, refl, sym, ap, ◌∙◌, Bool, true, false, not, none, some, List, [], ◌∷◌, arith, inl,
  inr, nat_eq, ==_ne, Bool-cases, Option-cases, length, drop, if◌then◌else◌, some-eq, &&_true,
}
use backend_client.Base.Dict.{
  lookup, insert, lookup-insert_ne, lookup-insert-cases, lookup-erase_ne,
}
use backend_client.Base.Exceptions.{Result, ok, err, provisioning_message}
use backend_client.Provisioning.Message.{Message, header_of, MessageId, msg_id}
use backend_client.Provisioning.Message.Factory.{GenericMessage, map_message}
use backend_client.Provisioning.Events.{Event, timeout, packet_received, packet_sent, ResultCode}
use backend_client.Provisioning.Machine.{step, is_ongoing}
use backend_client.Provisioning.Machine.Defs.{Machine, Crypto, Packet, ongoing}
use backend_client.Provisioning.Server.{
  id_eq, Session, Server, queued, new_session, put_event, open_session, route, receive,
  receive_result, respond, elapse, rings, end_session, is_over, take_event, next_event, runs,
  has_raised, send_packet, send_packets, act, acts, Action, receives, responds, takes_event,
  elapses, ends_session,
}
use backend_client.Provisioning.Server.Routing.{IsServer}
use backend_client.Provisioning.Server.Reached.{act-IsServer}

module _ (crypto : Crypto) (draw : ℕ → ℕ) (id : MessageId) (r : ℕ) (m : Machine) where
  -- The session of `id` is the machine `r`, which is `m` and whose thread has crashed.
  pub record IsStuck (s : Server) : Type 0 where
    pub entry : lookup id s.sessions ≡ some r
    pub held : (o : Session) × (lookup r s.objects ≡ some o) × (o.machine ≡ m) × (o.crashed ≡ true)

  write-IsStuck :
      (r' : ℕ) (o' : Session) (s : Server)
      → IsStuck s
      → ((o : Session)
          → lookup r' s.objects ≡ some o
          → o.crashed ≡ true
          → (o'.machine ≡ o.machine) × (o'.crashed ≡ true))
      → IsStuck (record s { objects = insert r' o' s.objects })
  write-IsStuck r' o' s i same =
      let (o, found, machine, crash) = i.held in
      record {
        entry = i.entry;
        held = elim (lookup-insert-cases r r' o' s.objects) [
          | inr (other, l) ↦ (o, l ∙ found, machine, crash)
          | inl (p, l) ↦
              let (q, c) = same o (ap (λ z. lookup z s.objects) (sym p) ∙ found) crash in
              (o', l, q ∙ machine, c)
        ];
      }

  put_event-IsStuck : (r' : ℕ) (e : Event) (s : Server) → IsStuck s → IsStuck (put_event r' e s)
  unfolding put_event
  put_event-IsStuck r' e s i = elim (Option-cases (lookup r' s.objects)) [
    | inl missing ↦ rw (put_event, missing) i
    | inr (o', found) ↦
        rw (put_event, found)
          (write-IsStuck r' (queued e o') s i (λ o l c.
            let q : o' ≡ o = some-eq (sym found ∙ l) in
            (ap (λ z. z.machine) q, ap (λ z. z.crashed) q ∙ c)))
  ]

  open_session-IsStuck :
      (id' : MessageId) (counter : ℕ) (s : Server)
      → IsServer crypto s
      → lookup id' s.sessions ≡ none
      → IsStuck s
      → IsStuck (open_session id' counter s)
  unfolding open_session
  open_session-IsStuck id' counter s w missing i =
      let o' = new_session id' s.whitelist counter in
      let written =
        write-IsStuck s.created o' s i
          (λ o l c. absurd (let gone = w.fresh s.created (omega arith) in cc)) in
      record {
        entry =
            lookup-insert_ne id id' s.created s.sessions
              (==_ne id id' (λ p. let q = ap (λ z. lookup z s.sessions) p in let e = i.entry in cc))
            ∙ i.entry;
        held = written.held;
      }

  route-IsStuck :
      (msg : Message) (counter : ℕ) (s : Server)
      → IsServer crypto s
      → IsStuck s
      → IsStuck (route msg counter s)
  unfolding route
  route-IsStuck msg counter s w i =
      let id' = msg_id (header_of msg) in
      elim (Option-cases (lookup id' s.sessions)) [
        | inl missing ↦
            rw (route, missing)
              (put_event-IsStuck s.created (packet_received msg) (open_session id' counter s)
                (open_session-IsStuck id' counter s w missing i))
        | inr (r', found) ↦ rw (route, found) (put_event-IsStuck r' (packet_received msg) s i)
      ]

  receive-IsStuck :
      (g : GenericMessage) (counter : ℕ) (s : Server)
      → IsServer crypto s
      → IsStuck s
      → IsStuck (receive g counter s)
  unfolding receive
  receive-IsStuck g counter s w i = alive s.data_thread
    where
      stopped : IsStuck (record s { data_thread = false })
      stopped = record { entry = i.entry; held = i.held }

      result : (x : Result Message) → IsStuck (receive_result x counter s)
      result (ok msg) = route-IsStuck msg counter s w i
      result (err provisioning_message) = i
      result (err _) = stopped

      alive : (b : Bool) → IsStuck (if b then receive_result (map_message g) counter s else s)
      alive true = result (map_message g)
      alive false = i

  respond-IsStuck : (q : ℕ) (res : ResultCode) (s : Server) → IsStuck s → IsStuck (respond q res s)
  unfolding respond
  respond-IsStuck q res s i = elim (Option-cases (lookup q s.send_list)) [
    | inl missing ↦ rw (respond, missing) i
    | inr (r', found) ↦
        let i' = put_event-IsStuck r' (packet_sent q res) s i in
        rw (respond, found) (record { entry = i'.entry; held = i'.held })
  ]

  send_packets-IsStuck :
      (r' : ℕ) (ps : List Packet) (s : Server)
      → IsStuck s
      → IsStuck (send_packets crypto draw r' ps s)
  unfolding send_packets send_packet
  send_packets-IsStuck r' [] s i = i
  send_packets-IsStuck r' (p ∷ ps) s i =
      send_packets-IsStuck r' ps (send_packet crypto draw r' p s)
        (record { entry = i.entry; held = i.held })

  -- The machine itself takes no event, since its thread is gone; another one leaves it alone.
  take_event-IsStuck : (r' : ℕ) (s : Server) → IsStuck s → IsStuck (take_event crypto draw r' s)
  unfolding take_event
  take_event-IsStuck r' s i = elim (Option-cases (lookup r' s.objects)) [
    | inl missing ↦ rw (take_event, missing) i
    | inr (o, found) ↦ elim (Bool-cases (runs o)) [
      | inr over ↦ rw (take_event, found, over) i
      | inl live ↦ rw (take_event, found, live) (next o found live o.queue)
    ]
  ]
    where
      next :
          (o : Session)
          → lookup r' s.objects ≡ some o
          → runs o ≡ true
          → (es : List Event) → IsStuck (next_event crypto draw r' o es s)
      next o found live [] = i
      next o found live (e ∷ rest) =
          let (res, m') = step crypto e o.machine in
          let o' : Session = record { machine = m'; queue = rest; crashed = has_raised res } in
          let awake = (&&_true (not o.crashed) (is_ongoing o.machine.status) live).0 in
          send_packets-IsStuck r' (drop (length o.machine.sent) m'.sent)
            (record s { objects = insert r' o' s.objects })
            (write-IsStuck r' o' s i (λ o1 l c.
              let q : o ≡ o1 = some-eq (sym found ∙ l) in
              absurd (cc (awake, c, ap (λ z. z.crashed) q))))

  elapse-IsStuck : (r' : ℕ) (s : Server) → IsStuck s → IsStuck (elapse r' s)
  unfolding elapse
  elapse-IsStuck r' s i = elim (Option-cases (lookup r' s.objects)) [
    | inl missing ↦ rw (elapse, missing) i
    | inr (o, found) ↦ elim (Bool-cases (rings o.machine.timer)) [
      | inl rung ↦ rw (elapse, found, rung) (put_event-IsStuck r' timeout s i)
      | inr quiet ↦ rw (elapse, found, quiet) i
    ]
  ]

  -- The loop keeps it, since its status is ONGOING.
  end_session-IsStuck :
      (id' : MessageId) (s : Server) → m.status ≡ ongoing → IsStuck s → IsStuck (end_session id' s)
  unfolding end_session
  end_session-IsStuck id' s o i = elim (Option-cases (lookup id' s.sessions)) [
    | inl missing ↦ rw (end_session, missing) i
    | inr (r', found) ↦ elim (Bool-cases (is_over (lookup r' s.objects))) [
      | inr live ↦ rw (end_session, found, live) i
      | inl over ↦
          rw (end_session, found, over)
            (record {
              entry =
                  lookup-erase_ne id id' s.sessions (==_ne id id' (apart r' found over)) ∙ i.entry;
              held = i.held;
            })
    ]
  ]
    where
      apart :
          (r' : ℕ)
          → lookup id' s.sessions ≡ some r'
          → is_over (lookup r' s.objects) ≡ true
          → id ≢ id'
      apart r' found over p =
          let (o1, held, machine, crash) = i.held in
          let same : r ≡ r' = some-eq (sym i.entry ∙ ap (λ z. lookup z s.sessions) p ∙ found) in
          let on' : is_over (lookup r' s.objects) ≡ false =
            ap (λ z. is_over (lookup z s.objects)) (sym same)
            ∙ ap is_over held
            ∙ ap (λ z. not (is_ongoing z.status)) machine
            ∙ ap (λ z. not (is_ongoing z)) o in
          cc (over, on')

  act-IsStuck :
      (a : Action) (s : Server)
      → m.status ≡ ongoing
      → IsServer crypto s
      → IsStuck s
      → IsStuck (act crypto draw a s)
  unfolding act
  act-IsStuck (receives g counter) s o w i = receive-IsStuck g counter s w i
  act-IsStuck (responds q res) s o w i = respond-IsStuck q res s i
  act-IsStuck (takes_event r') s o w i = take_event-IsStuck r' s i
  act-IsStuck (elapses r') s o w i = elapse-IsStuck r' s i
  act-IsStuck (ends_session id') s o w i = end_session-IsStuck id' s o i

  acts-IsStuck :
      (more : List Action) (s : Server)
      → m.status ≡ ongoing
      → IsServer crypto s
      → IsStuck s
      → IsStuck (acts crypto draw more s)
  unfolding acts
  acts-IsStuck [] s o w i = i
  acts-IsStuck (a ∷ more) s o w i =
      acts-IsStuck more (act crypto draw a s) o (act-IsServer crypto draw a s w)
        (act-IsStuck a s o w i)

-- A session whose thread has crashed while its status was ONGOING stays in `sessions` under its
-- identifier, and its machine is never changed again, whatever is received and done afterwards: a node
-- that starts over with that identifier is never answered. The server is well-formed.
pub crashed_session :
    (crypto : Crypto) (draw : ℕ → ℕ) (id : MessageId) (r : ℕ) (o : Session) (more : List Action)
    (s : Server)
    → IsServer crypto s
    → lookup id s.sessions ≡ some r
    → lookup r s.objects ≡ some o
    → o.crashed ≡ true
    → o.machine.status ≡ ongoing
    → let s' = acts crypto draw more s in
      (lookup id s'.sessions ≡ some r)
      × ((o' : Session) × (lookup r s'.objects ≡ some o')
          × (o'.machine ≡ o.machine)
          × (o'.crashed ≡ true))
crashed_session crypto draw id r o more s w entry found crash live =
    let i =
      acts-IsStuck crypto draw id r o.machine more s live w
        (record { entry = entry; held = (o, found, refl, crash) }) in
    (i.entry, i.held)
