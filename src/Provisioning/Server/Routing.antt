-- ===== src/Provisioning/Server/Routing.antt =====
-- What holds of the server between two actions: its references are resolved, every session in
-- `sessions` is that of its key, and every machine is in a state that `run` leads to.
use mathlib.Core.Path.{subst}
use backend_client.Base.{
  ℕ, ◌≤◌, ◌≡◌, refl, sym, ap, ◌∙◌, Bool, true, false, none, some, List, [], arith, inl, inr, nat_eq,
  Bool-cases, Option-cases, some-eq, if◌then◌else◌,
}
use backend_client.Base.Dict.{
  lookup, insert, erase, IsDict, lookup-insert_self, lookup-insert-cases, lookup-erase-some,
  insert-IsDict, erase-IsDict,
}
use backend_client.Base.Exceptions.{Result, ok, err, provisioning_message}
use backend_client.Provisioning.Message.{Message, header_of, MessageId, msg_id}
use backend_client.Provisioning.Message.Factory.{GenericMessage, map_message}
use backend_client.Provisioning.Data.{ProvisioningData}
use backend_client.Provisioning.Events.{Event, timeout, packet_received, packet_sent, ResultCode}
use backend_client.Provisioning.Machine.Defs.{Crypto}
use backend_client.Provisioning.Machine.{run, new_machine}
use backend_client.Provisioning.Server.{
  id_eq, Session, Server, new_session, queued, put_event, open_session, route, receive,
  receive_result, respond, end_session, is_over, elapse, rings, has_raised,
}

module _ (crypto : Crypto) where
  -- The machine is where `run` has come to on the events that its thread has taken.
  unfoldable pub IsRun : ProvisioningData → Session → Type 0
  IsRun whitelist o =
      (counter : ℕ) × (es : List Event) × (q : Result (Unit {0})) × (run crypto es
          (new_machine o.machine.sm_id whitelist counter)
        ≡ (q, o.machine))
      × (o.crashed ≡ has_raised q)

  pub record IsServer (s : Server) : Type 0 where
    pub distinct : IsDict s.sessions
    pub requests : IsDict s.send_list
    pub owned :
        (id : MessageId) (r : ℕ)
        → lookup id s.sessions ≡ some r
        → (o : Session) × (lookup r s.objects ≡ some o) × (o.machine.sm_id ≡ id)
    pub awaited :
        (req_id r : ℕ)
        → lookup req_id s.send_list ≡ some r
        → (o : Session) × (lookup r s.objects ≡ some o)
    pub fresh : (r : ℕ) → s.created ≤ r → lookup r s.objects ≡ none
    pub faithful : (r : ℕ) (o : Session) → lookup r s.objects ≡ some o → IsRun s.whitelist o

  -- A reference that is resolved is still resolved after a write of an object.
  still_resolved :
      (r r' : ℕ) (o o' : Session) (s : Server)
      → lookup r s.objects ≡ some o
      → o'.machine.sm_id ≡ o.machine.sm_id
      → (o1 : Session) → lookup r' s.objects ≡ some o1
      → (o2 : Session) × (lookup r' (insert r o' s.objects) ≡ some o2)
        × (o2.machine.sm_id ≡ o1.machine.sm_id)
  still_resolved r r' o o' s found same o1 found1 = elim (lookup-insert-cases r' r o' s.objects) [
    | inl (p, l) ↦
        let q : o ≡ o1 = some-eq (sym found ∙ ap (λ i. lookup i s.objects) (sym p) ∙ found1) in
        (o', l, same ∙ ap (λ z. z.machine.sm_id) q)
    | inr (p, l) ↦ (o1, l ∙ found1, refl)
  ]

  pub replace-IsServer :
      (r : ℕ) (o o' : Session) (s : Server)
      → lookup r s.objects ≡ some o
      → o'.machine.sm_id ≡ o.machine.sm_id
      → IsRun s.whitelist o'
      → IsServer s
      → IsServer (record s { objects = insert r o' s.objects })
  replace-IsServer r o o' s found same run' i = record {
    distinct = i.distinct;
    requests = i.requests;
    owned = λ id r' p.
        let (o1, l, e) = i.owned id r' p in
        let (o2, l2, e2) = still_resolved r r' o o' s found same o1 l in (o2, l2, e2 ∙ e);
    awaited = λ q r' p.
        let (o1, l) = i.awaited q r' p in
        let (o2, l2, e2) = still_resolved r r' o o' s found same o1 l in (o2, l2);
    fresh = λ r' b. elim (lookup-insert-cases r' r o' s.objects) [
      | inl (p, l) ↦ absurd (let q = i.fresh r' b in let w = ap (λ j. lookup j s.objects) p in cc)
      | inr (p, l) ↦ l ∙ i.fresh r' b
    ];
    faithful = λ r' o1 l1. elim (lookup-insert-cases r' r o' s.objects) [
      | inl (p, l) ↦ subst (IsRun s.whitelist) (some-eq (sym l ∙ l1)) run'
      | inr (p, l) ↦ i.faithful r' o1 (sym l ∙ l1)
    ];
  }

  pub put_event-IsServer :
      (r : ℕ) (e : Event) (s : Server) → IsServer s → IsServer (put_event r e s)
  unfolding put_event IsRun
  put_event-IsServer r e s i = elim (Option-cases (lookup r s.objects)) [
    | inl missing ↦ rw (put_event, missing) i
    | inr (o, found) ↦
        rw (put_event, found)
          (replace-IsServer r o (queued e o) s found refl (i.faithful r o found) i)
  ]

  -- What there is stays there when an object is created.
  created_apart :
      (r : ℕ) (o new' : Session) (s : Server)
      → IsServer s
      → lookup r s.objects ≡ some o
      → lookup r (insert s.created new' s.objects) ≡ some o
  created_apart r o new' s i found = elim (lookup-insert-cases r s.created new' s.objects) [
    | inl (p, l) ↦
        absurd
          (let q = i.fresh s.created (omega arith) in let w = ap (λ j. lookup j s.objects) p in cc)
    | inr (p, l) ↦ l ∙ found
  ]

  pub open_session-IsServer :
      (id : MessageId) (counter : ℕ) (s : Server)
      → IsServer s
      → IsServer (open_session id counter s)
  unfolding open_session IsRun
  open_session-IsServer id counter s i =
      let new' = new_session id s.whitelist counter in
      record {
        distinct = insert-IsDict id s.created s.sessions i.distinct;
        requests = i.requests;
        owned = λ id' r p. elim (lookup-insert-cases id' id s.created s.sessions) [
          | inl (same, l) ↦
              let q : r ≡ s.created = some-eq (sym p ∙ l) in
              (
                new',
                ap (λ z. lookup z (insert s.created new' s.objects)) q
                    ∙ lookup-insert_self s.created new' s.objects,
                sym same,
              )
          | inr (other, l) ↦
              let (o, found, e) = i.owned id' r (sym l ∙ p) in
              (o, created_apart r o new' s i found, e)
        ];
        awaited =
            λ q r p. let (o, found) = i.awaited q r p in (o, created_apart r o new' s i found);
        fresh = λ r b. elim (lookup-insert-cases r s.created new' s.objects) [
          | inl (p, l) ↦ absurd (omega (arith, p))
          | inr (p, l) ↦ l ∙ i.fresh r (omega arith)
        ];
        faithful = λ r o l. elim (lookup-insert-cases r s.created new' s.objects) [
          | inl (p, l1) ↦
              subst (IsRun s.whitelist) (some-eq (sym l1 ∙ l))
                (counter, [], ok tt, unfold run in refl, refl)
          | inr (p, l1) ↦ i.faithful r o (sym l1 ∙ l)
        ];
      }

  pub route-IsServer :
      (msg : Message) (counter : ℕ) (s : Server) → IsServer s → IsServer (route msg counter s)
  unfolding route
  route-IsServer msg counter s i =
      let id = msg_id (header_of msg) in
      elim (Option-cases (lookup id s.sessions)) [
        | inl missing ↦
            rw (route, missing)
              (put_event-IsServer s.created (packet_received msg) (open_session id counter s)
                (open_session-IsServer id counter s i))
        | inr (r, found) ↦ rw (route, found) (put_event-IsServer r (packet_received msg) s i)
      ]

  pub respond-IsServer :
      (req_id : ℕ) (res : ResultCode) (s : Server) → IsServer s → IsServer (respond req_id res s)
  unfolding respond
  respond-IsServer req_id res s i = elim (Option-cases (lookup req_id s.send_list)) [
    | inl missing ↦ rw (respond, missing) i
    | inr (r, found) ↦
        rw (respond, found)
          (answered-IsServer req_id (put_event r (packet_sent req_id res) s)
            (put_event-IsServer r (packet_sent req_id res) s i))
  ]
    where
      answered-IsServer :
          (req_id : ℕ) (s : Server)
          → IsServer s
          → IsServer (record s { send_list = erase req_id s.send_list })
      answered-IsServer req_id s i = record {
        distinct = i.distinct;
        requests = erase-IsDict req_id s.send_list i.requests;
        owned = i.owned;
        awaited = λ q r p. i.awaited q r (lookup-erase-some q req_id s.send_list i.requests p).0;
        fresh = i.fresh;
        faithful = i.faithful;
      }

  closed-IsServer :
      (id : MessageId) (s : Server)
      → IsServer s
      → IsServer (record s { sessions = erase id s.sessions })
  closed-IsServer id s i = record {
    distinct = erase-IsDict id s.sessions i.distinct;
    requests = i.requests;
    owned = λ id' r p. i.owned id' r (lookup-erase-some id' id s.sessions i.distinct p).0;
    awaited = i.awaited;
    fresh = i.fresh;
    faithful = i.faithful;
  }

  pub end_session-IsServer :
      (id : MessageId) (s : Server) → IsServer s → IsServer (end_session id s)
  unfolding end_session
  end_session-IsServer id s i = elim (Option-cases (lookup id s.sessions)) [
    | inl missing ↦ rw (end_session, missing) i
    | inr (r, found) ↦ elim (Bool-cases (is_over (lookup r s.objects))) [
      | inl over ↦ rw (end_session, found, over) (closed-IsServer id s i)
      | inr live ↦ rw (end_session, found, live) i
    ]
  ]

  pub receive-IsServer :
      (g : GenericMessage) (counter : ℕ) (s : Server) → IsServer s → IsServer (receive g counter s)
  unfolding receive
  receive-IsServer g counter s i = alive s.data_thread
    where
      stopped : IsServer (record s { data_thread = false })
      stopped = record {
        distinct = i.distinct;
        requests = i.requests;
        owned = i.owned;
        awaited = i.awaited;
        fresh = i.fresh;
        faithful = i.faithful;
      }

      result : (r : Result Message) → IsServer (receive_result r counter s)
      result (ok msg) = route-IsServer msg counter s i
      result (err provisioning_message) = i
      result (err _) = stopped

      alive : (b : Bool) → IsServer (if b then receive_result (map_message g) counter s else s)
      alive true = result (map_message g)
      alive false = i

  pub elapse-IsServer : (r : ℕ) (s : Server) → IsServer s → IsServer (elapse r s)
  unfolding elapse
  elapse-IsServer r s i = elim (Option-cases (lookup r s.objects)) [
    | inl missing ↦ rw (elapse, missing) i
    | inr (o, found) ↦ elim (Bool-cases (rings o.machine.timer)) [
      | inl rung ↦ rw (elapse, found, rung) (put_event-IsServer r timeout s i)
      | inr quiet ↦ rw (elapse, found, quiet) i
    ]
  ]
