-- ===== src/Provisioning/Server/Delivery.antt =====
-- Where the server puts what it receives: a packet in the queue of its node's session, an answer of a
-- gateway in the queue of the machine that sent the packet.
use mathlib.Core.Path.{subst}
use backend_client.Base.{
  ℕ, ◌≡◌, refl, sym, ap, ◌∙◌, true, none, some, arith, inl, inr, ◌⊎◌, nat_eq, ◌==◌, Bool-cases,
  Option-cases, if◌then◌else◌,
}
use backend_client.Base.Dict.{
  lookup, lookup-insert, lookup-found, lookup-insert_self, lookup-insert_ne,
}
use backend_client.Base.Exceptions.{ok}
use backend_client.Provisioning.Message.{Message, header_of, MessageId, msg_id}
use backend_client.Provisioning.Message.Factory.{GenericMessage, map_message}
use backend_client.Provisioning.Events.{Event, packet_received}
use backend_client.Provisioning.Machine.Defs.{Crypto}
use backend_client.Provisioning.Server.{
  id_eq, Session, Server, new_session, queued, put_event, open_session, route, receive,
  receive_result,
}
use backend_client.Provisioning.Server.Routing.{IsServer}

-- What is found after an event was put into the queue of the machine `r`.
pub lookup-put_event :
    (r : ℕ) (e : Event) (o : Session) (s : Server) (r' : ℕ)
    → lookup r s.objects ≡ some o
    → lookup r' (put_event r e s).objects
      ≡ (if r' == r then some (queued e o) else lookup r' s.objects)
unfolding put_event
lookup-put_event r e o s r' found =
    rw (put_event, found) (lookup-insert r' r (queued e o) s.objects)

put_event-sessions : (r : ℕ) (e : Event) (s : Server) → (put_event r e s).sessions ≡ s.sessions
unfolding put_event
put_event-sessions r e s = elim (Option-cases (lookup r s.objects)) [
  | inl missing ↦ rw (put_event, missing) refl
  | inr (o, found) ↦ rw (put_event, found) refl
]

-- The packet `msg` is the last event of the machine `r`, which was `o` before, or was created as `o`.
-- It is the session of the packet's identifier, and nothing else has changed.
pub record IsDelivered (msg : Message) (counter : ℕ) (s s' : Server) (r : ℕ) (o : Session)
    : Type 0 where
  pub identified : o.machine.sm_id ≡ msg_id (header_of msg)
  pub origin :
      (lookup (msg_id (header_of msg)) s.sessions ≡ some r) × (lookup r s.objects ≡ some o)
      ⊎ (lookup (msg_id (header_of msg)) s.sessions ≡ none)
        × (lookup r s.objects ≡ none)
        × (o ≡ new_session (msg_id (header_of msg)) s.whitelist counter)
  pub delivered :
      (r' : ℕ)
      → lookup r' s'.objects
        ≡ (if r' == r then some (queued (packet_received msg) o) else lookup r' s.objects)
  pub opened :
      (id : MessageId)
      → lookup id s'.sessions
        ≡ (if id == msg_id (header_of msg) then some r else lookup id s.sessions)

module _ (crypto : Crypto) where
  route-IsDelivered :
      (msg : Message) (counter : ℕ) (s : Server)
      → IsServer crypto s
      → (r : ℕ) × (o : Session) × IsDelivered msg counter s (route msg counter s) r o
  unfolding route open_session
  route-IsDelivered msg counter s i =
      let id = msg_id (header_of msg) in
      let e = packet_received msg in
      elim (Option-cases (lookup id s.sessions)) [
        | inr (r, found) ↦
            let (o, resolved, same) = i.owned id r found in
            (
              r,
              o,
              rw (route, found)
                  record {
                    identified = same;
                    origin = inl (found, resolved);
                    delivered = λ r'. lookup-put_event r e o s r' resolved;
                    opened = λ id'.
                        ap (lookup id') (put_event-sessions r e s)
                        ∙ lookup-found id' id r s.sessions found;
                  },
            )
        | inl missing ↦
            let o = new_session id s.whitelist counter in
            let s1 = open_session id counter s in
            (
              s.created,
              o,
              rw (route, missing)
                  record {
                    identified = refl;
                    origin = inr (missing, (i.fresh s.created (omega arith)), refl);
                    delivered = λ r'.
                        lookup-put_event s.created e o s1 r'
                          (lookup-insert_self s.created o s.objects)
                        ∙ elim (Bool-cases (r' == s.created)) [
                          | inl same ↦ rw same refl
                          | inr other ↦ rw other (lookup-insert_ne r' s.created o s.objects other)
                        ];
                    opened = λ id'.
                        ap (lookup id') (put_event-sessions s.created e s1)
                        ∙ lookup-insert id' id s.created s.sessions;
                  },
            )
      ]

  -- A packet that the factory reads becomes the last event of exactly one machine, the session of the
  -- packet's identifier: the one that is in `sessions`, or if there is none a new one, which is put
  -- there. No other machine and no other entry of `sessions` changes. The server is well-formed and
  -- the thread of `_manage_data_queue` runs.
  pub receive-IsDelivered :
      (g : GenericMessage) (counter : ℕ) (msg : Message) (s : Server)
      → IsServer crypto s
      → s.data_thread ≡ true
      → map_message g ≡ ok msg
      → (r : ℕ) × (o : Session) × IsDelivered msg counter s (receive g counter s) r o
  unfolding receive
  receive-IsDelivered g counter msg s i alive read =
      let (r, o, d) = route-IsDelivered msg counter s i in
      (r, o, subst (λ s'. IsDelivered msg counter s s' r o) (sym received) d)
    where
      received : receive g counter s ≡ route msg counter s
      received =
          ap (λ b. if b then receive_result (map_message g) counter s else s) alive
          ∙ ap (λ m. receive_result m counter s) read
