-- ===== src/Provisioning/Server/Quiet.antt =====
-- The actions that neither send a packet nor answer one.
use backend_client.Base.{
  ℕ, ◌≡◌, refl, Bool, true, false, inl, inr, nat_eq, Bool-cases, Option-cases, if◌then◌else◌,
}
use backend_client.Base.Dict.{lookup}
use backend_client.Base.Exceptions.{Result, ok, err, provisioning_message}
use backend_client.Provisioning.Message.{Message, header_of, MessageId, msg_id}
use backend_client.Provisioning.Message.Factory.{GenericMessage, map_message}
use backend_client.Provisioning.Events.{Event, timeout, packet_received}
use backend_client.Provisioning.Server.{
  id_eq, Server, put_event, open_session, route, receive, receive_result, elapse, rings,
  end_session, is_over,
}

-- Two servers that have sent the same packets and wait for the same answers.
abbrev pub SameRequests : Server → Server → Type 0
SameRequests s s' = (s'.send_list ≡ s.send_list) × (s'.request_queue ≡ s.request_queue)

pub put_event-SameRequests : (r : ℕ) (e : Event) (s : Server) → SameRequests s (put_event r e s)
unfolding put_event
put_event-SameRequests r e s = elim (Option-cases (lookup r s.objects)) [
  | inl missing ↦ rw (put_event, missing) (refl, refl)
  | inr (o, found) ↦ rw (put_event, found) (refl, refl)
]

pub route-SameRequests :
    (msg : Message) (counter : ℕ) (s : Server) → SameRequests s (route msg counter s)
unfolding route open_session
route-SameRequests msg counter s =
    let id = msg_id (header_of msg) in
    elim (Option-cases (lookup id s.sessions)) [
      | inl missing ↦
          rw (route, missing)
            (put_event-SameRequests s.created (packet_received msg) (open_session id counter s))
      | inr (r, found) ↦ rw (route, found) (put_event-SameRequests r (packet_received msg) s)
    ]

pub receive-SameRequests :
    (g : GenericMessage) (counter : ℕ) (s : Server) → SameRequests s (receive g counter s)
unfolding receive
receive-SameRequests g counter s = alive s.data_thread
  where
    result : (r : Result Message) → SameRequests s (receive_result r counter s)
    result (ok msg) = route-SameRequests msg counter s
    result (err provisioning_message) = (refl, refl)
    result (err _) = (refl, refl)

    alive : (b : Bool) → SameRequests s (if b then receive_result (map_message g) counter s else s)
    alive true = result (map_message g)
    alive false = (refl, refl)

pub elapse-SameRequests : (r : ℕ) (s : Server) → SameRequests s (elapse r s)
unfolding elapse
elapse-SameRequests r s = elim (Option-cases (lookup r s.objects)) [
  | inl missing ↦ rw (elapse, missing) (refl, refl)
  | inr (o, found) ↦ elim (Bool-cases (rings o.machine.timer)) [
    | inl rung ↦ rw (elapse, found, rung) (put_event-SameRequests r timeout s)
    | inr quiet ↦ rw (elapse, found, quiet) (refl, refl)
  ]
]

pub end_session-SameRequests : (id : MessageId) (s : Server) → SameRequests s (end_session id s)
unfolding end_session
end_session-SameRequests id s = elim (Option-cases (lookup id s.sessions)) [
  | inl missing ↦ rw (end_session, missing) (refl, refl)
  | inr (r, found) ↦ elim (Bool-cases (is_over (lookup r s.objects))) [
    | inl over ↦ rw (end_session, found, over) (refl, refl)
    | inr live ↦ rw (end_session, found, live) (refl, refl)
  ]
]
