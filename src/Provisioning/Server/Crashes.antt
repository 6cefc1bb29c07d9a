-- ===== src/Provisioning/Server/Crashes.antt =====
-- What an exception that nothing catches leaves behind, in the thread that receives the packets and in
-- a session's own.
use mathlib.Core.Path.{subst}
use backend_client.Base.{
  ℕ, ◌≡◌, refl, sym, ap, ◌∙◌, true, false, List, [], ◌∷◌, inl, inr, nat_eq, Bool-cases,
  Option-cases, length, drop, if◌then◌else◌,
}
use backend_client.Base.Dict.{lookup, insert}
use backend_client.Base.Exceptions.{err, index_error}
use backend_client.Provisioning.Message.Factory.{GenericMessage, map_message}
use backend_client.Provisioning.Events.{Event, timeout, packet_sent}
use backend_client.Provisioning.Machine.{step}
use backend_client.Provisioning.Machine.Defs.{Crypto, Packet}
use backend_client.Provisioning.Server.{
  id_eq, Session, Server, put_event, receive, receive_result, respond, elapse, rings, end_session,
  is_over, take_event, next_event, runs, has_raised, send_packet, send_packets, act, acts, Action,
  receives, responds, takes_event, elapses, ends_session,
}

-- The thread of `_manage_data_queue` has ended, and `n` machines were created.
abbrev IsDeaf : ℕ → Server → Type 0
IsDeaf n s = (s.data_thread ≡ false) × (s.created ≡ n)

put_event-IsDeaf : (n r : ℕ) (e : Event) (s : Server) → IsDeaf n s → IsDeaf n (put_event r e s)
unfolding put_event
put_event-IsDeaf n r e s d = elim (Option-cases (lookup r s.objects)) [
  | inl missing ↦ rw (put_event, missing) d
  | inr (o, found) ↦ rw (put_event, found) d
]

module _ (crypto : Crypto) (draw : ℕ → ℕ) where
  send_packets-IsDeaf :
      (n r : ℕ) (ps : List Packet) (s : Server)
      → IsDeaf n s
      → IsDeaf n (send_packets crypto draw r ps s)
  unfolding send_packets send_packet
  send_packets-IsDeaf n r [] s d = d
  send_packets-IsDeaf n r (p ∷ ps) s d =
      send_packets-IsDeaf n r ps (send_packet crypto draw r p s) d

  act-IsDeaf : (n : ℕ) (a : Action) (s : Server) → IsDeaf n s → IsDeaf n (act crypto draw a s)
  unfolding act receive respond take_event elapse end_session
  act-IsDeaf n (receives g counter) s d =
      subst (IsDeaf n)
        (sym (ap (λ b. if b then receive_result (map_message g) counter s else s) d.0)) d
  act-IsDeaf n (responds q res) s d = elim (Option-cases (lookup q s.send_list)) [
    | inl missing ↦ rw (respond, missing) d
    | inr (r, found) ↦ rw (respond, found) (put_event-IsDeaf n r (packet_sent q res) s d)
  ]
  act-IsDeaf n (takes_event r) s d = elim (Option-cases (lookup r s.objects)) [
    | inl missing ↦ rw (take_event, missing) d
    | inr (o, found) ↦ elim (Bool-cases (runs o)) [
      | inr over ↦ rw (take_event, found, over) d
      | inl live ↦ rw (take_event, found, live) (next o o.queue)
    ]
  ]
    where
      next : (o : Session) (es : List Event) → IsDeaf n (next_event crypto draw r o es s)
      next o [] = d
      next o (e ∷ rest) =
          let (res, m) = step crypto e o.machine in
          let o' : Session = record { machine = m; queue = rest; crashed = has_raised res } in
          send_packets-IsDeaf n r (drop (length o.machine.sent) m.sent)
            (record s { objects = insert r o' s.objects }) d
  act-IsDeaf n (elapses r) s d = elim (Option-cases (lookup r s.objects)) [
    | inl missing ↦ rw (elapse, missing) d
    | inr (o, found) ↦ elim (Bool-cases (rings o.machine.timer)) [
      | inl rung ↦ rw (elapse, found, rung) (put_event-IsDeaf n r timeout s d)
      | inr quiet ↦ rw (elapse, found, quiet) d
    ]
  ]
  act-IsDeaf n (ends_session id) s d = elim (Option-cases (lookup id s.sessions)) [
    | inl missing ↦ rw (end_session, missing) d
    | inr (r, found) ↦ elim (Bool-cases (is_over (lookup r s.objects))) [
      | inl over ↦ rw (end_session, found, over) d
      | inr live ↦ rw (end_session, found, live) d
    ]
  ]

  acts-IsDeaf :
      (n : ℕ) (more : List Action) (s : Server) → IsDeaf n s → IsDeaf n (acts crypto draw more s)
  unfolding acts
  acts-IsDeaf n [] s d = d
  acts-IsDeaf n (a ∷ more) s d = acts-IsDeaf n more (act crypto draw a s) (act-IsDeaf n a s d)

  -- After one packet on which the factory raises `IndexError`, no state machine is ever created
  -- again, whatever is received and done afterwards: the exception has ended the thread that receives
  -- the packets. It ran before.
  pub receive-ends_thread :
      (g : GenericMessage) (counter : ℕ) (more : List Action) (s : Server)
      → s.data_thread ≡ true
      → map_message g ≡ err index_error
      → let s' = acts crypto draw more (receive g counter s) in
        (s'.data_thread ≡ false) × (s'.created ≡ s.created)
  unfolding receive
  receive-ends_thread g counter more s alive raised =
      acts-IsDeaf s.created more (receive g counter s)
        (subst (IsDeaf s.created) (sym received) (refl, refl))
    where
      received : receive g counter s ≡ record s { data_thread = false }
      received =
          ap (λ b. if b then receive_result (map_message g) counter s else s) alive
          ∙ ap (λ m. receive_result m counter s) raised
