-- ===== src/Provisioning/Server.antt =====
-- wirepas_backend_client/provisioning/provisioning_server.py: the server that gives each node's packets
-- to its state machine, and each answer of a gateway to the machine that sent the packet. The threads
-- interleave: an `Action` is what one of them does in one round of its loop.
pub mod Routing
pub mod Reached
pub mod Delivery
pub mod Quiet
pub mod Requests
pub mod Endings
pub mod Crashes
pub mod Stuck
mod Tests
use mathlib.Core.Path.{refl}
use backend_client.Base.{
  ℕ, ◌+◌, ◌≡◌, Bool, true, false, ◌&&◌, not, ◌↔◌, Option, none, some, List, [], ◌∷◌, ◌++◌, map,
  arith, Bytes, length, drop, Eq, ◌==◌, if◌then◌else◌, &&_true, ==_refl, eqb, beq_bytes, nat_eq,
  bytes_eq,
}
use backend_client.Base.Dict.{Dict, lookup, insert, erase}
use backend_client.Base.Exceptions.{Exception, provisioning_message, Result, ok, err}
use backend_client.Provisioning.Message.{Message, header_of, MessageId, msg_id}
use backend_client.Provisioning.Message.Factory.{GenericMessage, map_message}
use backend_client.Provisioning.Data.{ProvisioningData}
use backend_client.Provisioning.Events.{Event, timeout, packet_received, packet_sent, ResultCode}
use backend_client.Provisioning.Machine.Defs.{Machine, Crypto, Packet, Timer, started, cancelled}
use backend_client.Provisioning.Machine.{step, is_ongoing, new_machine}

-- The keys of `sessions` are compared part by part.
abbrev pub beq_source : Option ℕ → Option ℕ → Bool
beq_source none none = true
beq_source (some a) (some b) = a == b
beq_source _ _ = false

beq_source_iff : (a b : Option ℕ) → (beq_source a b ≡ true) ↔ (a ≡ b)
beq_source_iff none none = ground arith
beq_source_iff (some a) (some b) = ground arith
beq_source_iff none (some b) = ground arith
beq_source_iff (some a) none = ground arith

abbrev pub beq_id : MessageId → MessageId → Bool
beq_id (a, b, c) (a', b', c') = beq_source a a' && (b == b') && (c == c')

beq_id_sound : (x y : MessageId) → beq_id x y ≡ true → x ≡ y
beq_id_sound (a, b, c) (a', b', c') h =
    let (source_node, session) = &&_true (beq_source a a' && (b == b')) (c == c') h in
    let (source, node) = &&_true (beq_source a a') (b == b') source_node in
    let same_source = (beq_source_iff a a').0 source in
    let same_node = (bytes_eq.beq_iff b b').0 node in
    let same_session = (nat_eq.beq_iff c c').0 session in
    rw (same_source, same_node, same_session) refl

beq_id_refl : (x : MessageId) → beq_id x x ≡ true
beq_id_refl (a, b, c) = rw ((beq_source_iff a a).1 refl, ==_refl b, ==_refl c)

pub beq_id_iff : (x y : MessageId) → (beq_id x y ≡ true) ↔ (x ≡ y)
beq_id_iff x y = (beq_id_sound x y, λ h. rw h (beq_id_refl y))

instance abbrev pub id_eq : Eq MessageId
id_eq = record { beq = beq_id; beq_iff = beq_id_iff }

-- A state machine with its queue, the first event first. `crashed` says that a handler has raised,
-- which has ended the thread.
pub record Session : Type 0 where
  pub machine : Machine
  pub queue : List Event
  pub crashed : Bool

-- `sessions` and `send_list` hold references to state machines, which `objects` resolves: a machine
-- that was removed from `sessions` still exists while `send_list` refers to it. `created` is the next
-- reference. `data_thread` says that the thread of `_manage_data_queue` still runs.
pub record Server : Type 0 where
  pub whitelist : ProvisioningData
  pub sessions : Dict MessageId ℕ
  pub send_list : Dict ℕ ℕ
  pub request_queue : List (ℕ × Packet)
  pub objects : Dict ℕ Session
  pub created : ℕ
  pub data_thread : Bool

-- `__init__`
abbrev pub new_server : ProvisioningData → Server
new_server whitelist = record {
  whitelist = whitelist;
  sessions = [];
  send_list = [];
  request_queue = [];
  objects = [];
  created = 0;
  data_thread = true;
}

-- `event_q.put`
abbrev pub queued : Event → Session → Session
queued e o = record o { queue = o.queue ++ e ∷ [] }

unfoldable pub put_event : ℕ → Event → Server → Server
put_event r e s = elim (lookup r s.objects) [
  | none ↦ s
  | some o ↦ record s { objects = insert r (queued e o) s.objects }
]

abbrev pub new_session : MessageId → ProvisioningData → ℕ → Session
new_session id whitelist counter = record {
  machine = new_machine id whitelist counter;
  queue = [];
  crashed = false;
}

-- The creation of a state machine, whose counter is drawn at random.
unfoldable pub open_session : MessageId → ℕ → Server → Server
open_session id counter s = record s {
  sessions = insert id s.created s.sessions;
  objects = insert s.created (new_session id s.whitelist counter) s.objects;
  created = s.created + 1;
}

-- The packet goes to the session with its identifier, which is created if there is none.
unfoldable pub route : Message → ℕ → Server → Server
unfolding put_event open_session
route msg counter s = elim (lookup (msg_id (header_of msg)) s.sessions) [
  | some r ↦ put_event r (packet_received msg) s
  | none ↦
      put_event s.created (packet_received msg) (open_session (msg_id (header_of msg)) counter s)
]

-- One round of `_manage_data_queue`, from what the factory has made of the packet. An exception that
-- is not caught ends the thread.
abbrev pub receive_result : Result Message → ℕ → Server → Server
receive_result (ok msg) counter s = route msg counter s
receive_result (err provisioning_message) counter s = s
receive_result (err _) counter s = record s { data_thread = false }

unfoldable pub receive : GenericMessage → ℕ → Server → Server
receive g counter s = if s.data_thread then receive_result (map_message g) counter s else s

-- One round of `_manage_response_queue`
unfoldable pub respond : ℕ → ResultCode → Server → Server
unfolding put_event
respond req_id res s = elim (lookup req_id s.send_list) [
  | none ↦ s
  | some r ↦
      let s' = put_event r (packet_sent req_id res) s in
      record s' { send_list = erase req_id s'.send_list }
]

-- The status that `loop` looks at. A machine that there is not has none.
abbrev pub is_over : Option Session → Bool
is_over none = false
is_over (some o) = not (is_ongoing o.machine.status)

-- One round of the loop over the keys in `loop`
unfoldable pub end_session : MessageId → Server → Server
end_session id s = elim (lookup id s.sessions) [
  | none ↦ s
  | some r ↦ if is_over (lookup r s.objects) then record s { sessions = erase id s.sessions } else s
]

unfoldable pub end_sessions : List MessageId → Server → Server
unfolding end_session
end_sessions [] s = s
end_sessions (id ∷ ids) s = end_sessions ids (end_session id s)

-- One round of `loop`
unfoldable pub sweep : Server → Server
unfolding end_sessions
sweep s = end_sessions (map (λ p. p.0) s.sessions) s

-- `_timeout`, called by a timer that was started. That a timer rings only once is left out: the
-- theorems hold also if it rings again.
abbrev pub rings : Option Timer → Bool
rings (some (started d)) = true
rings _ = false

unfoldable pub elapse : ℕ → Server → Server
unfolding put_event
elapse r s = elim (lookup r s.objects) [
  | none ↦ s
  | some o ↦ if rings o.machine.timer then put_event r timeout s else s
]

abbrev pub has_raised : Result (Unit {0}) → Bool
has_raised (ok tt') = false
has_raised (err x) = true

-- The condition of the loop of `run`, in a thread that no exception has ended.
abbrev pub runs : Session → Bool
runs o = not o.crashed && is_ongoing o.machine.status

-- What the threads and the timers do.
pub data Action : Type 0 where
  receives : GenericMessage → ℕ → Action
  responds : ℕ → ResultCode → Action
  takes_event : ℕ → Action
  elapses : ℕ → Action
  ends_session : MessageId → Action

-- What the messaging library draws for the request number `n` is `draw n`.
module _ (crypto : Crypto) (draw : ℕ → ℕ) where
  -- `send_packet`
  unfoldable pub send_packet : ℕ → Packet → Server → Server
  send_packet r p s = record s {
    send_list = insert (draw (length s.request_queue)) r s.send_list;
    request_queue = s.request_queue ++ (draw (length s.request_queue), p) ∷ [];
  }

  unfoldable pub send_packets : ℕ → List Packet → Server → Server
  unfolding send_packet
  send_packets r [] s = s
  send_packets r (p ∷ ps) s = send_packets r ps (send_packet r p s)

  -- A session's thread handles an event. The packets that the handler sends are those that it adds.
  abbrev pub handled : ℕ → Session → Event → List Event → Server → Server
  handled r o e rest s =
      let (q, m) = step crypto e o.machine in
      send_packets r (drop (length o.machine.sent) m.sent) (record s {
        objects = insert r (record { machine = m; queue = rest; crashed = has_raised q }) s.objects;
      })

  abbrev pub next_event : ℕ → Session → List Event → Server → Server
  next_event r o [] s = s
  next_event r o (e ∷ rest) s = handled r o e rest s

  -- One round of the loop of `run`, of the machine with the reference `r`
  unfoldable pub take_event : ℕ → Server → Server
  unfolding send_packets
  take_event r s = elim (lookup r s.objects) [
    | none ↦ s
    | some o ↦ if runs o then next_event r o o.queue s else s
  ]

  unfoldable pub act : Action → Server → Server
  unfolding receive respond take_event elapse end_session
  act (receives g counter) s = receive g counter s
  act (responds req_id res) s = respond req_id res s
  act (takes_event r) s = take_event r s
  act (elapses r) s = elapse r s
  act (ends_session id) s = end_session id s

  unfoldable pub acts : List Action → Server → Server
  unfolding act
  acts [] s = s
  acts (a ∷ more) s = acts more (act a s)
