-- ===== src/Provisioning/Machine/Invariant.antt =====
-- What holds of a state machine between two events, whatever the events are.
use backend_client.Base.{
  ℕ, ◌≡◌, ◌≢◌, refl, Bool, false, none, some, List, [], ◌∷◌, arith, inl, inr, Bool-cases,
}
use backend_client.Base.Int.{pos, ◌≤ℤ◌}
use backend_client.Base.Exceptions.{Result, ok, err}
use backend_client.Provisioning.Message.{
  Start, Header, Message, start_message, data_message, data_ack_message, nack_message, header_of,
  MessageId,
}
use backend_client.Provisioning.Data.{ProvisioningData}
use backend_client.Provisioning.Events.{
  Event, timeout, packet_received, packet_sent, gw_res_ok, gw_res_other,
}
use backend_client.Provisioning.Machine.Defs.{
  Machine, Crypto, State, idle, wait_data_sent, wait_response, wait_nack_sent, ongoing, started,
}
use backend_client.Provisioning.Machine.Monad.{M, ◌>>◌}
use backend_client.Provisioning.Machine.Actions.{update_origin, timer_start, set_state}
use backend_client.Provisioning.Machine.{
  process_start, is_authorized, step, run, new_machine, is_ongoing, dispatch, process_error_data,
  on_response, state_idle, state_wait_data_sent, state_wait_response,
}
use backend_client.Provisioning.Machine.Outcomes.{StartsSession, process_start-StartsSession}

pub record Inv (m : Machine) : Type 0 where
  pub never_nack : m.status ≡ ongoing → m.state ≢ wait_nack_sent
  pub armed : m.status ≡ ongoing → m.state ≢ idle → m.timer ≡ some (started m.delay)
  pub has_packet : m.status ≡ ongoing → m.state ≢ idle → m.data_pkt ≢ none
  pub retries : m.status ≡ ongoing → pos 0 ≤ℤ m.retry

-- A sequence keeps what its parts keep, also where the first one raises.
pub keeps_seq :
    (P : Machine → Type 0) (f k : M (Unit {0})) (m : Machine)
    → P (f m).1
    → ((m' : Machine) → P m' → P (k m').1)
    → P ((f >> k) m).1
keeps_seq P f k m h keep = go (f m) h
  where
    go : (r : Result (Unit {0}) × Machine) → P r.1 → P (◌>>◌ (λ _. r) k m).1
    go (ok tt', m') p = keep m' p
    go (err x, m') p = p

update_origin-Inv : (h : Header) (m : Machine) → Inv m → Inv (update_origin h m).1
unfolding update_origin
update_origin-Inv h m i = ground arith

process_error_data-Inv : (m : Machine) → m.state ≢ idle → Inv m → Inv (process_error_data m).1
unfolding process_error_data
process_error_data-Inv m s i = ground arith

state_wait_data_sent-Inv :
    (e : Event) (m : Machine) → m.state ≢ idle → Inv m → Inv (state_wait_data_sent e m).1
unfolding state_wait_data_sent timer_start
state_wait_data_sent-Inv (packet_sent req_id gw_res_ok) m s i = ground arith
state_wait_data_sent-Inv (packet_sent req_id (gw_res_other n)) m s i = process_error_data-Inv m s i
state_wait_data_sent-Inv timeout m s i = process_error_data-Inv m s i
state_wait_data_sent-Inv _ m s i = i

module _ (crypto : Crypto) where
  process_start-Inv : (msg : Start) (m : Machine) → Inv m → Inv (process_start crypto msg m).1
  process_start-Inv msg m i = ground (arith, process_start-StartsSession crypto msg m)

  restart-Inv :
      (authorized : Bool) (m : Machine) (r : Result (Unit {0}) × Machine)
      → Inv m
      → StartsSession authorized m r
      → Inv (◌>>◌ (λ _. r) (timer_start >> set_state wait_data_sent) m).1
  unfolding timer_start
  restart-Inv authorized m (ok tt', m') i h = ground arith
  restart-Inv authorized m (err x, m') i h = ground arith

  on_response-Inv : (msg : Message) (m : Machine) → Inv m → Inv (on_response crypto msg m).1
  unfolding on_response
  on_response-Inv (start_message msg) m i =
      restart-Inv (is_authorized msg m.whitelist) m (process_start crypto msg m) i
        (process_start-StartsSession crypto msg m)
  on_response-Inv (data_message msg) m i = i
  on_response-Inv (data_ack_message h) m i = ground arith
  on_response-Inv (nack_message msg) m i = ground arith

  state_idle-Inv : (e : Event) (m : Machine) → Inv m → Inv (state_idle crypto e m).1
  unfolding state_idle
  state_idle-Inv (packet_received (start_message msg)) m i =
      keeps_seq Inv (update_origin msg.header) (process_start crypto msg) m
        (update_origin-Inv msg.header m i) (process_start-Inv msg)
  state_idle-Inv _ m i = ground arith

  state_wait_response-Inv :
      (e : Event) (m : Machine) → Inv m → Inv (state_wait_response crypto e m).1
  unfolding state_wait_response
  state_wait_response-Inv (packet_received msg) m i =
      keeps_seq Inv (update_origin (header_of msg)) (on_response crypto msg) m
        (update_origin-Inv (header_of msg) m i) (on_response-Inv msg)
  state_wait_response-Inv _ m i = ground arith

  -- Every event keeps the invariant, also one whose handler raises.
  pub step-Inv : (e : Event) (m : Machine) → m.status ≡ ongoing → Inv m → Inv (step crypto e m).1
  unfolding step dispatch
  step-Inv e m o i = by_state m.state refl
    where
      by_state : (s : State) → m.state ≡ s → Inv (dispatch crypto s e m).1
      by_state idle p = state_idle-Inv e m i
      by_state wait_data_sent p = state_wait_data_sent-Inv e m (λ q. cc) i
      by_state wait_response p = state_wait_response-Inv e m i
      by_state wait_nack_sent p = absurd (i.never_nack o p)

-- What one round keeps, a session keeps.
pub run_keeps :
    (P : Machine → Type 0) (crypto : Crypto)
    → ((e : Event) (m : Machine) → m.status ≡ ongoing → P m → P (step crypto e m).1)
    → (es : List Event) (m : Machine) → P m
    → P (run crypto es m).1
unfolding run
run_keeps P crypto keep [] m p = p
run_keeps P crypto keep (e ∷ es) m p = elim (Bool-cases (is_ongoing m.status)) [
  | inl live ↦ rw live (
      keeps_seq P (step crypto e) (run crypto es) m (keep e m (ground arith) p)
        (λ m'. run_keeps P crypto keep es m'))
  | inr over ↦ rw over p
]

pub new_machine-Inv :
    (id : MessageId) (whitelist : ProvisioningData) (counter : ℕ)
    → Inv (new_machine id whitelist counter)
new_machine-Inv id whitelist counter = ground arith

run-Inv : (crypto : Crypto) (es : List Event) (m : Machine) → Inv m → Inv (run crypto es m).1
run-Inv crypto = run_keeps Inv crypto (step-Inv crypto)

-- In every session, after any events, also where a handler has raised: as long as its status is
-- ONGOING the machine is not in WAIT_NACK_SENT, its retries are not below 0, and outside IDLE its
-- timer runs and it has a DATA packet to repeat.
pub session-Inv :
    (crypto : Crypto) (es : List Event) (id : MessageId) (whitelist : ProvisioningData)
    (counter : ℕ)
    → Inv (run crypto es (new_machine id whitelist counter)).1
session-Inv crypto es id whitelist counter =
    run-Inv crypto es (new_machine id whitelist counter) (new_machine-Inv id whitelist counter)

-- A session that is over takes no more events.
pub run_over :
    (crypto : Crypto) (es : List Event) (m : Machine)
    → is_ongoing m.status ≡ false
    → run crypto es m ≡ (ok tt, m)
unfolding run
run_over crypto [] m h = refl
run_over crypto (e ∷ es) m h = rw h
