-- ===== src/Provisioning/Machine/Rounds.antt =====
-- What one round of the loop of `run` can report and send.
use backend_client.Base.{ℕ, ◌+◌, ◌≤◌, ◌≡◌, refl, List, [], ◌∷◌, arith, length, length-append}
use backend_client.Base.Int.{pos_part}
use backend_client.Base.Exceptions.{Exception, Result, ok, err}
use backend_client.Provisioning.Message.{
  Start, Header, Message, start_message, data_message, data_ack_message, nack_message, header_of,
}
use backend_client.Provisioning.Events.{
  Event, timeout, packet_received, packet_sent, gw_res_ok, gw_res_other,
}
use backend_client.Provisioning.Machine.Defs.{
  Machine, Crypto, State, idle, wait_data_sent, wait_response, wait_nack_sent, ongoing,
}
use backend_client.Provisioning.Machine.Monad.{M, ◌>>◌}
use backend_client.Provisioning.Machine.Actions.{update_origin, timer_start, set_state}
use backend_client.Provisioning.Machine.{
  process_start, step, dispatch, process_error_data, on_response, state_idle, state_wait_data_sent,
  state_wait_response,
}
use backend_client.Provisioning.Machine.Outcomes.{process_start-StartsSession}
use backend_client.Provisioning.Machine.Invariant.{Inv}

-- Whether an event is a START packet, as a number.
abbrev pub start_of : Event → ℕ
start_of (packet_received (start_message msg)) = 1
start_of _ = 0

-- How many START packets there are among the events.
abbrev pub starts : List Event → ℕ
starts [] = 0
starts (e ∷ es) = start_of e + starts es

-- What a round may do: a START packet allows one packet more, a repetition uses up a retry. The
-- session stays that of its node.
pub record IsRound (m : Machine) (n : ℕ) (r : Result (Unit {0}) × Machine) : Type 0 where
  pub bounded : length r.1.sent + pos_part r.1.retry ≤ length m.sent + pos_part m.retry + n
  pub same_id : r.1.sm_id ≡ m.sm_id

-- A sequence satisfies what holds after its first part has raised, or after both.
pub seq_rule :
    (Q : Result (Unit {0}) × Machine → Type 0) (f k : M (Unit {0})) (m : Machine)
    → ((x : Exception) → Q (err x, (f m).1))
    → ((f m).0 ≡ ok tt → Q (k (f m).1))
    → Q ((f >> k) m)
seq_rule Q f k m raised done' = go (f m) raised done'
  where
    go :
        (r : Result (Unit {0}) × Machine)
        → ((x : Exception) → Q (err x, r.1))
        → (r.0 ≡ ok tt → Q (k r.1))
        → Q (◌>>◌ (λ _. r) k m)
    go (ok tt', m') a b = b refl
    go (err x, m') a b = a x

pub update_origin_lem :
    (h : Header) (m : Machine)
    → let m' = (update_origin h m).1 in
      m' ≡ record m { sink_id = m'.sink_id; gw_id = m'.gw_id; tx_time = m'.tx_time }
unfolding update_origin
update_origin_lem h m = ground arith

process_error_data-IsRound :
    (m : Machine) → m.status ≡ ongoing → Inv m → IsRound m 0 (process_error_data m)
unfolding process_error_data
process_error_data-IsRound m o i = grind (arith, length-append)

state_wait_data_sent-IsRound :
    (e : Event) (m : Machine) → m.status ≡ ongoing → Inv m → IsRound m 0 (state_wait_data_sent e m)
unfolding state_wait_data_sent timer_start
state_wait_data_sent-IsRound (packet_sent req_id gw_res_ok) m o i = ground arith
state_wait_data_sent-IsRound (packet_sent req_id (gw_res_other n)) m o i =
    process_error_data-IsRound m o i
state_wait_data_sent-IsRound timeout m o i = process_error_data-IsRound m o i
state_wait_data_sent-IsRound _ m o i = ground arith

module _ (crypto : Crypto) where
  process_start-IsRound :
      (msg : Start) (m : Machine) → m.status ≡ ongoing → IsRound m 1 (process_start crypto msg m)
  process_start-IsRound msg m o = ground (arith, process_start-StartsSession crypto msg m)

  restart-IsRound :
      (m : Machine) (r : Result (Unit {0}) × Machine)
      → IsRound m 1 r
      → IsRound m 1 (◌>>◌ (λ _. r) (timer_start >> set_state wait_data_sent) m)
  unfolding timer_start
  restart-IsRound m (ok tt', m') h = ground arith
  restart-IsRound m (err x, m') h = ground arith

  on_response-IsRound :
      (msg : Message) (m : Machine)
      → m.status ≡ ongoing
      → IsRound m (start_of (packet_received msg)) (on_response crypto msg m)
  unfolding on_response
  on_response-IsRound (start_message msg) m o =
      restart-IsRound m (process_start crypto msg m) (process_start-IsRound msg m o)
  on_response-IsRound (data_message msg) m o = ground arith
  on_response-IsRound (data_ack_message h) m o = ground arith
  on_response-IsRound (nack_message msg) m o = ground arith

  -- The origin changes neither what is sent nor the retries.
  after_origin :
      (h : Header) (n : ℕ) (k : M (Unit {0})) (m : Machine)
      → m.status ≡ ongoing
      → ((m' : Machine) → m'.status ≡ ongoing → IsRound m' n (k m'))
      → IsRound m n ((update_origin h >> k) m)
  after_origin h n k m o round =
      seq_rule (IsRound m n) (update_origin h) k m (λ x. ground (arith, update_origin_lem h m))
        (λ _. ground (arith, update_origin_lem h m, round (update_origin h m).1))

  state_idle-IsRound :
      (e : Event) (m : Machine)
      → m.status ≡ ongoing
      → IsRound m (start_of e) (state_idle crypto e m)
  unfolding state_idle
  state_idle-IsRound (packet_received (start_message msg)) m o =
      after_origin msg.header 1 (process_start crypto msg) m o (process_start-IsRound msg)
  state_idle-IsRound _ m o = ground arith

  state_wait_response-IsRound :
      (e : Event) (m : Machine)
      → m.status ≡ ongoing
      → IsRound m (start_of e) (state_wait_response crypto e m)
  unfolding state_wait_response
  state_wait_response-IsRound (packet_received msg) m o =
      after_origin (header_of msg) (start_of (packet_received msg)) (on_response crypto msg) m o
        (on_response-IsRound msg)
  state_wait_response-IsRound _ m o = ground arith

  pub step-IsRound :
      (e : Event) (m : Machine)
      → m.status ≡ ongoing
      → Inv m
      → IsRound m (start_of e) (step crypto e m)
  unfolding step dispatch
  step-IsRound e m o i = by_state m.state refl
    where
      by_state : (s : State) → m.state ≡ s → IsRound m (start_of e) (dispatch crypto s e m)
      by_state idle p = state_idle-IsRound e m o
      by_state wait_data_sent p = ground (arith, state_wait_data_sent-IsRound e m o i)
      by_state wait_response p = state_wait_response-IsRound e m o
      by_state wait_nack_sent p = absurd (i.never_nack o p)
