-- ===== src/Provisioning/Machine/Advances.antt =====
-- How an event moves a session towards SUCCESS.
use mathlib.Core.Path.{subst}
use backend_client.Base.{ap, ◌∙◌, ◌≡◌, refl, Bool, true, List, [], ◌∷◌, arith, ◌⊎◌, inl, inr}
use backend_client.Base.Exceptions.{Result, ok, err}
use backend_client.Provisioning.Message.{
  Start, Header, Message, start_message, data_message, data_ack_message, nack_message, header_of,
}
use backend_client.Provisioning.Data.{ProvisioningData}
use backend_client.Provisioning.Events.{
  Event, timeout, packet_received, packet_sent, gw_res_ok, gw_res_other,
}
use backend_client.Provisioning.Machine.Defs.{
  Machine, Crypto, State, idle, wait_data_sent, wait_response, wait_nack_sent, ongoing, success,
}
use backend_client.Provisioning.Machine.Monad.{M, ◌>>◌}
use backend_client.Provisioning.Machine.Actions.{update_origin, timer_start, set_state}
use backend_client.Provisioning.Machine.{
  process_start, is_authorized, step, dispatch, process_error_data, on_response, state_idle,
  state_wait_data_sent, state_wait_response,
}
use backend_client.Provisioning.Machine.Outcomes.{StartsSession, process_start-StartsSession}
use backend_client.Provisioning.Machine.Invariant.{Inv}
use backend_client.Provisioning.Machine.Rounds.{seq_rule, update_origin_lem}

-- A START packet of a node that is authorised with its method.
abbrev pub IsAuthorizedStart : ProvisioningData → Event → Type 0
IsAuthorizedStart whitelist (packet_received (start_message msg)) =
    is_authorized msg whitelist ≡ true
IsAuthorizedStart _ _ = ⊥

-- The gateway's answer that a packet has been sent.
abbrev pub IsSentOk : Event → Type 0
IsSentOk (packet_sent req_id gw_res_ok) = Unit
IsSentOk _ = ⊥

abbrev pub IsAck : Event → Type 0
IsAck (packet_received (data_ack_message h)) = Unit
IsAck _ = ⊥

-- An event that satisfies `P` is among the events, and what comes after it satisfies `K`.
abbrev pub Then : (Event → Type 0) → (List Event → Type 0) → List Event → Type 0
Then P K [] = ⊥
Then P K (e ∷ es) = (P e × K es) ⊎ Then P K es

pub Then-skip :
    (P Q : Event → Type 0) (K : List Event → Type 0) (es : List Event)
    → Then P (Then Q K) es
    → Then Q K es
Then-skip P Q K [] h = h
Then-skip P Q K (e ∷ es) (inl (p, h)) = inr h
Then-skip P Q K (e ∷ es) (inr h) = inr (Then-skip P Q K es h)

abbrev pub Any : List Event → Type 0
Any _ = Unit

-- What is still missing for a success, by the state.
abbrev pub Missing : ProvisioningData → State → List Event → Type 0
Missing w idle = Then (IsAuthorizedStart w) (Then IsSentOk (Then IsAck Any))
Missing w wait_data_sent = Then IsSentOk (Then IsAck Any)
Missing w wait_response = Then IsAck Any
Missing w wait_nack_sent = λ _. ⊥

-- How a round moves an ongoing session on.
pub record Advances (s : State) (w : ProvisioningData) (e : Event) (r : Result (Unit {0}) × Machine)
    : Type 0 where
  pub whitelist : r.1.whitelist ≡ w
  pub success_by_ack : r.1.status ≡ success → (s ≡ wait_response) × IsAck e
  pub moves :
      r.1.status ≡ ongoing
      → (r.1.state ≡ s)
        ⊎ ((r.1.state ≡ wait_data_sent) × (s ≡ idle → IsAuthorizedStart w e))
        ⊎ ((r.1.state ≡ wait_response) × (s ≡ wait_data_sent) × IsSentOk e)

process_error_data-Advances :
    (e : Event) (m : Machine)
    → m.status ≡ ongoing
    → m.state ≡ wait_data_sent
    → Advances wait_data_sent m.whitelist e (process_error_data m)
unfolding process_error_data
process_error_data-Advances e m o s = ground arith

state_wait_data_sent-Advances :
    (e : Event) (m : Machine)
    → m.status ≡ ongoing
    → m.state ≡ wait_data_sent
    → Advances wait_data_sent m.whitelist e (state_wait_data_sent e m)
unfolding state_wait_data_sent timer_start
state_wait_data_sent-Advances (packet_sent req_id gw_res_ok) m o s = ground arith
state_wait_data_sent-Advances (packet_sent req_id (gw_res_other n)) m o s =
    process_error_data-Advances _ m o s
state_wait_data_sent-Advances timeout m o s = process_error_data-Advances _ m o s
state_wait_data_sent-Advances _ m o s = ground arith

module _ (crypto : Crypto) where
  process_start-Advances :
      (msg : Start) (m : Machine)
      → m.status ≡ ongoing
      → m.state ≡ idle
      → Advances idle m.whitelist (packet_received (start_message msg)) (process_start crypto msg m)
  process_start-Advances msg m o s = ground (arith, process_start-StartsSession crypto msg m)

  restart-Advances :
      (authorized : Bool) (e : Event) (m : Machine) (r : Result (Unit {0}) × Machine)
      → m.status ≡ ongoing
      → m.state ≡ wait_response
      → StartsSession authorized m r
      → Advances wait_response m.whitelist e
          (◌>>◌ (λ _. r) (timer_start >> set_state wait_data_sent) m)
  unfolding timer_start
  restart-Advances a e m (ok tt', m') o s h = ground arith
  restart-Advances a e m (err x, m') o s h = ground arith

  on_response-Advances :
      (msg : Message) (m : Machine)
      → m.status ≡ ongoing
      → m.state ≡ wait_response
      → Advances wait_response m.whitelist (packet_received msg) (on_response crypto msg m)
  unfolding on_response
  on_response-Advances (start_message msg) m o s =
      restart-Advances (is_authorized msg m.whitelist) _ m (process_start crypto msg m) o s
        (process_start-StartsSession crypto msg m)
  on_response-Advances (data_message msg) m o s = ground arith
  on_response-Advances (data_ack_message h) m o s = ground arith
  on_response-Advances (nack_message msg) m o s = ground arith

  after_origin :
      (s : State) (h : Header) (e : Event) (k : M (Unit {0})) (m : Machine)
      → m.status ≡ ongoing
      → m.state ≡ s
      → ((m' : Machine) → m'.status ≡ ongoing → m'.state ≡ s → Advances s m'.whitelist e (k m'))
      → Advances s m.whitelist e ((update_origin h >> k) m)
  after_origin s h e k m o p round =
      seq_rule (Advances s m.whitelist e) (update_origin h) k m
        (λ x. ground (arith, update_origin_lem h m))
        (λ _.
          let m' = (update_origin h m).1 in
          let same = update_origin_lem h m in
          subst (λ w. Advances s w e (k m')) (ap (λ z. z.whitelist) same)
            (round m' (ap (λ z. z.status) same ∙ o) (ap (λ z. z.state) same ∙ p)))

  state_idle-Advances :
      (e : Event) (m : Machine)
      → m.status ≡ ongoing
      → m.state ≡ idle
      → Advances idle m.whitelist e (state_idle crypto e m)
  unfolding state_idle
  state_idle-Advances (packet_received (start_message msg)) m o s =
      after_origin idle msg.header _ (process_start crypto msg) m o s (process_start-Advances msg)
  state_idle-Advances _ m o s = ground arith

  state_wait_response-Advances :
      (e : Event) (m : Machine)
      → m.status ≡ ongoing
      → m.state ≡ wait_response
      → Advances wait_response m.whitelist e (state_wait_response crypto e m)
  unfolding state_wait_response
  state_wait_response-Advances (packet_received msg) m o s =
      after_origin wait_response (header_of msg) _ (on_response crypto msg) m o s
        (on_response-Advances msg)
  state_wait_response-Advances _ m o s = ground arith

  pub step-Advances :
      (e : Event) (m : Machine)
      → m.status ≡ ongoing
      → Inv m
      → Advances m.state m.whitelist e (step crypto e m)
  unfolding step dispatch
  step-Advances e m o i = by_state m.state refl
    where
      by_state : (s : State) → m.state ≡ s → Advances s m.whitelist e (dispatch crypto s e m)
      by_state idle p = state_idle-Advances e m o p
      by_state wait_data_sent p = state_wait_data_sent-Advances e m o p
      by_state wait_response p = state_wait_response-Advances e m o p
      by_state wait_nack_sent p = absurd (i.never_nack o p)
