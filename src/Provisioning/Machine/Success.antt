-- ===== src/Provisioning/Machine/Success.antt =====
-- What a session must have seen to report SUCCESS.
use mathlib.Core.Path.{subst, sym}
use backend_client.Base.{
  ap, ◌∙◌, ℕ, ◌≡◌, ◌≢◌, refl, true, List, [], ◌∷◌, arith, ◌⊎◌, inl, inr, Bool-cases,
}
use backend_client.Provisioning.Message.{MessageId}
use backend_client.Provisioning.Data.{ProvisioningData}
use backend_client.Provisioning.Events.{Event}
use backend_client.Provisioning.Machine.Defs.{
  Machine, Crypto, State, idle, wait_data_sent, wait_response, wait_nack_sent, ongoing, success,
}
use backend_client.Provisioning.Machine.{step, run, new_machine, is_ongoing}
use backend_client.Provisioning.Machine.Invariant.{Inv, step-Inv}
use backend_client.Provisioning.Machine.Rounds.{seq_rule}
use backend_client.Provisioning.Machine.Invariant.{new_machine-Inv, run_over}
use backend_client.Provisioning.Machine.Advances.{
  IsAuthorizedStart, IsSentOk, IsAck, Then, Then-skip, Any, Missing, step-Advances,
}

-- One event makes up for at most one thing that is missing.
module _ (w : ProvisioningData) (e : Event) (es : List Event) where
  acked : (s : State) → (s ≡ wait_response) × IsAck e → Missing w s (e ∷ es)
  acked s (p, k) = subst (λ z. Missing w z (e ∷ es)) (sym p) (inl (k, tt))

  still-Missing : (s : State) → Missing w s es → Missing w s (e ∷ es)
  still-Missing idle h = inr h
  still-Missing wait_data_sent h = inr h
  still-Missing wait_response h = inr h
  still-Missing wait_nack_sent h = h

  Missing-restart :
      (s : State)
      → s ≢ wait_nack_sent
      → (s ≡ idle → IsAuthorizedStart w e)
      → Missing w wait_data_sent es
      → Missing w s (e ∷ es)
  Missing-restart idle n a h = inl (a refl, h)
  Missing-restart wait_data_sent n a h = inr h
  Missing-restart wait_response n a h = inr (Then-skip IsSentOk IsAck Any es h)
  Missing-restart wait_nack_sent n a h = absurd (n refl)

  Missing-step :
      (s s' : State)
      → s ≢ wait_nack_sent
      → (s' ≡ s)
        ⊎ ((s' ≡ wait_data_sent) × (s ≡ idle → IsAuthorizedStart w e))
        ⊎ ((s' ≡ wait_response) × (s ≡ wait_data_sent) × IsSentOk e)
      → Missing w s' es
      → Missing w s (e ∷ es)
  Missing-step s s' n (inl same) h = still-Missing s (subst (λ z. Missing w z es) same h)
  Missing-step s s' n (inr (inl (p, a))) h = Missing-restart s n a (subst (λ z. Missing w z es) p h)
  Missing-step s s' n (inr (inr (p, q, k))) h =
      subst (λ z. Missing w z (e ∷ es)) (sym q) (inl (k, subst (λ z. Missing w z es) p h))

run-Missing :
    (crypto : Crypto) (es : List Event) (m : Machine)
    → Inv m
    → m.status ≡ ongoing
    → (run crypto es m).1.status ≡ success
    → Missing m.whitelist m.state es
unfolding run
run-Missing crypto [] m i o h = absurd (cc)
run-Missing crypto (e ∷ es) m i o h =
    let a = step-Advances crypto e m o i in
    let live : is_ongoing m.status ≡ true = ap is_ongoing o in
    let m' = (step crypto e m).1 in
    let by_ack = λ (q : m'.status ≡ success). acked m.whitelist e es m.state (a.success_by_ack q) in
    seq_rule (λ r. r.1.status ≡ success → Missing m.whitelist m.state (e ∷ es)) (step crypto e)
      (run crypto es) m (λ x. by_ack)
      (λ _ q. elim (Bool-cases (is_ongoing m'.status)) [
        | inr over ↦ by_ack (sym (ap (λ z. z.1.status) (run_over crypto es m' over)) ∙ q)
        | inl more ↦
            let o' : m'.status ≡ ongoing = ground arith in
            Missing-step m.whitelist e es m.state m'.state (i.never_nack o) (a.moves o') (
              subst (λ w. Missing w m'.state es) a.whitelist
                (run-Missing crypto es m' (step-Inv crypto e m o i) o' q))
      ])
      (rw live at h)

-- A session that reports SUCCESS has received a START packet of a node that is authorised with the
-- method of the packet, after it the gateway's answer that a packet was sent, and after that a
-- DATA_ACK packet.
pub session_success :
    (crypto : Crypto) (es : List Event) (id : MessageId) (whitelist : ProvisioningData)
    (counter : ℕ)
    → (run crypto es (new_machine id whitelist counter)).1.status ≡ success
    → Then (IsAuthorizedStart whitelist) (Then IsSentOk (Then IsAck Any)) es
session_success crypto es id whitelist counter h =
    run-Missing crypto es (new_machine id whitelist counter) (new_machine-Inv id whitelist counter)
      refl h
