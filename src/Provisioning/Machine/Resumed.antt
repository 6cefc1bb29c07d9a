-- ===== src/Provisioning/Machine/Resumed.antt =====
-- A session that takes one event more.
use backend_client.Base.{◌≡◌, refl, sym, ap, ◌∙◌, true, List, [], ◌∷◌, ◌++◌, inl, inr, Bool-cases}
use backend_client.Base.Exceptions.{Result, ok, err}
use backend_client.Provisioning.Events.{Event}
use backend_client.Provisioning.Machine.Defs.{Machine, Crypto}
use backend_client.Provisioning.Machine.Monad.{◌>>◌}
use backend_client.Provisioning.Machine.{step, run, is_ongoing}

module _ (crypto : Crypto) where
  run-last :
      (e : Event) (m : Machine)
      → is_ongoing m.status ≡ true
      → run crypto (e ∷ []) m ≡ step crypto e m
  unfolding run
  run-last e m live = rw live (go (step crypto e m))
    where
      go : (r : Result (Unit {0}) × Machine) → ◌>>◌ (λ _. r) (run crypto []) m ≡ r
      go (ok tt', m') = refl
      go (err x, m') = refl

  -- `run` on one event more is the round of that event, if the session was still under way.
  pub run-append :
      (es : List Event) (e : Event) (m m' : Machine)
      → run crypto es m ≡ (ok tt, m')
      → is_ongoing m'.status ≡ true
      → run crypto (es ++ e ∷ []) m ≡ step crypto e m'
  unfolding run
  run-append [] e m m' h live =
      let same : m ≡ m' = ap (λ r. r.1) h in
      rw (sym same) (run-last e m (ap (λ z. is_ongoing z.status) same ∙ live))
  run-append (d ∷ es) e m m' h live = elim (Bool-cases (is_ongoing m.status)) [
    | inl on ↦ rw on (go (step crypto d m) (rw on at h) (λ m0 p. run-append es e m0 m' p live))
    | inr off ↦
        let same : m ≡ m' = ap (λ r. r.1) (rw off at h) in
        let on = ap (λ z. is_ongoing z.status) same ∙ live in absurd (cc (off, on))
  ]
    where
      go :
          (r : Result (Unit {0}) × Machine)
          → ◌>>◌ (λ _. r) (run crypto es) m ≡ (ok tt, m')
          → ((m0 : Machine)
              → run crypto es m0 ≡ (ok tt, m')
              → run crypto (es ++ e ∷ []) m0 ≡ step crypto e m')
          → ◌>>◌ (λ _. r) (run crypto (es ++ e ∷ [])) m ≡ step crypto e m'
      go (ok tt', m0) p more = more m0 p
      go (err x, m0) p more = absurd (cc p)
