-- ===== src/Base/State.antt =====
-- Python's methods: a state and exceptions. What was written before a raise stays written.
use backend_client.Base.{◌≡◌, refl, ap}
use backend_client.Base.Exceptions.{Exception, Result, ok, err}

abbrev pub State : Type 0 → Type 0 → Type 0
State S A = S → Result A × S

module _ {S A B : Type 0} where
  infixl 5 ◌>>=◌
  abbrev pub ◌>>=◌ : State S A → (A → State S B) → State S B
  ◌>>=◌ f k s = let (r, s') = f s in elim r [ ok a ↦ k a s' | err x ↦ (err x, s') ]

module _ {S B : Type 0} where
  infixl 5 ◌>>◌
  abbrev pub ◌>>◌ : State S (Unit {0}) → State S B → State S B
  f >> k = f >>= λ _. k

module _ {S A : Type 0} where
  abbrev pub done : A → State S A
  done a s = (ok a, s)

  abbrev pub gets : (S → A) → State S A
  gets f s = (ok (f s), s)

  abbrev pub lift : Result A → State S A
  lift r s = (r, s)

abbrev pub modify : {S : Type 0} → (S → S) → State S (Unit {0})
modify f s = (ok tt, f s)

-- A sequence whose first part returns, and one whose first part raises.
module _ {S A B : Type 0} (f : State S A) (k : A → State S B) {s s' : S} where
  pub >>=-ok : {a : A} → f s ≡ (ok a, s') → (f >>= k) s ≡ k a s'
  >>=-ok p = ap (λ r. ◌>>=◌ (λ _. r) k s) p

  pub >>=-err : {x : Exception} → f s ≡ (err x, s') → (f >>= k) s ≡ (err x, s')
  >>=-err p = ap (λ r. ◌>>=◌ (λ _. r) k s) p

module _ {S A B : Type 0} (f : State S A) (k : A → State S B) {s : S} where
  -- What was raised is raised by the sequence.
  pub >>=-raised : {x : Exception} → (f s).0 ≡ err x → ((f >>= k) s).0 ≡ err x
  >>=-raised {x} h = passed (f s) h
    where
      passed : (r : Result A × S) → r.0 ≡ err x → (◌>>=◌ (λ _. r) k s).0 ≡ err x
      passed (ok a, t) p = absurd (cc)
      passed (err y, t) p = cc

  -- What holds of the state after the first part, and after the second where the first returns, holds
  -- after the sequence.
  pub >>=-holds :
      (P : S → Type 0)
      → P (f s).1
      → ((a : A) → (f s).0 ≡ ok a → P (k a (f s).1).1)
      → P ((f >>= k) s).1
  >>=-holds P first second = held (f s) refl first second
    where
      held :
          (r : Result A × S)
          → f s ≡ r
          → P r.1
          → ((a : A) → r.0 ≡ ok a → P (k a r.1).1)
          → P (◌>>=◌ (λ _. r) k s).1
      held (ok a, t) e one two = two a refl
      held (err x, t) e one two = one
