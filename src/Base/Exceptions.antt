-- ===== src/Base/Exceptions.antt =====
-- Python's exceptions as values, and the monad of code that may raise.
use backend_client.Base.{
  ℕ, Bytes, get_elem?, ◌≡◌, refl, Bool, true, false, Option, none, some, ◌⊎◌, inl, inr,
}

-- The exceptions of the interpreter and of the standard library that the modelled code can meet,
-- and the library's own ones: a message that is no provisioning message, a bad configuration, and a
-- request identifier that is in use.
pub data Exception : Type 0 where
  index_error key_error value_error overflow_error type_error attribute_error : Exception
  struct_error provisioning_message provisioning_data duplicate_req_id zero_division : Exception

pub data Result {ℓ} (A : Type ℓ) : Type ℓ where
  ok : A → Result A
  err : Exception → Result A

module _ {ℓ κ} {A : Type ℓ} {B : Type κ} where
  infixl 5 ◌>>=◌
  -- An exception skips what follows.
  abbrev pub ◌>>=◌ : Result A → (A → Result B) → Result B
  err raised >>= next = err raised
  ok value >>= next = next value

  -- Code that returned has returned from its first part.
  pub >>=-eq-ok :
      {b : B} (first : Result A) (next : A → Result B)
      → (first >>= next) ≡ ok b
      → (value : A) × (first ≡ ok value) × (next value ≡ ok b)
  >>=-eq-ok (err raised) next returned = cc
  >>=-eq-ok (ok value) next returned = (value, refl, returned)

-- Steps that agree may be nested either way.
pub >>=-assoc {ℓ κ μ} :
    {A : Type ℓ} {B : Type κ} {C : Type μ} (r : Result A) (f : A → Result B) (g : B → Result C)
    {h : A → Result C}
    → ((a : A) → h a ≡ (f a >>= g))
    → (r >>= h) ≡ (r >>= f >>= g)
>>=-assoc (ok a) f g agree = agree a
>>=-assoc (err x) f g agree = refl

module _ {ℓ} {B : Type ℓ} where
  infixl 5 ◌>>◌
  abbrev pub ◌>>◌ : Result (Unit {0}) → Result B → Result B
  first >> next = first >>= λ _. next

-- `if not c: raise x`
abbrev pub require : Bool → Exception → Result (Unit {0})
require true x = ok tt
require false x = err x

-- A value that may be missing, and what is raised if it is.
abbrev pub or_raise {ℓ} : {A : Type ℓ} → Option A → Exception → Result A
or_raise none x = err x
or_raise (some a) x = ok a

-- `b[i]`
abbrev pub index : Bytes → ℕ → Result ℕ
index b i = or_raise (get_elem? b i) index_error

pub or_raise-eq-ok {ℓ} :
    {A : Type ℓ} (o : Option A) (x : Exception) {a : A} → or_raise o x ≡ ok a → o ≡ some a
or_raise-eq-ok none x h = cc
or_raise-eq-ok (some b) x h = cc

pub Result-cases {ℓ} :
    {A : Type ℓ} (r : Result A) → ((a : A) × (r ≡ ok a)) ⊎ ((x : Exception) × (r ≡ err x))
Result-cases (ok a) = inl (a, refl)
Result-cases (err x) = inr (x, refl)

pub ok-eq {ℓ} : {A : Type ℓ} {a b : A} → ok a ≡ ok b → a ≡ b
ok-eq h = cc
