-- ===== src/Base/Equality.antt =====
-- Decidable equality by a Boolean test, as an interface with instances.
use Prim.Native.Nat.{ℕ}
use Prim.Native.String.{String}
use mathlib.Core.Path.{◌≡◌, refl, sym, ap₂}
use mathlib.Core.Logic.{◌↔◌, ◌≢◌, inl, inr}
use mathlib.Core.List.{List, [], ◌∷◌}
use mathlib.Core.Bool.{Bool, true, false, ◌&&◌}
use native.Mathlib.Omega.{arith}
use text.Mathlib.Text.{◌==◌ as str_eq}
use text.Mathlib.TextEquality.{eq_iff}
use backend_client.Base.Tests.{eqb, eqb_iff, &&_true, Bool-cases}

-- `beq` is Python's `==` on a type, and decides equality.
pub record Eq {ℓ} (A : Type ℓ) : Type ℓ where
  pub beq : A → A → Bool
  pub beq_iff : (x y : A) → (beq x y ≡ true) ↔ (x ≡ y)

module _ {ℓ} {A : Type ℓ} ⦃e : Eq A⦄ where
  infix 50 ◌==◌
  abbrev pub ◌==◌ : A → A → Bool
  x == y = e.beq x y

  pub ==_refl : (a : A) → (a == a) ≡ true
  ==_refl a = (e.beq_iff a a).1 refl

  pub ==_ne : (a b : A) → a ≢ b → (a == b) ≡ false
  ==_ne a b h = elim (Bool-cases (a == b)) [
    | inl same ↦ absurd (h ((e.beq_iff a b).0 same))
    | inr other ↦ other
  ]

  pub ne_of_== : (a b : A) → (a == b) ≡ false → a ≢ b
  ne_of_== a b h p = cc (h, (e.beq_iff a b).1 p)

  pub ==_sym : (a b : A) → (a == b) ≡ false → (b == a) ≡ false
  ==_sym a b h = ==_ne b a (λ p. ne_of_== a b h (sym p))

instance abbrev pub nat_eq : Eq ℕ
nat_eq = record { beq = eqb; beq_iff = eqb_iff }

instance abbrev pub string_eq : Eq String
string_eq = record { beq = str_eq; beq_iff = eq_iff }

-- Byte strings.
abbrev pub beq_bytes : List ℕ → List ℕ → Bool
beq_bytes [] [] = true
beq_bytes (x ∷ xs) (y ∷ ys) = eqb x y && beq_bytes xs ys
beq_bytes _ _ = false

beq_bytes_refl : (a : List ℕ) → beq_bytes a a ≡ true
beq_bytes_refl [] = refl
beq_bytes_refl (x ∷ xs) = ground (arith, beq_bytes_refl xs)

pub beq_bytes_sound : (a b : List ℕ) → beq_bytes a b ≡ true → a ≡ b
beq_bytes_sound [] [] h = refl
beq_bytes_sound [] (y ∷ ys) h = cc
beq_bytes_sound (x ∷ xs) [] h = cc
beq_bytes_sound (x ∷ xs) (y ∷ ys) h =
    let (p, q) = &&_true (eqb x y) (beq_bytes xs ys) h in
    ap₂ (λ a b. a ∷ b) ((eqb_iff x y).0 p) (beq_bytes_sound xs ys q)

pub beq_bytes_iff : (a b : List ℕ) → (beq_bytes a b ≡ true) ↔ (a ≡ b)
beq_bytes_iff a b = (beq_bytes_sound a b, λ p. rw p (beq_bytes_refl b))

instance abbrev pub bytes_eq : Eq (List ℕ)
bytes_eq = record { beq = beq_bytes; beq_iff = beq_bytes_iff }
