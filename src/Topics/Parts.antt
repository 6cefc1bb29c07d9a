-- ===== src/Topics/Parts.antt =====
-- A topic is taken apart into the texts that it was made of.
use mathlib.Core.Path.{subst}
use mathlib.Core.List.{reverse, reverse-append, reverse-reverse}
use backend_client.Base.{
  ℕ, ◌≤◌, ◌≡◌, refl, sym, ap, ◌∙◌, arith, true, false, [], ◌∷◌, ◌++◌, All, eqb,
}
use backend_client.Base.Int.{pos}
use backend_client.Base.Exceptions.{ok}
use backend_client.Provisioning.Data.Convert.{strip, skip_spaces, digits, is_space}
use backend_client.Topics.{Text}
use backend_client.Topics.Decorators.{split, int, signed}

-- A text between slashes
abbrev pub IsItem : Text → Type 0
IsItem = All (λ c. eqb c b'/' ≡ false)

-- A text of digits that stands for a number
abbrev pub IsDigit : ℕ → Type 0
IsDigit c = (b'0' ≤ c) × (c ≤ b'9')

abbrev pub IsNumeral : ℕ → Text → Type 0
IsNumeral n t = (digits 10 0 true t ≡ ok n) × All IsDigit t

pub split-append : (t rest : Text) → IsItem t → split (t ++ b'/' ∷ rest) ≡ t ∷ split rest
unfolding split
split-append [] rest h = refl
split-append (c ∷ t) rest h = rw (h.0, split-append t rest h.1) refl

pub split-IsItem : (t : Text) → IsItem t → split t ≡ t ∷ []
unfolding split
split-IsItem [] h = refl
split-IsItem (c ∷ t) h = rw (h.0, split-IsItem t h.1) refl

pub IsItem-digits : (t : Text) → All IsDigit t → IsItem t
IsItem-digits [] h = tt
IsItem-digits (c ∷ t) h = (ground arith, IsItem-digits t h.1)

All-append_digits : (s t : Text) → All IsDigit s → All IsDigit t → All IsDigit (s ++ t)
All-append_digits [] t h k = k
All-append_digits (c ∷ s) t h k = (h.0, All-append_digits s t h.1 k)

reverse-digits : (t : Text) → All IsDigit t → All IsDigit (reverse t)
reverse-digits [] h = tt
reverse-digits (c ∷ t) h =
    subst (All IsDigit) (sym (reverse-append (c ∷ []) t))
      (All-append_digits (reverse t) (c ∷ []) (reverse-digits t h.1) (h.0, tt))

skip_spaces-digits : (t : Text) → All IsDigit t → skip_spaces t ≡ t
unfolding skip_spaces
skip_spaces-digits [] h = refl
skip_spaces-digits (c ∷ t) h = let digit : is_space c ≡ false = ground arith in rw digit refl

strip-digits : (t : Text) → All IsDigit t → strip t ≡ t
unfolding strip
strip-digits t h =
    ap (λ s. reverse (skip_spaces (reverse s))) (skip_spaces-digits t h)
    ∙ ap reverse (skip_spaces-digits (reverse t) (reverse-digits t h))
    ∙ reverse-reverse t

signed-digits : (n : ℕ) (t : Text) → IsNumeral n t → signed t ≡ ok (pos n)
unfolding digits
signed-digits n [] (p, h) = absurd (cc)
signed-digits n (c ∷ t) (p, h) =
    let minus : eqb c b'-' ≡ false = ground arith in
    let plus : eqb c b'+' ≡ false = ground arith in rw (minus, plus, p) refl

pub int-IsNumeral : (n : ℕ) (t : Text) → IsNumeral n t → int t ≡ ok (pos n)
unfolding int
int-IsNumeral n t h = ap signed (strip-digits t h.1) ∙ signed-digits n t h
