-- ===== src/Provisioning/Data/Hex.antt =====
-- The byte strings of the configuration, written in hexadecimal: what `_convert_to_bytes` reads.
use backend_client.Base.{
  ℕ, ◌+◌, ◌-◌, ◌/◌, ◌%◌, ◌≤◌, ◌<◌, ◌≡◌, ◌≢◌, ◌∙◌, refl, ap, Bool, true, false, some, List, [], ◌∷◌,
  arith, Bytes, ltb, if◌then◌else◌, map, All,
}
use backend_client.Base.Exceptions.{ok}
use backend_client.Provisioning.Data.{bytes, text}
use backend_client.Provisioning.Data.Convert.{
  upper_char, upper, remove_0x, hex_digit, from_hex, convert_to_bytes, starts_with_0x,
}

-- The digit for a number below 16, in either case.
unfoldable pub hex_char : Bool → ℕ → ℕ
hex_char capital n = if ltb n 10 then b'0' + n else if capital then b'A' + n - 10 else b'a' + n - 10

-- How a byte is spelled: the cases of its `x` and of its two digits
pub record Spelling : Type 0 where
  pub big_x : Bool
  pub big_high : Bool
  pub big_low : Bool

abbrev pub x_char : Bool → ℕ
x_char capital = if capital then b'X' else b'x'

-- A byte under its prefix, and what follows
abbrev pub word : Spelling → ℕ → List ℕ → List ℕ
word style b rest =
    b'0'
    ∷ x_char style.big_x
    ∷ hex_char style.big_high (b / 16)
    ∷ hex_char style.big_low (b % 16)
    ∷ rest

abbrev pub more_words : List (Spelling × ℕ) → List ℕ
more_words [] = []
more_words ((style, b) ∷ words) = 32 ∷ word style b (more_words words)

-- A byte string as in the example configuration: a prefix before every byte, a blank between two bytes,
-- and either case everywhere.
unfoldable pub hex_words : List (Spelling × ℕ) → List ℕ
hex_words [] = []
hex_words ((style, b) ∷ words) = word style b (more_words words)

-- And without blanks, under one prefix.
unfoldable pub hex_run : List (Spelling × ℕ) → List ℕ
hex_run [] = []
hex_run ((style, b) ∷ words) =
    hex_char style.big_high (b / 16) ∷ hex_char style.big_low (b % 16) ∷ hex_run words

-- The bytes that are spelled
abbrev pub bytes_of : List (Spelling × ℕ) → Bytes
bytes_of = map (λ w. w.1)

upper-hex_char :
    (capital : Bool) (n : ℕ) → n < 16 → upper_char (hex_char capital n) ≡ hex_char true n
unfolding upper_char hex_char
upper-hex_char capital n h = ground arith

hex_digit-hex_char : (n : ℕ) → n < 16 → hex_digit (hex_char true n) ≡ some n
unfolding hex_digit hex_char
hex_digit-hex_char n h = ground arith

-- A digit is no `X`, and no blank.
hex_char_range : (n : ℕ) → n < 16 → (48 ≤ hex_char true n) × (hex_char true n ≤ 70)
unfolding hex_char
hex_char_range n h = ground arith

remove_0x-prefix : (s : List ℕ) → remove_0x (b'0' ∷ b'X' ∷ s) ≡ remove_0x s
unfolding remove_0x
remove_0x-prefix s = refl

-- A character is kept if it is no `0`, or the next one is no `X`.
remove_0x-keep : (c : ℕ) (s : List ℕ) → c ≢ b'0' → remove_0x (c ∷ s) ≡ c ∷ remove_0x s
unfolding remove_0x
remove_0x-keep c [] h = refl
remove_0x-keep c (d ∷ s) h = ground arith

remove_0x-keep_next :
    (c d : ℕ) (s : List ℕ) → d ≢ b'X' → remove_0x (c ∷ d ∷ s) ≡ c ∷ remove_0x (d ∷ s)
unfolding remove_0x
remove_0x-keep_next c d s h = ground arith

remove_0x-digits :
    (m n e : ℕ) (s : List ℕ)
    → m < 16
    → n < 16
    → e ≢ b'X'
    → remove_0x (hex_char true m ∷ hex_char true n ∷ e ∷ s)
      ≡ hex_char true m ∷ hex_char true n ∷ remove_0x (e ∷ s)
remove_0x-digits m n e s hm hn he =
    remove_0x-keep_next _ _ _ (omega (arith, hex_char_range n hn))
    ∙ ap (λ r. hex_char true m ∷ r) (remove_0x-keep_next _ _ _ he)

from_hex-blank : (s : List ℕ) → from_hex (32 ∷ s) ≡ from_hex s
unfolding from_hex
from_hex-blank [] = refl
from_hex-blank (d ∷ s) = refl

from_hex-digits :
    (b : ℕ) (s : List ℕ) {r : Bytes}
    → b < 256
    → from_hex s ≡ ok r
    → from_hex (hex_char true (b / 16) ∷ hex_char true (b % 16) ∷ s) ≡ ok (b ∷ r)
unfolding from_hex
from_hex-digits b s h e =
    ground
      (arith, hex_digit-hex_char (b / 16), hex_digit-hex_char (b % 16), hex_char_range (b / 16))

-- The text that is left when the prefixes are gone.
more_digits : Bytes → List ℕ
more_digits [] = []
more_digits (b ∷ bs) = 32 ∷ hex_char true (b / 16) ∷ hex_char true (b % 16) ∷ more_digits bs

from_hex-more_digits : (bs : Bytes) → All (λ b. b < 256) bs → from_hex (more_digits bs) ≡ ok bs
unfolding more_digits from_hex
from_hex-more_digits [] h = refl
from_hex-more_digits (b ∷ bs) h =
    from_hex-blank (hex_char true (b / 16) ∷ hex_char true (b % 16) ∷ more_digits bs)
    ∙ from_hex-digits b (more_digits bs) h.0 (from_hex-more_digits bs h.1)

upper-x_char : (capital : Bool) → upper_char (x_char capital) ≡ b'X'
unfolding upper_char
upper-x_char true = refl
upper-x_char false = refl

-- What follows a byte is the end or a blank, so its last digit does not go.
remove_0x-digits_more :
    (m n : ℕ) (words : List (Spelling × ℕ))
    → m < 16
    → n < 16
    → remove_0x (hex_char true m ∷ hex_char true n ∷ upper (more_words words))
      ≡ hex_char true m ∷ hex_char true n ∷ remove_0x (upper (more_words words))
unfolding upper remove_0x
remove_0x-digits_more m n [] hm hn = remove_0x-keep_next _ _ [] (omega (arith, hex_char_range n hn))
remove_0x-digits_more m n ((style, b) ∷ words) hm hn =
    remove_0x-digits m n 32 (upper (word style b (more_words words))) hm hn (omega arith)

remove_0x-word :
    (style : Spelling) (b : ℕ) (words : List (Spelling × ℕ))
    → b < 256
    → remove_0x (upper (word style b (more_words words)))
      ≡ hex_char true (b / 16) ∷ hex_char true (b % 16) ∷ remove_0x (upper (more_words words))
unfolding upper
remove_0x-word style b words h =
    let high : b / 16 < 16 = omega (arith, h) in
    let low : b % 16 < 16 = omega arith in
    rw
      (
        upper-x_char style.big_x,
        upper-hex_char style.big_high (b / 16) high,
        upper-hex_char style.big_low (b % 16) low,
      )
      (remove_0x-prefix _ ∙ remove_0x-digits_more (b / 16) (b % 16) words high low)

remove_0x-more_words :
    (words : List (Spelling × ℕ))
    → All (λ b. b < 256) (bytes_of words)
    → remove_0x (upper (more_words words)) ≡ more_digits (bytes_of words)
unfolding more_digits upper
remove_0x-more_words [] h = unfold remove_0x in refl
remove_0x-more_words ((style, b) ∷ words) h =
    remove_0x-keep 32 (upper (word style b (more_words words))) (omega arith)
    ∙ ap (λ r. 32 ∷ r)
        (remove_0x-word style b words h.0
          ∙ ap (λ r. hex_char true (b / 16) ∷ hex_char true (b % 16) ∷ r)
              (remove_0x-more_words words h.1))

remove_0x-no_x : (s : List ℕ) → All (λ c. c ≢ b'X') s → remove_0x s ≡ s
unfolding remove_0x
remove_0x-no_x [] h = refl
remove_0x-no_x (c ∷ []) h = refl
remove_0x-no_x (c ∷ d ∷ s) h = ground (arith, remove_0x-no_x (d ∷ s) h.1)

-- A run of digits, all of them capital
plain_run : Bytes → List ℕ
plain_run [] = []
plain_run (b ∷ bs) = hex_char true (b / 16) ∷ hex_char true (b % 16) ∷ plain_run bs

upper-hex_run :
    (words : List (Spelling × ℕ))
    → All (λ b. b < 256) (bytes_of words)
    → upper (hex_run words) ≡ plain_run (bytes_of words)
unfolding upper hex_run plain_run
upper-hex_run [] h = refl
upper-hex_run ((style, b) ∷ words) h =
    rw
      (
        upper-hex_char style.big_high (b / 16) (omega (arith, h.0)),
        upper-hex_char style.big_low (b % 16) (omega arith),
      )
      (ap (λ r. hex_char true (b / 16) ∷ hex_char true (b % 16) ∷ r) (upper-hex_run words h.1))

plain_run_no_x : (bs : Bytes) → All (λ b. b < 256) bs → All (λ c. c ≢ b'X') (plain_run bs)
unfolding plain_run
plain_run_no_x [] h = tt
plain_run_no_x (b ∷ bs) h = (
  omega (arith, hex_char_range (b / 16) (omega (arith, h.0))),
  (omega (arith, hex_char_range (b % 16) (omega arith)), plain_run_no_x bs h.1),
)

from_hex-plain_run : (bs : Bytes) → All (λ b. b < 256) bs → from_hex (plain_run bs) ≡ ok bs
unfolding plain_run from_hex
from_hex-plain_run [] h = refl
from_hex-plain_run (b ∷ bs) h = from_hex-digits b (plain_run bs) h.0 (from_hex-plain_run bs h.1)

convert_to_bytes-prefixed :
    (s : List ℕ) (b : Bytes)
    → starts_with_0x (upper s) ≡ true
    → from_hex (remove_0x (upper s)) ≡ ok b
    → convert_to_bytes (text s) ≡ ok (bytes b)
unfolding convert_to_bytes
convert_to_bytes-prefixed s b p q = rw (p, q)

remove_0x-prefixed_run :
    (style : Spelling) (words : List (Spelling × ℕ))
    → All (λ b. b < 256) (bytes_of words)
    → remove_0x (upper (b'0' ∷ x_char style.big_x ∷ hex_run words)) ≡ plain_run (bytes_of words)
unfolding upper
remove_0x-prefixed_run style words h = rw (upper-x_char style.big_x) (
    remove_0x-prefix (map upper_char (hex_run words))
    ∙ ap remove_0x (upper-hex_run words h)
    ∙ remove_0x-no_x (plain_run (bytes_of words)) (plain_run_no_x (bytes_of words) h))

-- A byte string written as in the example configuration (a prefix and two digits for every byte, a blank
-- between two bytes) and one written as a single run of digits after one prefix are both read as those
-- bytes, in whichever case each `x` and each digit is. The first form has at least one byte.
pub convert_to_bytes-hex :
    (style : Spelling) (b : ℕ) (words : List (Spelling × ℕ))
    → All (λ x. x < 256) (b ∷ bytes_of words)
    → (convert_to_bytes (text (hex_words ((style, b) ∷ words))) ≡ ok (bytes (b ∷ bytes_of words)))
      × (convert_to_bytes (text (b'0' ∷ x_char style.big_x ∷ hex_run words))
          ≡ ok (bytes (bytes_of words)))
convert_to_bytes-hex style b words h = (
  convert_to_bytes-prefixed (hex_words ((style, b) ∷ words)) (b ∷ bytes_of words)
      (unfold upper hex_words in rw (upper-x_char style.big_x) refl)
      (unfold hex_words in
        (ap from_hex (
            remove_0x-word style b words h.0
            ∙ ap (λ r. hex_char true (b / 16) ∷ hex_char true (b % 16) ∷ r)
                (remove_0x-more_words words h.1))
          ∙ from_hex-digits b (more_digits (bytes_of words)) h.0
              (from_hex-more_digits (bytes_of words) h.1))),
  convert_to_bytes-prefixed (b'0' ∷ x_char style.big_x ∷ hex_run words) (bytes_of words)
      (unfold upper in rw (upper-x_char style.big_x) refl)
      (ap from_hex (remove_0x-prefixed_run style words h.1)
        ∙ from_hex-plain_run (bytes_of words) h.1),
)
