-- ===== src/Provisioning/Data/Convert.antt =====
-- `_convert_to_bytes` and `_convert_to_int` of provisioning/data.py, with what they use of Python:
-- `str.upper`, `str.replace`, `bytes.fromhex`, `bytes(s, "utf-8")` and `int(s, 0)`. Texts are lists
-- of code points; `upper` and the white space are those of ASCII.
use backend_client.Base.{
  ℕ, ◌+◌, ◌-◌, ◌*◌, ◌/◌, ◌%◌, Bool, true, false, ◌&&◌, ◌||◌, Option, none, some, List, [], ◌∷◌,
  ◌++◌, Bytes, ltb, leb, eqb, if◌then◌else◌, map, not,
}
use mathlib.Core.List.{reverse}
use backend_client.Base.Int.{ℤ, pos, negsuc, ◌-ℤ◌}
use backend_client.Base.Exceptions.{
  value_error, overflow_error, Result, ok, err, ◌>>=◌, ◌>>◌, require, or_raise,
}
use backend_client.Provisioning.Data.{Value, bytes, text, int}

unfoldable pub upper_char : ℕ → ℕ
upper_char c = if leb b'a' c && leb c b'z' then c - 32 else c

unfoldable pub upper : List ℕ → List ℕ
unfolding upper_char
upper = map upper_char

abbrev pub is_space : ℕ → Bool
is_space c = eqb c 32 || leb 9 c && leb c 13

-- `s.startswith("0X")`
abbrev pub starts_with_0x : List ℕ → Bool
starts_with_0x (c ∷ d ∷ s) = eqb c b'0' && eqb d b'X'
starts_with_0x _ = false

-- `s.replace("0X", "")`
unfoldable pub remove_0x : List ℕ → List ℕ
remove_0x [] = []
remove_0x (c ∷ []) = c ∷ []
remove_0x (c ∷ d ∷ s) =
    let found = remove_0x s in
    let kept = c ∷ remove_0x (d ∷ s) in if eqb c b'0' && eqb d b'X' then found else kept

unfoldable pub hex_digit : ℕ → Option ℕ
hex_digit c =
    if leb b'0' c && leb c b'9'
    then some (c - b'0')
    else if leb b'a' c && leb c b'f'
    then some (c - b'a' + 10)
    else if leb b'A' c && leb c b'F'
    then some (c - b'A' + 10)
    else none

-- `bytes.fromhex`: pairs of digits, with white space between the pairs.
unfoldable pub from_hex : List ℕ → Result Bytes
unfolding hex_digit
from_hex [] = ok []
from_hex (c ∷ []) = if is_space c then ok [] else err value_error
from_hex (c ∷ d ∷ s) =
    let skipped = from_hex (d ∷ s) in
    let rest = from_hex s in
    if is_space c then skipped else (do
      a ← or_raise (hex_digit c) value_error
      b ← or_raise (hex_digit d) value_error
      r ← rest
      ok ((16 * a + b) ∷ r))

-- The UTF-8 bytes of a code point.
unfoldable pub utf8_char : ℕ → Bytes
utf8_char c =
    if ltb c 0x80
    then c ∷ []
    else if ltb c 0x800
    then (0xc0 + c / 64) ∷ (0x80 + c % 64) ∷ []
    else if ltb c 0x10000
    then (0xe0 + c / 4096) ∷ (0x80 + c / 64 % 64) ∷ (0x80 + c % 64) ∷ []
    else (0xf0 + c / 262144) ∷ (0x80 + c / 4096 % 64) ∷ (0x80 + c / 64 % 64) ∷ (0x80 + c % 64) ∷ []

unfoldable pub utf8 : List ℕ → Bytes
unfolding utf8_char
utf8 [] = []
utf8 (c ∷ s) = utf8_char c ++ utf8 s

-- `_convert_to_bytes`. Of an integer `to_bytes` is called and its result is not used; it raises
-- on a negative one, whose magnitude needs no sign bit in `bit_length`.
unfoldable pub convert_to_bytes : Value → Result Value
unfolding upper remove_0x from_hex utf8
convert_to_bytes (bytes b) = ok (bytes b)
convert_to_bytes (text s) =
    if starts_with_0x (upper s)
    then (do b ← from_hex (remove_0x (upper s)); ok (bytes b))
    else ok (bytes (utf8 s))
convert_to_bytes (int (pos n)) = ok (int (pos n))
convert_to_bytes (int (negsuc n)) = err overflow_error

-- The digits of `int(s, 0)`: an underscore may stand between two digits. `pending` says that a
-- digit must follow.
unfoldable pub digits : ℕ → ℕ → Bool → List ℕ → Result ℕ
unfolding hex_digit
digits base acc pending [] = if pending then err value_error else ok acc
digits base acc pending (c ∷ s) =
    let after_underscore = digits base acc true s in
    let after_digit = λ (v : ℕ). digits base (acc * base + v) false s in
    if eqb c b'_' then (if pending then err value_error else after_underscore) else (do
      v ← or_raise (hex_digit c) value_error
      require (ltb v base) value_error
      after_digit v)

-- An underscore may follow the prefix of a base.
unfoldable pub prefixed : ℕ → List ℕ → Result ℕ
unfolding digits
prefixed base [] = err value_error
prefixed base (c ∷ s) = digits base 0 true (if eqb c b'_' then s else c ∷ s)

-- A decimal literal begins with 0 only if it is zero.
unfoldable pub decimal : List ℕ → Result ℕ
unfolding digits
decimal [] = err value_error
decimal (c ∷ s) = do
  n ← digits 10 0 true (c ∷ s)
  require (not (eqb c b'0') || eqb n 0) value_error
  ok n

unfoldable pub unsigned_literal : List ℕ → Result ℕ
unfolding prefixed decimal
unsigned_literal (c ∷ d ∷ s) =
    if eqb c b'0' && (eqb d b'x' || eqb d b'X')
    then prefixed 16 s
    else if eqb c b'0' && (eqb d b'o' || eqb d b'O')
    then prefixed 8 s
    else if eqb c b'0' && (eqb d b'b' || eqb d b'B')
    then prefixed 2 s
    else decimal (c ∷ d ∷ s)
unsigned_literal s = decimal s

unfoldable pub skip_spaces : List ℕ → List ℕ
skip_spaces [] = []
skip_spaces (c ∷ s) = let rest = skip_spaces s in if is_space c then rest else c ∷ s

unfoldable pub strip : List ℕ → List ℕ
unfolding skip_spaces
strip s = reverse (skip_spaces (reverse (skip_spaces s)))

unfoldable pub signed_literal : List ℕ → Result ℤ
unfolding unsigned_literal
signed_literal [] = err value_error
signed_literal (c ∷ s) =
    if eqb c b'-'
    then (do n ← unsigned_literal s; ok (pos 0 -ℤ pos n))
    else if eqb c b'+'
    then (do n ← unsigned_literal s; ok (pos n))
    else (do n ← unsigned_literal (c ∷ s); ok (pos n))

-- `int(s, 0)`
unfoldable pub int_literal : List ℕ → Result ℤ
unfolding strip signed_literal
int_literal s = signed_literal (strip s)

-- `_convert_to_int`
unfoldable pub convert_to_int : Value → Result Value
unfolding int_literal
convert_to_int (text s) = do n ← int_literal s; ok (int n)
convert_to_int v = ok v
