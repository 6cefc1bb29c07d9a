-- ===== src/Base/Little.antt =====
-- Python's `int.to_bytes` and `int.from_bytes` with `byteorder="little"`.
use native.Mathlib.Nat.{pow-suc}
use backend_client.Base.{
  ℕ, zero, suc, ◌+◌, ◌*◌, ◌/◌, ◌%◌, ◌^◌, ◌<◌, ◌≡◌, refl, ap, arith, [], ◌∷◌, Bytes, length, All,
  ltb, if◌then◌else◌,
}
use backend_client.Base.Int.{ℤ, pos, sub_ℕ}

-- `n.to_bytes(k, byteorder="little")` of a number that fits
unfoldable pub to_little : ℕ → ℕ → Bytes
to_little zero n = []
to_little (suc k) n = n % 256 ∷ to_little k (n / 256)

-- `int.from_bytes(b, byteorder="little")`, unsigned and signed
unfoldable pub unsigned_little : Bytes → ℕ
unsigned_little [] = 0
unsigned_little (x ∷ b) = x + 256 * unsigned_little b

unfoldable pub signed_little : Bytes → ℤ
unfolding unsigned_little
signed_little b =
    let n = unsigned_little b in
    let m : ℕ = 256 ^ length b in if ltb (2 * n) m then pos n else sub_ℕ n m

abbrev pub IsByte : ℕ → Type 0
IsByte x = x < 256

pub length-to_little : (k n : ℕ) → length (to_little k n) ≡ k
unfolding to_little
length-to_little zero n = refl
length-to_little (suc k) n = ap suc (length-to_little k (n / 256))

pub to_little-IsByte : (k n : ℕ) → All IsByte (to_little k n)
unfolding to_little
to_little-IsByte zero n = tt
to_little-IsByte (suc k) n = (omega arith, to_little-IsByte k (n / 256))

pub unsigned_little-to_little : (k n : ℕ) → n < 256 ^ k → unsigned_little (to_little k n) ≡ n
unfolding unsigned_little to_little
unsigned_little-to_little zero n h = omega arith
unsigned_little-to_little (suc k) n h =
    omega
      (arith, unsigned_little-to_little k (n / 256) (omega (arith, pow-suc 256 k)), pow-suc 256 k)
