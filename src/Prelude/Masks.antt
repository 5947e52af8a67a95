-- ===== src/Prelude/Masks.antt =====
-- Python's `|` and `&` where the source packs and masks fields: `(hi << k) | lo`, `x & (2**k - 1)`.
use Prim.Native.Nat.{◌<◌, ◌/◌, ◌*◌, ◌+◌, ◌-◌, ◌%◌, ◌^◌, ℕ, zero, suc, bit_and, bit_or}
use mathlib.Core.Path.{◌≡◌, ap, ◌∙◌}
use native.Mathlib.Nat.{pow-suc}
use native.Mathlib.Omega.{arith}
use swelter.Prelude.Digits.{by_halves, zero-bit_or, zero-bit_and, bit_or_halves, bit_and_halves}

bit_or-zero : (a : ℕ) → bit_or a 0 ≡ a
bit_or-zero =
    by_halves (λ a. bit_or a 0 ≡ a) (zero-bit_or 0)
      (λ m half. omega (arith, half, bit_or_halves (suc m) 0))

bit_and-zero : (a : ℕ) → bit_and a 0 ≡ 0
bit_and-zero =
    by_halves (λ a. bit_and a 0 ≡ 0) (zero-bit_and 0)
      (λ m half. omega (arith, half, bit_and_halves (suc m) 0))

-- `(hi << k) | lo` for a `lo` of k digits.
pub bit_or_pack : (k hi lo : ℕ) → lo < 2 ^ k → bit_or (hi * 2 ^ k) lo ≡ hi * 2 ^ k + lo
bit_or_pack zero hi lo h = let e : lo ≡ 0 = omega arith in rw e (bit_or-zero (hi * 1) ∙ omega arith)
bit_or_pack (suc k) hi lo h =
    let double : hi * 2 ^ suc k ≡ 2 * (hi * 2 ^ k) = rw (pow-suc 2 k) (omega arith) in
    let half : hi * 2 ^ suc k / 2 ≡ hi * 2 ^ k = rw double (omega arith) in
    let rest = bit_or_pack k hi (lo / 2) (omega (arith, pow-suc 2 k)) in
    omega (arith, bit_or_halves (hi * 2 ^ suc k) lo, ap (λ t. bit_or t (lo / 2)) half, rest, double)

-- The k lowest digits of a number, one by one.
low_digits : ℕ → ℕ → ℕ
low_digits zero a = 0
low_digits (suc k) a = low_digits k (a / 2) * 2 + a % 2

-- A mask of k ones keeps them.
bit_and-low_digits : (k a : ℕ) → bit_and a (2 ^ k - 1) ≡ low_digits k a
unfolding low_digits
bit_and-low_digits zero a = bit_and-zero a
bit_and-low_digits (suc k) a =
    let double : 2 ^ suc k ≡ 2 * 2 ^ k = rw (pow-suc 2 k) (omega arith) in
    let half : (2 ^ suc k - 1) / 2 ≡ 2 ^ k - 1 = omega (arith, double, pow_positive k) in
    omega (
      arith,
      bit_and_halves a (2 ^ suc k - 1),
      double,
      pow_positive k,
      ap (λ t. bit_and (a / 2) t) half,
      bit_and-low_digits k (a / 2),
    )
  where
    pow_positive : (k : ℕ) → 0 < 2 ^ k
    pow_positive zero = omega arith
    pow_positive (suc k) = omega (arith, pow-suc 2 k, pow_positive k)

low_byte : (a : ℕ) → low_digits 8 a ≡ a % 256
unfolding low_digits
low_byte a = omega arith

high_byte : (a : ℕ) → low_digits 16 a ≡ low_digits 8 (a / 256) * 256 + low_digits 8 a
unfolding low_digits
high_byte a = omega arith

pub bit_and_65535 : (a : ℕ) → bit_and a 65535 ≡ a % 65536
bit_and_65535 a =
    bit_and-low_digits 16 a ∙ omega (arith, high_byte a, low_byte a, low_byte (a / 256))
