-- ===== src/Prelude/Digits.antt =====
-- Python's bit operators on non-negative integers, one binary digit at a time: each operator is the
-- operator of the halves and an operation on the two lowest digits.
use Prim.Native.Nat.{
  digits, bitwise, bit_xor-bitwise, bit_or-bitwise, bit_and-bitwise, min, max, ℕ, zero, suc, ◌≤◌,
  ◌<◌, ◌/◌, ◌*◌, ◌+◌, ◌-◌, ◌%◌, bit_and, bit_or, bit_xor,
}
use mathlib.Core.Path.{◌≡◌, refl, sym, ap, ◌∙◌}
use native.Mathlib.Omega.{arith}

module _ (tail : ℕ → ℕ) (digit : ℕ → ℕ → ℕ) where
  -- A spare round changes nothing, so no number of them does.
  spare_round : (a n b : ℕ) → a ≤ n → digits tail digit (suc n) a b ≡ digits tail digit n a b
  spare_round zero zero b h = refl
  spare_round zero (suc n) b h = refl
  spare_round (suc a) zero b h = absurd (omega arith)
  spare_round (suc a) (suc n) b h =
      ap (λ t. t * 2 + digit (suc a % 2) (b % 2)) (spare_round (suc a / 2) n (b / 2) (omega arith))

  spare_rounds :
      (extra n m a b : ℕ)
      → m ≡ extra + n
      → a ≤ n
      → digits tail digit m a b ≡ digits tail digit n a b
  spare_rounds zero n m a b e h =
      let same : m ≡ n = omega arith in ap (λ t. digits tail digit t a b) same
  spare_rounds (suc extra) n zero a b e h = absurd (omega arith)
  spare_rounds (suc extra) n (suc m) a b e h =
      spare_round a m b (omega arith) ∙ spare_rounds extra n m a b (omega arith) h

  bitwise_halves :
      (m b : ℕ)
      → bitwise tail digit (suc m) b
        ≡ bitwise tail digit (suc m / 2) (b / 2) * 2 + digit (suc m % 2) (b % 2)
  bitwise_halves m b =
      let half : ℕ = suc m / 2 in
      let split : m ≡ (m - half) + half = omega arith in
      ap (λ t. t * 2 + digit (suc m % 2) (b % 2))
        (spare_rounds (m - half) half m half (b / 2) split (omega arith))

-- What holds of 0, and of a number if it holds of its half, holds of every number.
by_halves_bounded {ℓ} :
    (P : ℕ → Type ℓ) → P 0 → ((m : ℕ) → P (suc m / 2) → P (suc m)) → (bound n : ℕ) → n ≤ bound → P n
by_halves_bounded P base step bound zero h = base
by_halves_bounded P base step zero (suc m) h = absurd (omega arith)
by_halves_bounded P base step (suc bound) (suc m) h =
    step m (by_halves_bounded P base step bound (suc m / 2) (omega arith))

pub by_halves {ℓ} : (P : ℕ → Type ℓ) → P 0 → ((m : ℕ) → P (suc m / 2) → P (suc m)) → (n : ℕ) → P n
by_halves P base step n = by_halves_bounded P base step n n (omega arith)

pub zero-bit_xor : (b : ℕ) → bit_xor 0 b ≡ b
zero-bit_xor b = bit_xor-bitwise 0 b

pub zero-bit_or : (b : ℕ) → bit_or 0 b ≡ b
zero-bit_or b = bit_or-bitwise 0 b

pub zero-bit_and : (b : ℕ) → bit_and 0 b ≡ 0
zero-bit_and b = bit_and-bitwise 0 b

digit_sum : (x y : ℕ) → x < 2 → y < 2 → Prim.Native.Nat.differ x y ≡ (x + y) % 2
digit_sum zero y h k = omega arith
digit_sum (suc zero) zero h k = refl
digit_sum (suc zero) (suc y) h k = let e : y ≡ 0 = omega arith in rw e refl
digit_sum (suc (suc x)) y h k = absurd (omega arith)

pub bit_xor_halves : (a b : ℕ) → bit_xor a b ≡ bit_xor (a / 2) (b / 2) * 2 + (a + b) % 2
bit_xor_halves zero b = zero-bit_xor b ∙ omega (arith, zero-bit_xor (b / 2))
bit_xor_halves (suc m) b =
    bit_xor-bitwise (suc m) b
    ∙ bitwise_halves (λ t. t) Prim.Native.Nat.differ m b
    ∙ omega (
      arith,
      bit_xor-bitwise (suc m / 2) (b / 2),
      digit_sum (suc m % 2) (b % 2) (omega arith) (omega arith),
    )

pub bit_or_halves : (a b : ℕ) → bit_or a b ≡ bit_or (a / 2) (b / 2) * 2 + max (a % 2) (b % 2)
bit_or_halves zero b = zero-bit_or b ∙ omega (arith, zero-bit_or (b / 2))
bit_or_halves (suc m) b =
    bit_or-bitwise (suc m) b
    ∙ bitwise_halves (λ t. t) max m b
    ∙ ap (λ t. t * 2 + max (suc m % 2) (b % 2)) (sym (bit_or-bitwise (suc m / 2) (b / 2)))

pub bit_and_halves : (a b : ℕ) → bit_and a b ≡ bit_and (a / 2) (b / 2) * 2 + min (a % 2) (b % 2)
bit_and_halves zero b = zero-bit_and b ∙ omega (arith, zero-bit_and (b / 2))
bit_and_halves (suc m) b =
    bit_and-bitwise (suc m) b
    ∙ bitwise_halves (λ t. 0) min m b
    ∙ ap (λ t. t * 2 + min (suc m % 2) (b % 2)) (sym (bit_and-bitwise (suc m / 2) (b / 2)))
