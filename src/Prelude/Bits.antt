-- ===== src/Prelude/Bits.antt =====
-- Python's `^` on non-negative integers: the laws of `bit_xor` at variables, and checks of all
-- values of a small range by evaluation.
use Prim.Native.Nat.{◌<◌, ◌/◌, ◌*◌, ◌^◌, ℕ, zero, suc, bit_xor}
use mathlib.Core.Path.{◌≡◌, sym, ap, ◌∙◌}
use mathlib.Core.Logic.{inl, inr}
use mathlib.Core.Bool.{Bool, true, false, false≢true}
use native.Mathlib.Nat.{pow-suc}
use native.Mathlib.Omega.{arith}
use swelter.Prelude.Tests.{if◌then◌else◌, ◌==◌, ==→eq, Bool-cases}
use swelter.Prelude.Digits.{by_halves, zero-bit_xor, bit_xor_halves}

-- A table of a test over the numbers below a bound.
unfoldable pub tabulated : (ℕ → Bool) → ℕ → Bool
tabulated test zero = true
tabulated test (suc n) = let rest = tabulated test n in if test n then rest else false

pub look_up : (test : ℕ → Bool) (n : ℕ) → tabulated test n ≡ true → (x : ℕ) → x < n → test x ≡ true
unfolding tabulated
look_up test zero table x h = absurd (omega arith)
look_up test (suc n) table x h = elim (Bool-cases (test n)) [
  | inl e ↦ elim (Bool-cases (x == n)) [
    | inl top ↦ rw (==→eq x n top) e
    | inr below ↦ look_up test n (rw e at table) x (ground arith)
  ]
  | inr e ↦ absurd (false≢true (rw e at table))
]

pub bit_xor-zero : (a : ℕ) → bit_xor a 0 ≡ a
bit_xor-zero =
    by_halves (λ a. bit_xor a 0 ≡ a) (zero-bit_xor 0)
      (λ m half. omega (arith, half, bit_xor_halves (suc m) 0))

pub bit_xor_self : (a : ℕ) → bit_xor a a ≡ 0
bit_xor_self =
    by_halves (λ a. bit_xor a a ≡ 0) (zero-bit_xor 0)
      (λ m half. omega (arith, half, bit_xor_halves (suc m) (suc m)))

pub bit_xor_comm : (a b : ℕ) → bit_xor a b ≡ bit_xor b a
bit_xor_comm =
    by_halves (λ a. (b : ℕ) → bit_xor a b ≡ bit_xor b a)
      (λ b. zero-bit_xor b ∙ sym (bit_xor-zero b))
      (λ m half b. omega (arith, half (b / 2), bit_xor_halves (suc m) b, bit_xor_halves b (suc m)))

half-bit_xor : (a b : ℕ) → bit_xor a b / 2 ≡ bit_xor (a / 2) (b / 2)
half-bit_xor a b = omega (arith, bit_xor_halves a b)

pub bit_xor_assoc : (a b c : ℕ) → bit_xor (bit_xor a b) c ≡ bit_xor a (bit_xor b c)
bit_xor_assoc =
    by_halves (λ a. (b c : ℕ) → bit_xor (bit_xor a b) c ≡ bit_xor a (bit_xor b c))
      (λ b c. ap (λ t. bit_xor t c) (zero-bit_xor b) ∙ sym (zero-bit_xor (bit_xor b c)))
      (λ m half b c. omega (
        arith,
        half (b / 2) (c / 2),
        bit_xor_halves (suc m) b,
        bit_xor_halves b c,
        bit_xor_halves (bit_xor (suc m) b) c,
        bit_xor_halves (suc m) (bit_xor b c),
        ap (λ (t : ℕ). bit_xor t (c / 2)) (half-bit_xor (suc m) b),
        ap (λ (t : ℕ). bit_xor (suc m / 2) t) (half-bit_xor b c),
      ))

pub bit_xor_cancel : (a b : ℕ) → bit_xor (bit_xor a b) b ≡ a
bit_xor_cancel a b = bit_xor_assoc a b b ∙ ap (λ t. bit_xor a t) (bit_xor_self b) ∙ bit_xor-zero a

pub bit_xor_left_cancel : (a b c : ℕ) → bit_xor a b ≡ bit_xor a c → b ≡ c
bit_xor_left_cancel a b c h =
    sym (bit_xor_cancel b a)
    ∙ ap (λ t. bit_xor t a) (bit_xor_comm b a ∙ h ∙ bit_xor_comm a c)
    ∙ bit_xor_cancel c a

-- An exclusive or has no more digits than its arguments.
pub bit_xor-lt : (k a b : ℕ) → a < 2 ^ k → b < 2 ^ k → bit_xor a b < 2 ^ k
bit_xor-lt zero a b h k =
    let p : a ≡ 0 = omega arith in let q : b ≡ 0 = omega arith in rw (p, q) (omega arith)
bit_xor-lt (suc n) a b h k =
    let double : 2 ^ suc n ≡ 2 * 2 ^ n = rw (pow-suc 2 n) (omega arith) in
    let rest = bit_xor-lt n (a / 2) (b / 2) (omega (arith, double)) (omega (arith, double)) in
    omega (arith, bit_xor_halves a b, double, rest)
