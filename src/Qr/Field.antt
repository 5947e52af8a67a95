-- ===== src/Qr/Field.antt =====
-- src/swelter/qr.py: the field of 256 elements and the Reed-Solomon codewords.
use Prim.Native.Nat.{bit_and, bit_xor}
use swelter.Prelude.{
  ℕ, zero, suc, ◌+◌, ◌*◌, List, [], ◌∷◌, ◌++◌, ◌||◌, length, take, drop, set, get_or, replicate,
  if◌then◌else◌, ◌==◌,
}

-- `_x <<= 1`, reduced by the polynomial.
abbrev double : ℕ → ℕ
double x = if bit_and (x * 2) 0x100 == 0 then x * 2 else bit_xor (x * 2) 0x11d

-- The values of `_x` in the first loop.
unfoldable pub powers : ℕ → ℕ → List ℕ
powers zero x = []
powers (suc rounds) x = x ∷ powers rounds (double x)

-- `_GF_EXP`: the second loop repeats the first 255 entries.
unfoldable pub gf_exp : List ℕ
unfolding powers
gf_exp = powers 255 1 ++ take 257 (powers 255 1 ++ powers 255 1)

-- `_GF_LOG[_x] = _i`, from the table so far.
unfoldable pub log_from : ℕ → List ℕ → List ℕ → List ℕ
log_from i [] table = table
log_from i (x ∷ xs) table = log_from (i + 1) xs (set table x i)

unfoldable pub gf_log : List ℕ
unfolding powers log_from
gf_log = log_from 0 (powers 255 1) (replicate 256 0)

unfoldable pub gf_mul : ℕ → ℕ → ℕ
unfolding gf_exp gf_log
gf_mul a b =
    if (a == 0) || (b == 0) then 0 else get_or gf_exp (get_or gf_log a 0 + get_or gf_log b 0) 0

-- The product of a polynomial and x + root, from the product of the root and the coefficient
-- before.
unfoldable pub times_root : ℕ → ℕ → List ℕ → List ℕ
unfolding gf_mul
times_root root carry [] = carry ∷ []
times_root root carry (coef ∷ poly) = bit_xor carry coef ∷ times_root root (gf_mul coef root) poly

unfoldable pub generator_from : ℕ → ℕ → List ℕ → List ℕ
unfolding times_root gf_exp
generator_from zero i poly = poly
generator_from (suc rounds) i poly =
    generator_from rounds (i + 1) (times_root (get_or gf_exp i 0) 0 poly)

unfoldable pub rs_generator_poly : ℕ → List ℕ
unfolding generator_from
rs_generator_poly ecc_len = generator_from ecc_len 0 (1 ∷ [])

-- `buf[i + j] ^= _gf_mul(g, coef)`, for the generator from g on and the buffer from there on.
unfoldable pub cancel : ℕ → List ℕ → List ℕ → List ℕ
unfolding gf_mul
cancel coef [] buf = buf
cancel coef (g ∷ gs) [] = []
cancel coef (g ∷ gs) (b ∷ buf) = bit_xor b (gf_mul g coef) ∷ cancel coef gs buf

-- The loop over the data: the buffer behind the entry that a round is about.
unfoldable pub divide : ℕ → List ℕ → List ℕ → List ℕ
unfolding cancel
divide zero generator buf = buf
divide (suc rounds) generator [] = []
divide (suc rounds) generator (coef ∷ buf) =
    divide rounds generator (if coef == 0 then buf else drop 1 (cancel coef generator (coef ∷ buf)))

unfoldable pub rs_encode : List ℕ → ℕ → List ℕ
unfolding divide rs_generator_poly
rs_encode codewords ecc_len =
    divide (length codewords) (rs_generator_poly ecc_len) (codewords ++ replicate ecc_len 0)
