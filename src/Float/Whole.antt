-- ===== src/Float/Whole.antt =====
-- The whole numbers as a type of floats, to run definitions at concrete inputs.
use swelter.Prelude.{List, [], ◌∷◌, some, false, true, ◌/◌, ◌^◌}
use swelter.Prelude.Int.{
  ℤ, pos, pos_part, neg_part, sub_ℕ, ◌+ℤ◌, ◌-ℤ◌, ◌*ℤ◌, magnitude, ltb_ℤ, leb_ℤ, eqb_ℤ,
}
use swelter.Float.{Float}
use swelter.Float.Library.{Library}

-- Division is by the magnitude of the divisor and rounds towards zero.
abbrev pub whole : Float
whole = record {
  F = ℤ;
  of_nat = pos;
  decimal = λ n k. sub_ℕ (pos_part n / 10 ^ k) (neg_part n / 10 ^ k);
  add = λ a b. a +ℤ b;
  sub = λ a b. a -ℤ b;
  mul = λ a b. a *ℤ b;
  div = λ a b. sub_ℕ (pos_part a / magnitude b) (neg_part a / magnitude b);
  abs = λ a. pos (magnitude a);
  lt = ltb_ℤ;
  le = leb_ℤ;
  eq = eqb_ℤ;
  is_nan = λ a. false;
}

abbrev sum_of_whole : List ℤ → ℤ
sum_of_whole [] = pos 0
sum_of_whole (x ∷ xs) = x +ℤ sum_of_whole xs

-- A whole number rounds to itself; the other functions stand for none in particular.
abbrev pub whole_library : Library whole
whole_library = record {
  round = λ k a. a;
  floor = λ a. some a;
  sum = sum_of_whole;
  nearest = λ a. a;
  is_finite = λ a. true;
  sqrt = λ a. a;
  atan = λ a. a;
  square = λ a. some (a *ℤ a);
  power = λ a b. a;
}
