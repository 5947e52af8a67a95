-- ===== src/Float/Library.antt =====
-- What the program uses of Python's `round` and of its `math` module.
use swelter.Prelude.{ℕ, Bool, List, Option}
use swelter.Prelude.Int.{ℤ}
use swelter.Float.{Float}

-- No law is assumed here either.
pub record Library (float : Float) : Type 0 where
  -- `round(x, digits)`
  pub round : ℕ → float.F → float.F
  -- `math.floor`, as a float again; none if it raises, as it does at an infinity
  pub floor : float.F → Option float.F
  -- `sum` of floats, whose rounding depends on the version of Python
  pub sum : List float.F → float.F
  -- `round(x)`
  pub nearest : float.F → ℤ
  -- `math.isfinite`
  pub is_finite : float.F → Bool
  pub sqrt : float.F → float.F
  pub atan : float.F → float.F
  -- `x ** 2`; none if it raises `OverflowError`
  pub square : float.F → Option float.F
  pub power : float.F → float.F → float.F
