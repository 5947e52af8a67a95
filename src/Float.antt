-- ===== src/Float.antt =====
-- Python's `float`, which the type theory does not have: a type with the operations that the
-- program applies to it. No law is assumed here; a theorem that needs one says so.
pub mod Whole
pub mod Library
use swelter.Prelude.{ℕ, Bool}
use swelter.Prelude.Int.{ℤ}

pub record Float : Type 1 where
  pub F : Type 0
  -- An integer that Python converts.
  pub of_nat : ℕ → F
  -- The literal n / 10 ** k, so that 9.1 is `decimal (pos 91) 1`.
  pub decimal : ℤ → ℕ → F
  pub add : F → F → F
  pub sub : F → F → F
  pub mul : F → F → F
  pub div : F → F → F
  pub abs : F → F
  pub lt : F → F → Bool
  pub le : F → F → Bool
  pub eq : F → F → Bool
  pub is_nan : F → Bool
