-- ===== src/Qc/Twins/Pairing.antt =====
-- `_pair_by_nearest_timestamp` and the verdict on a window.
use swelter.Prelude.{
  ℕ, zero, suc, ◌+◌, ◌≤◌, ◌≡◌, ◌↔◌, refl, sym, ap, ◌∙◌, String, List, [], ◌∷◌, true, length, arith,
  Bool-cases, inl, inr,
}
use swelter.Prelude.Int.{pos}
use swelter.Float.{Float}
use swelter.Models.{Observation}
use swelter.Qc.Twins.{
  delta, pair_rounds, pair_by_nearest_timestamp, TwinAgreement, is_cross_checked, status,
  cross_checked,
}

module _ (float : Float) (instant : String → ℕ) (tol : float.F) where
  open float use {F, sub, abs, lt, le, decimal}

  abbrev Series : Type 0
  Series = List (Observation float)

  -- Residuals of pairs that are taken from the two series in order, each reading in at most one
  -- pair and the readings of a pair within the tolerance.
  pub data Matching : Series → Series → List F → Type 0 where
    done : (xs ys : Series) → Matching xs ys []
    skip_left :
        {a : Observation float} {xs ys : Series} {rs : List F}
        → Matching xs ys rs
        → Matching (a ∷ xs) ys rs
    skip_right :
        {b : Observation float} {xs ys : Series} {rs : List F}
        → Matching xs ys rs
        → Matching xs (b ∷ ys) rs
    pair :
        {a b : Observation float} {xs ys : Series} {rs : List F}
        → le (abs (delta float instant a b)) tol ≡ true
        → Matching xs ys rs
        → Matching (a ∷ xs) (b ∷ ys) (sub a.value b.value ∷ rs)

  rounds-Matching :
      (k : ℕ) (xs ys : Series) → Matching xs ys (pair_rounds float instant tol k xs ys)
  unfolding pair_rounds
  rounds-Matching zero xs ys = done xs ys
  rounds-Matching (suc k) [] ys = rounds-Matching k [] ys
  rounds-Matching (suc k) (a ∷ xs) [] = rounds-Matching k (a ∷ xs) []
  rounds-Matching (suc k) (a ∷ xs) (b ∷ ys) =
      elim (Bool-cases (le (abs (delta float instant a b)) tol)) [
        | inl near ↦ rw (near, pair_rounds) (pair near (rounds-Matching k xs ys))
        | inr far ↦ elim (Bool-cases (lt (delta float instant a b) (decimal (pos 0) 0))) [
          | inl early ↦ rw (far, early, pair_rounds) (skip_right (rounds-Matching k (a ∷ xs) ys))
          | inr late ↦ rw (far, late, pair_rounds) (skip_left (rounds-Matching k xs (b ∷ ys)))
        ]
      ]

  -- For any two series and any tolerance, the residuals are those of pairs taken from both series
  -- in order, each reading in at most one pair, and the readings of a pair within the tolerance.
  pub pair_by_nearest_timestamp-Matching :
      (xs ys : Series) → Matching xs ys (pair_by_nearest_timestamp float instant tol xs ys)
  unfolding pair_by_nearest_timestamp
  pair_by_nearest_timestamp-Matching xs ys = rounds-Matching (length xs + length ys) xs ys

  empty_left : (k : ℕ) (ys : Series) → pair_rounds float instant tol k [] ys ≡ []
  unfolding pair_rounds
  empty_left zero ys = refl
  empty_left (suc k) ys = empty_left k ys

  empty_right : (k : ℕ) (xs : Series) → pair_rounds float instant tol k xs [] ≡ []
  unfolding pair_rounds
  empty_right zero xs = refl
  empty_right (suc k) [] = empty_right k []
  empty_right (suc k) (a ∷ xs) = empty_right k (a ∷ xs)

  enough_rounds :
      (n m : ℕ) (xs ys : Series)
      → length xs + length ys ≤ n
      → length xs + length ys ≤ m
      → pair_rounds float instant tol n xs ys ≡ pair_rounds float instant tol m xs ys
  enough_rounds n m [] ys h k = empty_left n ys ∙ sym (empty_left m ys)
  enough_rounds n m (a ∷ xs) [] h k = empty_right n (a ∷ xs) ∙ sym (empty_right m (a ∷ xs))
  enough_rounds zero m (a ∷ xs) (b ∷ ys) h k = absurd (omega arith)
  enough_rounds (suc n) zero (a ∷ xs) (b ∷ ys) h k = absurd (omega arith)
  enough_rounds (suc n) (suc m) (a ∷ xs) (b ∷ ys) h k =
      round_cases (enough_rounds n m xs ys (omega arith) (omega arith))
        (enough_rounds n m (a ∷ xs) ys (omega arith) (omega arith))
        (enough_rounds n m xs (b ∷ ys) (omega arith) (omega arith))
    where
      round_cases :
          pair_rounds float instant tol n xs ys ≡ pair_rounds float instant tol m xs ys
          → pair_rounds float instant tol n (a ∷ xs) ys
            ≡ pair_rounds float instant tol m (a ∷ xs) ys
          → pair_rounds float instant tol n xs (b ∷ ys)
            ≡ pair_rounds float instant tol m xs (b ∷ ys)
          → pair_rounds float instant tol (suc n) (a ∷ xs) (b ∷ ys)
            ≡ pair_rounds float instant tol (suc m) (a ∷ xs) (b ∷ ys)
      round_cases both right left =
          unfold pair_rounds in
          elim (Bool-cases (le (abs (delta float instant a b)) tol)) [
            | inl near ↦ rw (near, pair_rounds) (ap (λ l. sub a.value b.value ∷ l) both)
            | inr far ↦ elim (Bool-cases (lt (delta float instant a b) (decimal (pos 0) 0))) [
              | inl early ↦ rw (far, early, pair_rounds) right
              | inr late ↦ rw (far, late, pair_rounds) left
            ]
          ]

  -- For any two series, the rounds that the loop is given are enough: with any number of further
  -- rounds it returns the same residuals.
  pub pair_rounds_suffice :
      (xs ys : Series) (more : ℕ)
      → pair_rounds float instant tol (length xs + length ys + more) xs ys
        ≡ pair_by_nearest_timestamp float instant tol xs ys
  unfolding pair_by_nearest_timestamp
  pair_rounds_suffice xs ys more =
      enough_rounds (length xs + length ys + more) (length xs + length ys) xs ys (omega arith)
        (omega arith)

module _ (float : Float) (instant : String → ℕ) where
  -- A window is called cross-checked exactly if the flag for the operator says so.
  pub status-cross_checked :
      (a : TwinAgreement float instant)
      → (is_cross_checked float instant a ≡ true) ↔ (status float instant a ≡ cross_checked)
  unfolding is_cross_checked status
  status-cross_checked a = (λ h. ground arith, λ h. ground arith)
