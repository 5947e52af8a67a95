-- ===== src/Calibrate/Solve.antt =====
-- src/swelter/calibrate.py: `_solve` and `_ols`, the least squares of a fit.
use mathlib.Core.Option.{some-injective, none-ne-some}
use swelter.Prelude.{
  sym, length-replicate, Option-cases, inl, inr, ℕ, zero, suc, ◌-◌, ◌≡◌, refl, ap, ◌∙◌, List, [],
  ◌∷◌, ◌++◌, length, length-map, map, get_or, set, replicate, if◌then◌else◌, Option, none, some,
  ◌==◌,
}
use swelter.Prelude.Int.{pos}
use swelter.Float.{Float}

-- `range(first, first + count)`
abbrev pub range_from : ℕ → ℕ → List ℕ
range_from first zero = []
range_from first (suc count) = first ∷ range_from (suc first) count

length-range_from : (first count : ℕ) → length (range_from first count) ≡ count
length-range_from first zero = refl
length-range_from first (suc count) = ap suc (length-range_from (suc first) count)

module _ (float : Float) where
  open float use {F, decimal, add, sub, mul, div, abs, lt}

  abbrev zero_float : F
  zero_float = decimal (pos 0) 0

  -- `a[r][c]`
  abbrev pub cell : List (List F) → ℕ → ℕ → F
  cell a r c = get_or (get_or a r []) c zero_float

  -- `max(rows, key=...)`: the first of the greatest.
  unfoldable pub pivot_from : List (List F) → ℕ → List ℕ → ℕ → ℕ
  pivot_from a col [] best = best
  pivot_from a col (r ∷ rs) best =
      pivot_from a col rs (if lt (abs (cell a best col)) (abs (cell a r col)) then r else best)

  -- The loop over the columns of a row, from `col` on.
  unfoldable pub reduce_row : ℕ → F → List F → List F → List F
  reduce_row skip factor [] pivot = []
  reduce_row skip factor (x ∷ row) [] = x ∷ row
  reduce_row (suc skip) factor (x ∷ row) (p ∷ pivot) = x ∷ reduce_row skip factor row pivot
  reduce_row zero factor (x ∷ row) (p ∷ pivot) =
      sub x (mul factor p) ∷ reduce_row zero factor row pivot

  -- The loop over the rows: every row but the pivot's is reduced.
  unfoldable pub reduce_rows : ℕ → List F → ℕ → List (List F) → List (List F)
  unfolding reduce_row
  reduce_rows col pivot r [] = []
  reduce_rows col pivot r (row ∷ rows) =
      (if r == col
        then row
        else reduce_row col (div (get_or row col zero_float) (get_or pivot col zero_float)) row
            pivot)
      ∷ reduce_rows col pivot (suc r) rows

  -- `a[i], a[j] = a[j], a[i]`
  abbrev swap : List (List F) → ℕ → ℕ → List (List F)
  swap a i j = set (set a i (get_or a j [])) j (get_or a i [])

  -- The loop over the columns; a pivot that is next to nothing raises.
  unfoldable pub eliminate : ℕ → List ℕ → List (List F) → Option (List (List F))
  unfolding pivot_from reduce_rows
  eliminate n [] a = some a
  eliminate n (col ∷ cols) a =
      let pivot = pivot_from a col (range_from (suc col) (n - suc col)) col in
      let swapped = swap a col pivot in
      let rest = eliminate n cols (reduce_rows col (get_or swapped col []) 0 swapped) in
      if lt (abs (cell a pivot col)) (decimal (pos 1) 12) then none else rest

  -- `[[*row, rhs[i]] for i, row in enumerate(matrix)]`
  unfoldable pub augment : List (List F) → List F → List (List F)
  augment [] rhs = []
  augment (row ∷ rows) [] = row ∷ augment rows []
  augment (row ∷ rows) (y ∷ rhs) = (row ++ y ∷ []) ∷ augment rows rhs

  unfoldable pub solve : List (List F) → List F → Option (List F)
  unfolding eliminate augment
  solve matrix rhs =
      let n = length rhs in
      elim (eliminate n (range_from 0 n) (augment matrix rhs)) [
        | none ↦ none
        | some a ↦ some (map (λ i. div (cell a i n) (cell a i i)) (range_from 0 n))
      ]

  -- `total[i] += term(row[i])`, for each i.
  unfoldable pub add_terms_of : (F → F) → List F → List F → List F
  add_terms_of term [] row = []
  add_terms_of term (t ∷ ts) [] = t ∷ ts
  add_terms_of term (t ∷ ts) (x ∷ row) = add t (term x) ∷ add_terms_of term ts row

  -- `xtx[i][j] += row[i] * row[j]`
  unfoldable pub add_products : List (List F) → List F → List F → List (List F)
  unfolding add_terms_of
  add_products [] xs row = []
  add_products (t ∷ ts) [] row = t ∷ ts
  add_products (t ∷ ts) (x ∷ xs) row = add_terms_of (λ z. mul x z) t row ∷ add_products ts xs row

  -- The loop over `zip(design, targets)`.
  unfoldable pub accumulate :
      List (List F) → List F → List (List F) → List F → List (List F) × List F
  unfolding add_terms_of add_products
  accumulate [] targets xtx xty = (xtx, xty)
  accumulate (row ∷ rows) [] xtx xty = (xtx, xty)
  accumulate (row ∷ rows) (y ∷ ys) xtx xty =
      accumulate rows ys (add_products xtx row row) (add_terms_of (λ x. mul x y) xty row)

  unfoldable pub ols : List (List F) → List F → Option (List F)
  unfolding accumulate solve
  ols design targets =
      let cols = length (get_or design 0 []) in
      let zeros = replicate cols zero_float in
      let (xtx, xty) = accumulate design targets (replicate cols zeros) zeros in solve xtx xty

  length-add_terms_of :
      (term : F → F) (ts row : List F) → length (add_terms_of term ts row) ≡ length ts
  unfolding add_terms_of
  length-add_terms_of term [] row = refl
  length-add_terms_of term (t ∷ ts) [] = refl
  length-add_terms_of term (t ∷ ts) (x ∷ row) = ap suc (length-add_terms_of term ts row)

  length-accumulate :
      (rows : List (List F)) (ys : List F) (xtx : List (List F)) (xty : List F)
      → length (accumulate rows ys xtx xty).1 ≡ length xty
  unfolding accumulate
  length-accumulate [] ys xtx xty = refl
  length-accumulate (row ∷ rows) [] xtx xty = refl
  length-accumulate (row ∷ rows) (y ∷ ys) xtx xty =
      length-accumulate rows ys _ _ ∙ length-add_terms_of (λ x. mul x y) xty row

  length-solve :
      (matrix : List (List F)) (rhs beta : List F)
      → solve matrix rhs ≡ some beta
      → length beta ≡ length rhs
  unfolding solve
  length-solve matrix rhs beta e =
      elim (Option-cases
        (eliminate (length rhs) (range_from 0 (length rhs)) (augment matrix rhs))) [
          | inl none_left ↦ absurd (none-ne-some beta (rw (solve, none_left) at e))
          | inr (a, found) ↦
              ap length (sym (some-injective _ _ (rw (solve, found) at e)))
              ∙ length-map _ (range_from 0 (length rhs))
              ∙ length-range_from 0 (length rhs)
        ]

  -- A fit has as many values as a design row.
  pub length-ols :
      (row : List F) (rows : List (List F)) (targets beta : List F)
      → ols (row ∷ rows) targets ≡ some beta
      → length beta ≡ length row
  unfolding ols
  length-ols row rows targets beta e =
      length-solve _ _ beta e
      ∙ length-accumulate (row ∷ rows) targets _ _
      ∙ length-replicate (length row) zero_float
