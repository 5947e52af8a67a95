-- ===== src/Qr/Penalty.antt =====
-- src/swelter/qr.py: the penalty of a matrix.
use swelter.Prelude.{
  ℕ, zero, suc, ◌+◌, ◌-◌, ◌*◌, ◌/◌, List, [], ◌∷◌, ◌++◌, map, Bool, true, false, ◌&&◌,
  if◌then◌else◌, leb, ◌==◌,
}
use swelter.Qr.Mask.{module_at}

-- What a run adds when it ends.
abbrev pub run_score : ℕ → ℕ
run_score run = if leb 5 run then 3 + (run - 5) else 0

-- The loop over a line from the module before on.
unfoldable pub run_penalty : ℕ → ℕ → List ℕ → ℕ
run_penalty run previous [] = run_score run
run_penalty run previous (x ∷ xs) =
    let longer = run_penalty (run + 1) x xs in
    let ended = run_score run + run_penalty 1 x xs in if x == previous then longer else ended

abbrev pub starts_with : List ℕ → List ℕ → Bool
starts_with [] line = true
starts_with (p ∷ pattern) [] = false
starts_with (p ∷ pattern) (x ∷ line) = (p == x) && starts_with pattern line

-- The loop over `find`: the next search starts one module behind the last hit.
unfoldable pub find_penalty : List ℕ → List ℕ → ℕ
find_penalty pattern [] = 0
find_penalty pattern (x ∷ line) =
    (if starts_with pattern (x ∷ line) then 40 else 0) + find_penalty pattern line

abbrev finder_like : List ℕ
finder_like = 1 ∷ 0 ∷ 1 ∷ 1 ∷ 1 ∷ 0 ∷ 1 ∷ 0 ∷ 0 ∷ 0 ∷ 0 ∷ []

abbrev finder_like_back : List ℕ
finder_like_back = 0 ∷ 0 ∷ 0 ∷ 0 ∷ 1 ∷ 0 ∷ 1 ∷ 1 ∷ 1 ∷ 0 ∷ 1 ∷ []

unfoldable pub line_penalty : List ℕ → ℕ
unfolding run_penalty find_penalty
line_penalty [] = 0
line_penalty (x ∷ line) =
    run_penalty 1 x line
    + find_penalty finder_like (x ∷ line)
    + find_penalty finder_like_back (x ∷ line)

-- `[matrix[r][c] for r in range(size)]` and the loop over c.
abbrev pub column_of : List (List ℕ) → ℕ → ℕ → ℕ → List ℕ
column_of matrix c zero r = []
column_of matrix c (suc rows) r = module_at matrix r c ∷ column_of matrix c rows (suc r)

unfoldable pub columns_of : ℕ → List (List ℕ) → ℕ → ℕ → List (List ℕ)
columns_of size matrix zero c = []
columns_of size matrix (suc columns) c =
    column_of matrix c size 0 ∷ columns_of size matrix columns (suc c)

abbrev pub total_of : List ℕ → ℕ
total_of [] = 0
total_of (x ∷ xs) = x + total_of xs

-- The square of four equal modules at a place.
abbrev pub block_score : List (List ℕ) → ℕ → ℕ → ℕ
block_score matrix r c =
    let v = module_at matrix r c in
    if (v == module_at matrix r (c + 1))
      && (module_at matrix r (c + 1) == module_at matrix (r + 1) c)
      && (module_at matrix (r + 1) c == module_at matrix (r + 1) (c + 1))
    then 3
    else 0

unfoldable pub block_row : List (List ℕ) → ℕ → ℕ → ℕ → ℕ
block_row matrix r zero c = 0
block_row matrix r (suc columns) c = block_score matrix r c + block_row matrix r columns (suc c)

unfoldable pub block_rows : List (List ℕ) → ℕ → ℕ → ℕ → ℕ
unfolding block_row
block_rows matrix size zero r = 0
block_rows matrix size (suc rows) r =
    block_row matrix r (size - 1) 0 + block_rows matrix size rows (suc r)

-- `abs(percent - 50) // 5 * 10`
abbrev pub balance_score : ℕ → ℕ
balance_score percent = (if leb 50 percent then percent - 50 else 50 - percent) / 5 * 10

unfoldable pub penalty : ℕ → List (List ℕ) → ℕ
unfolding line_penalty columns_of block_rows
penalty size matrix =
    total_of (map line_penalty (matrix ++ columns_of size matrix size 0))
    + block_rows matrix size (size - 1) 0
    + balance_score (total_of (map total_of matrix) * 100 / (size * size))
