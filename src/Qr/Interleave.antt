-- ===== src/Qr/Interleave.antt =====
-- src/swelter/qr.py: `_interleave`. A version is one of the table.
pub mod Complete
pub mod Sizes
use swelter.Prelude.{
  ℕ, zero, suc, ◌+◌, ◌-◌, List, [], ◌∷◌, ◌++◌, map, length, take, drop, get_or, max, if◌then◌else◌,
  ltb,
}
use swelter.Qr.{Blocks, rs_blocks}
use swelter.Qr.Field.{rs_encode}

-- The blocks of one size, and the codewords behind them.
unfoldable pub split_count : ℕ → ℕ → List ℕ → List (List ℕ) × List ℕ
split_count zero data_len codewords = ([], codewords)
split_count (suc count) data_len codewords =
    let rest = split_count count data_len (drop data_len codewords) in
    (take data_len codewords ∷ rest.0, rest.1)

-- The data blocks and their error-correction blocks.
unfoldable pub split_blocks : List Blocks → List ℕ → List (List ℕ) × List (List ℕ)
unfolding split_count rs_encode
split_blocks [] codewords = ([], [])
split_blocks ((count, total, data_len) ∷ blocks) codewords =
    let own = split_count count data_len codewords in
    let rest = split_blocks blocks own.1 in
    (own.0 ++ rest.0, map (λ block. rs_encode block (total - data_len)) own.0 ++ rest.1)

-- `max(len(g) for g in groups)`
abbrev pub longest : List (List ℕ) → ℕ
longest [] = 0
longest (g ∷ groups) = max (length g) (longest groups)

-- The inner loop over the groups.
unfoldable pub column : ℕ → List (List ℕ) → List ℕ
column i [] = []
column i (g ∷ groups) =
    let rest = column i groups in if ltb i (length g) then get_or g i 0 ∷ rest else rest

-- The outer loop, with the rounds that are left.
unfoldable pub columns : ℕ → ℕ → List (List ℕ) → List ℕ
unfolding column
columns zero i groups = []
columns (suc rounds) i groups = column i groups ++ columns rounds (suc i) groups

unfoldable pub read_columns : List (List ℕ) → List ℕ
unfolding columns
read_columns groups = columns (longest groups) 0 groups

unfoldable pub interleave : ℕ → List ℕ → List ℕ
unfolding split_blocks read_columns
interleave version codewords =
    let groups = split_blocks (get_or rs_blocks (version - 1) []) codewords in
    read_columns groups.0 ++ read_columns groups.1
