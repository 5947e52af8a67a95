-- ===== src/Qr/Build.antt =====
-- src/swelter/qr.py: `_build_matrix`. `none` is QRTooLargeError.
pub mod Square
pub mod Written
pub mod Decoded
pub mod Best
pub mod Whole
use swelter.Prelude.{
  ℕ, zero, suc, ◌+◌, ◌-◌, ◌*◌, List, [], ◌∷◌, ◌++◌, length, Bool, true, false, Option, none, some,
  if◌then◌else◌, leb, ltb, get_or, replicate,
}
use swelter.Qr.{choose_version, encode_codewords, put_all}
use swelter.Qr.Interleave.{interleave}
use swelter.Qr.Mask.{apply_mask}
use swelter.Qr.Matrix.{
  Grid, new_grid, place_finder, place_alignment_patterns, place_timing_patterns,
  reserve_format_areas, reserve_version, write_format_bits, write_version_bits,
}
use swelter.Qr.Data.{place_data}
use swelter.Qr.Penalty.{penalty}

-- `_REMAINDER_BITS`, from version 1 on.
abbrev pub remainder_bits : List ℕ
remainder_bits = 0 ∷ 7 ∷ 7 ∷ 7 ∷ 7 ∷ 7 ∷ 0 ∷ 0 ∷ 0 ∷ 0 ∷ []

-- The size of the symbol.
abbrev pub size_of : ℕ → ℕ
size_of version = 17 + 4 * version

-- The function patterns, with what is reserved for the format and the version.
unfoldable pub function_patterns : ℕ → Grid
unfolding new_grid place_finder place_alignment_patterns place_timing_patterns reserve_format_areas
    reserve_version
function_patterns version =
    let size = size_of version in
    let finders =
      place_finder size (size - 7) 0
        (place_finder size 0 (size - 7) (place_finder size 0 0 (new_grid size))) in
    let timed = place_timing_patterns size (place_alignment_patterns size version finders) in
    let reserved = reserve_format_areas size timed.1 in
    (timed.0, if leb 7 version then reserve_version size 6 0 reserved else reserved)

-- The bits of the codewords and the filler behind them.
unfoldable pub symbol_bits : List ℕ → ℕ → List ℕ
unfolding encode_codewords interleave put_all
symbol_bits bytes version =
    put_all (interleave version (encode_codewords bytes version))
    ++ replicate (get_or remainder_bits (version - 1) 0) 0

-- `best_score`, `best_pattern` and `best_matrix`.
abbrev pub Choice : Type 0
Choice = ℕ × ℕ × List (List ℕ)

abbrev pub better : Option Choice → Choice → Choice
better none candidate = candidate
better (some best) candidate = if ltb candidate.0 best.0 then candidate else best

-- The loop over the patterns, with those that are left.
unfoldable pub best_from :
    ℕ → ℕ → List (List ℕ) → List (List Bool) → ℕ → Option Choice → Option Choice
unfolding apply_mask penalty
best_from size zero matrix reserved pattern best = best
best_from size (suc left) matrix reserved pattern best =
    let candidate = apply_mask matrix reserved pattern in
    best_from size left matrix reserved (suc pattern)
      (some (better best (penalty size candidate, pattern, candidate)))

unfoldable pub choose_mask : ℕ → List (List ℕ) → List (List Bool) → Option Choice
unfolding best_from
choose_mask size matrix reserved = best_from size 8 matrix reserved 0 none

abbrev pub finish_matrix : ℕ → ℕ → List (List ℕ) → Option Choice → List (List ℕ)
finish_matrix size version matrix none =
    write_version_bits size version (write_format_bits size 0 matrix)
finish_matrix size version matrix (some (score, pattern, best)) =
    write_version_bits size version (write_format_bits size pattern best)

unfoldable pub matrix_of : List ℕ → ℕ → List (List ℕ)
unfolding function_patterns symbol_bits place_data choose_mask write_format_bits write_version_bits
matrix_of bytes version =
    let size = size_of version in
    let grid = function_patterns version in
    let filled = place_data size grid.0 grid.1 (symbol_bits bytes version) in
    finish_matrix size version filled (choose_mask size filled grid.1)

abbrev pub build_at : List ℕ → Option ℕ → Option (List (List ℕ))
build_at bytes none = none
build_at bytes (some version) = some (matrix_of bytes version)

unfoldable pub build_matrix : List ℕ → Option (List (List ℕ))
unfolding choose_version matrix_of
build_matrix bytes = build_at bytes (choose_version (length bytes))
