-- ===== src/Qr/Build/Whole.antt =====
-- src/swelter/qr.py: what `_build_matrix` returns.
use mathlib.Core.Bool.{true≢false}
use mathlib.Core.List.{Perm}
use swelter.Prelude.{
  arith, get_or, [], ◌++◌, ◌-◌, ◌≤◌, Bool, ℕ, ◌≡◌, refl, sym, ap, ◌∙◌, List, length, true, Option,
  none, some, inl, inr,
}
use swelter.Qr.Interleave.{interleave, split_blocks}
use swelter.Qr.Interleave.Complete.{concat, interleave_perm}
use swelter.Qr.{encode_codewords, rs_blocks, choose_version, max_version}
use swelter.Qr.Capacity.{IsLeast, choose_version-IsLeast, length-encode_codewords}
use swelter.Qr.Mask.{module_at, reserved_at, apply_mask}
use swelter.Qr.Mask.Involution.{apply_mask_twice}
use swelter.Qr.Matrix.{write_format_bits, write_version_bits}
use swelter.Qr.Data.{place_data}
use swelter.Qr.Data.Kept.{place_data-kept}
use swelter.Qr.Codes.{format_bits, version_bits}
use swelter.Qr.Codes.Standard.{
  format_table, version_table, format_bits-standard, version_bits-standard,
}
use swelter.Qr.Build.{
  Choice, size_of, function_patterns, symbol_bits, finish_matrix, matrix_of, build_at, build_matrix,
}
use swelter.Qr.Build.Decoded.{read_symbol, read_symbol-masked, read_symbol-written}
use swelter.Qr.Build.Best.{IsBest, choose_mask-IsBest}

-- The matrix before the mask.
unfoldable filled_matrix : List ℕ → ℕ → List (List ℕ)
filled_matrix bytes version =
    let grid = function_patterns version in
    place_data (size_of version) grid.0 grid.1 (symbol_bits bytes version)

-- The chosen pattern is the first one with the least penalty, and the function patterns are as they
-- were drawn.
IsMasked : List ℕ → ℕ → Choice → Type 0
IsMasked bytes version best =
    IsBest (size_of version) (filled_matrix bytes version) (function_patterns version).1 8 best
    × ((r c : ℕ)
        → reserved_at (function_patterns version).1 r c ≡ true
        → module_at best.2 r c ≡ module_at (function_patterns version).0 r c)

-- The codewords in the symbol are those of the data and those of the error correction of its
-- blocks.
HasAllCodewords : List ℕ → ℕ → Type 0
HasAllCodewords bytes version =
    let codewords = encode_codewords bytes version in
    Perm (interleave version codewords)
      (codewords ++ concat (split_blocks (get_or rs_blocks (version - 1) []) codewords).1)

-- The format bits of the mask, and from version 7 on the version bits, are those that the tables of
-- the standard have for level M.
HasStandardCodes : ℕ → ℕ → Type 0
HasStandardCodes version mask =
    (format_bits mask ≡ get_or format_table mask 0)
    × (7 ≤ version → version_bits version ≡ get_or version_table (version - 7) 0)

-- The matrix of some version that is the least one with room, with the format and the version
-- written over what was chosen and the bits of the codewords still to be read; without a version
-- none of them has room.
pub IsBuilt : List ℕ → Option (List (List ℕ)) → Type 0
unfolding IsMasked
IsBuilt bytes none = IsLeast max_version 1 (length bytes) none
IsBuilt bytes (some matrix) =
    (version : ℕ) × (best : Choice) × IsLeast max_version 1 (length bytes) (some version)
    × IsMasked bytes version best
    × (matrix
        ≡ write_version_bits (size_of version) version
            (write_format_bits (size_of version) best.1 best.2))
    × (read_symbol version best.1 matrix ≡ symbol_bits bytes version)
    × HasAllCodewords bytes version
    × HasStandardCodes version best.1

masked_kept :
    (matrix : List (List ℕ)) (reserved : List (List Bool)) (pattern r c : ℕ)
    → reserved_at reserved r c ≡ true
    → module_at (apply_mask matrix reserved pattern) r c ≡ module_at matrix r c
masked_kept matrix reserved pattern r c h = elim (apply_mask_twice matrix reserved pattern r c).1 [
  | inl e ↦ absurd (true≢false (sym h ∙ e))
  | inr e ↦ e
]

IsBest-IsMasked :
    (bytes : List ℕ) (version : ℕ) (best : Choice)
    → IsBest (size_of version) (filled_matrix bytes version) (function_patterns version).1 8 best
    → IsMasked bytes version best
unfolding IsMasked IsBest filled_matrix
IsBest-IsMasked bytes version (score, pattern, best) h =
    let grid = function_patterns version in
    (
      h,
      λ r c kept.
          ap (λ m. module_at m r c) h.1
          ∙ masked_kept (filled_matrix bytes version) grid.1 pattern r c kept
          ∙ place_data-kept (size_of version) grid.0 grid.1 (symbol_bits bytes version) r c kept,
    )

finished_back :
    (bytes : List ℕ) (version : ℕ) (best : Choice)
    → IsLeast max_version 1 (length bytes) (some version)
    → IsMasked bytes version best
    → read_symbol version best.1
        (finish_matrix (size_of version) version (filled_matrix bytes version) (some best))
      ≡ symbol_bits bytes version
unfolding IsMasked IsBest IsLeast filled_matrix
finished_back bytes version (score, pattern, best) (low, high, fits, least)
      ((small, masked, scored, least_score, first), kept) =
    read_symbol-written version pattern best low high
    ∙ ap (read_symbol version pattern) masked
    ∙ read_symbol-masked bytes version pattern (filled_matrix bytes version) low high fits refl

all_codewords :
    (bytes : List ℕ) (version : ℕ)
    → IsLeast max_version 1 (length bytes) (some version)
    → HasAllCodewords bytes version
unfolding HasAllCodewords IsLeast
all_codewords bytes version (low, high, fits, least) =
    let codewords = encode_codewords bytes version in
    interleave_perm version codewords (omega (arith, length-encode_codewords bytes version fits))

standard_codes :
    (bytes : List ℕ) (version : ℕ) (best : Choice)
    → IsLeast max_version 1 (length bytes) (some version)
    → IsMasked bytes version best
    → HasStandardCodes version best.1
unfolding HasStandardCodes IsMasked IsBest IsLeast filled_matrix
standard_codes bytes version (score, pattern, best) (low, high, fits, least)
      ((small, masked, scored, least_score, first), kept) =
    (format_bits-standard pattern small, λ from. version_bits-standard version from high)

matrix_of-IsBuilt :
    (bytes : List ℕ) (version : ℕ)
    → IsLeast max_version 1 (length bytes) (some version)
    → IsBuilt bytes (some (matrix_of bytes version))
unfolding IsBuilt filled_matrix matrix_of
matrix_of-IsBuilt bytes version h =
    let (best, e, k) =
      choose_mask-IsBest (size_of version) (filled_matrix bytes version)
        (function_patterns version).1 in
    let masked = IsBest-IsMasked bytes version best k in
    let same = ap (finish_matrix (size_of version) version (filled_matrix bytes version)) e in
    (
      version,
      best,
      h,
      masked,
      same,
      ap (read_symbol version best.1) same ∙ finished_back bytes version best h masked,
      all_codewords bytes version h,
      standard_codes bytes version best h masked,
    )

build_at-IsBuilt :
    (bytes : List ℕ) (o : Option ℕ)
    → IsLeast max_version 1 (length bytes) o
    → IsBuilt bytes (build_at bytes o)
unfolding IsBuilt
build_at-IsBuilt bytes none h = h
build_at-IsBuilt bytes (some version) h = matrix_of-IsBuilt bytes version h

-- For any bytes: if no version of 1 to 10 has room for the header and the bytes, the build fails.
-- Otherwise it returns a matrix of the least version with room. Its mask is the first of the eight
-- with the least penalty, and before the format is written no reserved module differs from the
-- function patterns. A reader of the finished matrix that undoes this mask and follows the zigzag
-- gets exactly the bits of the interleaved codewords and of the filler; these codewords are, in
-- some order, those of the data and those of the error correction of the blocks it is split into.
-- The format bits are those that the standard has for level M and this mask, and from version 7 on
-- the version bits are those that it has for this version.
pub build_matrix-IsBuilt : (bytes : List ℕ) → IsBuilt bytes (build_matrix bytes)
unfolding build_matrix
build_matrix-IsBuilt bytes =
    build_at-IsBuilt bytes (choose_version (length bytes)) (choose_version-IsLeast (length bytes))
