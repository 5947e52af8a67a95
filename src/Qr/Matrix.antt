-- ===== src/Qr/Matrix.antt =====
-- src/swelter/qr.py: the function patterns. A grid is the matrix with its reserved modules; all
-- coordinates are natural numbers, and a coordinate that is -1 in the source is skipped there.
use Prim.Native.Char.{code}
use swelter.Prelude.{
  ℕ, zero, suc, ◌+◌, ◌-◌, ◌/◌, ◌%◌, ◌^◌, String, List, [], ◌∷◌, Bool, true, false, ◌&&◌, ◌||◌,
  if◌then◌else◌, ltb, leb, ◌==◌, set, get_or, replicate,
}
use swelter.Qr.Mask.{reserved_at}
use swelter.Qr.Codes.{format_bits, version_bits}

abbrev pub Grid : Type 0
Grid = List (List ℕ) × List (List Bool)

-- `matrix[r][c] = v`
unfoldable pub write_at : {A : Type 0} → ℕ → ℕ → A → List (List A) → List (List A)
write_at r c v matrix = set matrix r (set (get_or matrix r []) c v)

unfoldable pub new_grid : ℕ → Grid
new_grid size = (replicate size (replicate size 0), replicate size (replicate size false))

-- A module that is drawn and reserved, where it is in the symbol.
unfoldable pub draw : ℕ → ℕ → ℕ → ℕ → Grid → Grid
unfolding write_at
draw size r c v grid =
    if ltb r size && ltb c size then (write_at r c v grid.0, write_at r c true grid.1) else grid

-- The loops of `_stamp`, over a row of the pattern and over its rows.
unfoldable pub stamp_row : ℕ → ℕ → ℕ → String → Grid → Grid
unfolding draw
stamp_row size r c String.[] grid = grid
stamp_row size r c (String.◌∷◌ ch row) grid =
    stamp_row size r (c + 1) row (draw size r c (if code ch == 49 then 1 else 0) grid)

unfoldable pub stamp : ℕ → ℕ → ℕ → List String → Grid → Grid
unfolding stamp_row
stamp size top left [] grid = grid
stamp size top left (row ∷ pattern) grid =
    stamp size (top + 1) left pattern (stamp_row size top left row grid)

abbrev pub finder : List String
finder = "1111111" ∷ "1000001" ∷ "1011101" ∷ "1011101" ∷ "1011101" ∷ "1000001" ∷ "1111111" ∷ []

abbrev pub align_pattern : List String
align_pattern = "11111" ∷ "10001" ∷ "10101" ∷ "10001" ∷ "11111" ∷ []

-- The loops that clear nine columns of nine rows; row and column are one more than in the source.
unfoldable pub clear_row : ℕ → ℕ → ℕ → ℕ → Grid → Grid
unfolding draw
clear_row size r zero c grid = grid
clear_row size r (suc columns) c grid =
    clear_row size r columns (c + 1)
      (if leb 1 r && leb 1 c then draw size (r - 1) (c - 1) 0 grid else grid)

unfoldable pub clear_rows : ℕ → ℕ → ℕ → ℕ → Grid → Grid
unfolding clear_row
clear_rows size zero r c grid = grid
clear_rows size (suc rows) r c grid = clear_rows size rows (r + 1) c (clear_row size r 9 c grid)

unfoldable pub place_finder : ℕ → ℕ → ℕ → Grid → Grid
unfolding clear_rows stamp
place_finder size top left grid = stamp size top left finder (clear_rows size 9 top left grid)

-- `_ALIGNMENT`, from version 1 on.
abbrev pub alignment : List (List ℕ)
alignment =
    []
    ∷ (6 ∷ 18 ∷ [])
    ∷ (6 ∷ 22 ∷ [])
    ∷ (6 ∷ 26 ∷ [])
    ∷ (6 ∷ 30 ∷ [])
    ∷ (6 ∷ 34 ∷ [])
    ∷ (6 ∷ 22 ∷ 38 ∷ [])
    ∷ (6 ∷ 24 ∷ 42 ∷ [])
    ∷ (6 ∷ 26 ∷ 46 ∷ [])
    ∷ (6 ∷ 28 ∷ 50 ∷ [])
    ∷ []

abbrev pub final_position : ℕ → List ℕ → ℕ
final_position x [] = x
final_position x (y ∷ ys) = final_position y ys

-- `(r, c) in corners`
abbrev pub is_corner : ℕ → ℕ → ℕ → ℕ → Bool
is_corner first final r c =
    (r == first && c == first) || (r == first && c == final) || (r == final && c == first)

unfoldable pub align_row : ℕ → ℕ → ℕ → ℕ → List ℕ → Grid → Grid
unfolding stamp
align_row size first final r [] grid = grid
align_row size first final r (c ∷ cs) grid =
    align_row size first final r cs
      (if is_corner first final r c then grid else stamp size (r - 2) (c - 2) align_pattern grid)

unfoldable pub align_rows : ℕ → ℕ → ℕ → List ℕ → List ℕ → Grid → Grid
unfolding align_row
align_rows size first final positions [] grid = grid
align_rows size first final positions (r ∷ rs) grid =
    align_rows size first final positions rs (align_row size first final r positions grid)

unfoldable pub align_at : ℕ → List ℕ → Grid → Grid
unfolding align_rows
align_at size [] grid = grid
align_at size (p ∷ ps) grid = align_rows size p (final_position p ps) (p ∷ ps) (p ∷ ps) grid

unfoldable pub place_alignment_patterns : ℕ → ℕ → Grid → Grid
unfolding align_at
place_alignment_patterns size version grid = align_at size (get_or alignment (version - 1) []) grid

-- A module of the timing, where it is not reserved.
unfoldable pub draw_free : ℕ → ℕ → ℕ → Grid → Grid
unfolding write_at
draw_free r c bit grid =
    if reserved_at grid.1 r c then grid else (write_at r c bit grid.0, write_at r c true grid.1)

-- The loop with the rounds that are left.
unfoldable pub timing_from : ℕ → ℕ → Grid → Grid
unfolding draw_free
timing_from zero i grid = grid
timing_from (suc rounds) i grid =
    let bit = if i % 2 == 0 then 1 else 0 in
    timing_from rounds (i + 1) (draw_free i 6 bit (draw_free 6 i bit grid))

unfoldable pub place_timing_patterns : ℕ → Grid → Grid
unfolding timing_from
place_timing_patterns size grid = timing_from (size - 16) 8 grid

abbrev reserve : ℕ → ℕ → List (List Bool) → List (List Bool)
reserve r c reserved = write_at r c true reserved

unfoldable pub reserve_corner : ℕ → ℕ → List (List Bool) → List (List Bool)
unfolding write_at
reserve_corner zero i reserved = reserved
reserve_corner (suc rounds) i reserved =
    reserve_corner rounds (i + 1) (if i == 6 then reserved else reserve i 8 (reserve 8 i reserved))

unfoldable pub reserve_edges : ℕ → ℕ → ℕ → List (List Bool) → List (List Bool)
unfolding write_at
reserve_edges size zero i reserved = reserved
reserve_edges size (suc rounds) i reserved =
    reserve_edges size rounds (i + 1) (reserve (size - 1 - i) 8 (reserve 8 (size - 1 - i) reserved))

unfoldable pub reserve_format_areas : ℕ → List (List Bool) → List (List Bool)
unfolding reserve_corner reserve_edges write_at
reserve_format_areas size reserved =
    reserve (size - 8) 8 (reserve_edges size 8 0 (reserve_corner 9 0 reserved))

-- The version areas of `_build_matrix`: the columns j of row i, and the rows.
unfoldable pub reserve_version_row : ℕ → ℕ → ℕ → List (List Bool) → List (List Bool)
unfolding write_at
reserve_version_row i zero j reserved = reserved
reserve_version_row i (suc rounds) j reserved =
    reserve_version_row i rounds (j + 1) (reserve j i (reserve i j reserved))

unfoldable pub reserve_version : ℕ → ℕ → ℕ → List (List Bool) → List (List Bool)
unfolding reserve_version_row
reserve_version size zero i reserved = reserved
reserve_version size (suc rounds) i reserved =
    reserve_version size rounds (i + 1) (reserve_version_row i 3 (size - 11) reserved)

-- A bit of the format in its two copies.
unfoldable pub write_format_bit : ℕ → ℕ → ℕ → List (List ℕ) → List (List ℕ)
unfolding write_at
write_format_bit size i bit matrix =
    let first =
      if ltb i 6
      then write_at i 8 bit matrix
      else if ltb i 8
      then write_at (i + 1) 8 bit matrix
      else if i == 8
      then write_at 8 7 bit matrix
      else write_at 8 (14 - i) bit matrix in
    if ltb i 8 then write_at 8 (size - 1 - i) bit first else write_at (size + i - 15) 8 bit first

unfoldable pub write_format_from : ℕ → ℕ → ℕ → ℕ → List (List ℕ) → List (List ℕ)
unfolding write_format_bit
write_format_from size bits zero i matrix = matrix
write_format_from size bits (suc rounds) i matrix =
    write_format_from size bits rounds (i + 1) (write_format_bit size i (bits / 2 ^ i % 2) matrix)

unfoldable pub write_format_bits : ℕ → ℕ → List (List ℕ) → List (List ℕ)
unfolding write_format_from format_bits write_at
write_format_bits size mask matrix =
    write_at (size - 8) 8 1 (write_format_from size (format_bits mask) 15 0 matrix)

unfoldable pub write_version_from : ℕ → ℕ → ℕ → ℕ → List (List ℕ) → List (List ℕ)
unfolding write_at
write_version_from size bits zero i matrix = matrix
write_version_from size bits (suc rounds) i matrix =
    let bit = bits / 2 ^ i % 2 in
    write_version_from size bits rounds (i + 1)
      (write_at (size - 11 + i % 3) (i / 3) bit (write_at (i / 3) (size - 11 + i % 3) bit matrix))

unfoldable pub write_version_bits : ℕ → ℕ → List (List ℕ) → List (List ℕ)
unfolding write_version_from version_bits
write_version_bits size version matrix =
    if ltb version 7 then matrix else write_version_from size (version_bits version) 18 0 matrix
