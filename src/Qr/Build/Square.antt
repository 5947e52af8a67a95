-- ===== src/Qr/Build/Square.antt =====
-- src/swelter/qr.py: the function patterns leave the matrix a square.
use swelter.Prelude.{
  ℕ, zero, suc, ◌+◌, ◌-◌, ◌<◌, ◌≡◌, refl, ap, ◌∙◌, String, List, [], ◌∷◌, length, replicate,
  length-replicate, get_or, Bool, true, false, ◌&&◌, if◌then◌else◌, ltb, leb, arith,
}
use swelter.Qr.Mask.{reserved_at}
use swelter.Qr.Matrix.{
  Grid, new_grid, draw, stamp_row, stamp, finder, align_pattern, clear_row, clear_rows,
  place_finder, alignment, final_position, is_corner, align_row, align_rows, align_at,
  place_alignment_patterns, draw_free, timing_from, place_timing_patterns,
}
use swelter.Qr.Build.{size_of, function_patterns}
use swelter.Qr.Data.Back.{IsSquare, write_at-IsSquare}

get_or-replicate : {A : Type 0} (n : ℕ) (a d : A) (i : ℕ) → i < n → get_or (replicate n a) i d ≡ a
get_or-replicate zero a d i h = absurd (omega arith)
get_or-replicate (suc n) a d zero h = refl
get_or-replicate (suc n) a d (suc i) h = get_or-replicate n a d i (omega arith)

new_grid-IsSquare : (size : ℕ) → IsSquare size (new_grid size).0
unfolding new_grid IsSquare
new_grid-IsSquare size = (
  length-replicate {A = List ℕ} size _,
  λ r h.
      ap length (get_or-replicate size (replicate size 0) [] r h) ∙ length-replicate {A = ℕ} size 0,
)

module _ (n size : ℕ) where
  either-IsSquare :
      (b : Bool) (g h : Grid) → IsSquare n g.0 → IsSquare n h.0 → IsSquare n (if b then g else h).0
  either-IsSquare true g h k l = k
  either-IsSquare false g h k l = l

  draw-IsSquare :
      (r c v : ℕ) (grid : Grid) → IsSquare n grid.0 → IsSquare n (draw size r c v grid).0
  unfolding draw
  draw-IsSquare r c v grid h =
      either-IsSquare (ltb r size && ltb c size) _ grid (write_at-IsSquare n grid.0 r c v h) h

  stamp_row-IsSquare :
      (r c : ℕ) (row : String) (grid : Grid)
      → IsSquare n grid.0
      → IsSquare n (stamp_row size r c row grid).0
  unfolding stamp_row
  stamp_row-IsSquare r c String.[] grid h = h
  stamp_row-IsSquare r c (String.◌∷◌ ch row) grid h =
      stamp_row-IsSquare r (c + 1) row _ (draw-IsSquare r c _ grid h)

  stamp-IsSquare :
      (top left : ℕ) (pattern : List String) (grid : Grid)
      → IsSquare n grid.0
      → IsSquare n (stamp size top left pattern grid).0
  unfolding stamp
  stamp-IsSquare top left [] grid h = h
  stamp-IsSquare top left (row ∷ pattern) grid h =
      stamp-IsSquare (top + 1) left pattern _ (stamp_row-IsSquare top left row grid h)

  clear_row-IsSquare :
      (r columns c : ℕ) (grid : Grid)
      → IsSquare n grid.0
      → IsSquare n (clear_row size r columns c grid).0
  unfolding clear_row
  clear_row-IsSquare r zero c grid h = h
  clear_row-IsSquare r (suc columns) c grid h =
      clear_row-IsSquare r columns (c + 1) _
        (either-IsSquare (leb 1 r && leb 1 c) _ grid (draw-IsSquare (r - 1) (c - 1) 0 grid h) h)

  clear_rows-IsSquare :
      (rows r c : ℕ) (grid : Grid)
      → IsSquare n grid.0
      → IsSquare n (clear_rows size rows r c grid).0
  unfolding clear_rows
  clear_rows-IsSquare zero r c grid h = h
  clear_rows-IsSquare (suc rows) r c grid h =
      clear_rows-IsSquare rows (r + 1) c _ (clear_row-IsSquare r 9 c grid h)

  place_finder-IsSquare :
      (top left : ℕ) (grid : Grid)
      → IsSquare n grid.0
      → IsSquare n (place_finder size top left grid).0
  unfolding place_finder
  place_finder-IsSquare top left grid h =
      stamp-IsSquare top left finder _ (clear_rows-IsSquare 9 top left grid h)

  align_row-IsSquare :
      (first final r : ℕ) (cs : List ℕ) (grid : Grid)
      → IsSquare n grid.0
      → IsSquare n (align_row size first final r cs grid).0
  unfolding align_row
  align_row-IsSquare first final r [] grid h = h
  align_row-IsSquare first final r (c ∷ cs) grid h = align_row-IsSquare first final r cs _ (
      either-IsSquare (is_corner first final r c) grid _ h
        (stamp-IsSquare (r - 2) (c - 2) align_pattern grid h))

  align_rows-IsSquare :
      (first final : ℕ) (positions rs : List ℕ) (grid : Grid)
      → IsSquare n grid.0
      → IsSquare n (align_rows size first final positions rs grid).0
  unfolding align_rows
  align_rows-IsSquare first final positions [] grid h = h
  align_rows-IsSquare first final positions (r ∷ rs) grid h =
      align_rows-IsSquare first final positions rs _
        (align_row-IsSquare first final r positions grid h)

  align_at-IsSquare :
      (positions : List ℕ) (grid : Grid)
      → IsSquare n grid.0
      → IsSquare n (align_at size positions grid).0
  unfolding align_at
  align_at-IsSquare [] grid h = h
  align_at-IsSquare (p ∷ ps) grid h =
      align_rows-IsSquare p (final_position p ps) (p ∷ ps) (p ∷ ps) grid h

  draw_free-IsSquare :
      (r c bit : ℕ) (grid : Grid) → IsSquare n grid.0 → IsSquare n (draw_free r c bit grid).0
  unfolding draw_free
  draw_free-IsSquare r c bit grid h =
      either-IsSquare (reserved_at grid.1 r c) grid _ h (write_at-IsSquare n grid.0 r c bit h)

  timing_from-IsSquare :
      (rounds i : ℕ) (grid : Grid) → IsSquare n grid.0 → IsSquare n (timing_from rounds i grid).0
  unfolding timing_from
  timing_from-IsSquare zero i grid h = h
  timing_from-IsSquare (suc rounds) i grid h =
      timing_from-IsSquare rounds (i + 1) _
        (draw_free-IsSquare i 6 _ _ (draw_free-IsSquare 6 i _ grid h))

pub function_patterns-IsSquare :
    (version : ℕ) → IsSquare (size_of version) (function_patterns version).0
unfolding function_patterns place_alignment_patterns place_timing_patterns
function_patterns-IsSquare version =
    let size = size_of version in
    let first = place_finder size 0 0 (new_grid size) in
    let second = place_finder size 0 (size - 7) first in
    let finders = place_finder size (size - 7) 0 second in
    timing_from-IsSquare size size (size - 16) 8
      (align_at size (get_or alignment (version - 1) []) finders)
      (align_at-IsSquare size size (get_or alignment (version - 1) []) finders (
        place_finder-IsSquare size size (size - 7) 0 second (
          place_finder-IsSquare size size 0 (size - 7) first
            (place_finder-IsSquare size size 0 0 (new_grid size) (new_grid-IsSquare size)))))
