-- ===== src/Qr/Svg.antt =====
-- src/swelter/qr.py: `qr_svg`, on the bytes of its text.
pub mod Painted
use swelter.Prelude.{
  ℕ, zero, suc, ◌+◌, ◌-◌, ◌*◌, ◌/◌, ◌%◌, String, List, [], ◌∷◌, ◌++◌, length, Option, none, some,
  if◌then◌else◌, ltb, ◌==◌, get_or,
}
use swelter.Prelude.Text.{join}
use swelter.Qr.Build.{build_matrix}

-- `str` of a number, with as many rounds as are enough.
unfoldable digits_in : ℕ → ℕ → String
unfolding join
digits_in zero n = ""
digits_in (suc rounds) n =
    let more = digits_in rounds (n / 10) in
    join (if ltb n 10 then "" else more)
      (get_or ("0" ∷ "1" ∷ "2" ∷ "3" ∷ "4" ∷ "5" ∷ "6" ∷ "7" ∷ "8" ∷ "9" ∷ []) (n % 10) "")

unfoldable pub digits_of : ℕ → String
unfolding digits_in
digits_of n = digits_in (suc n) n

-- The loop over a row from column c on, in the run that starts at a column or outside of a run: the
-- start and the width of each run.
unfoldable pub dark_runs : Option ℕ → ℕ → List ℕ → List (ℕ × ℕ)
dark_runs none c [] = []
dark_runs none c (v ∷ row) =
    let outside = dark_runs none (suc c) row in
    let inside = dark_runs (some c) (suc c) row in if v == 0 then outside else inside
dark_runs (some start) c [] = (start, c - start) ∷ []
dark_runs (some start) c (v ∷ row) =
    let ended = (start, c - start) ∷ dark_runs none (suc c) row in
    let longer = dark_runs (some start) (suc c) row in if v == 0 then ended else longer

-- A row, a column and a width.
abbrev pub Rect : Type 0
Rect = ℕ × ℕ × ℕ

abbrev pub rects_of_row : ℕ → List (ℕ × ℕ) → List Rect
rects_of_row r [] = []
rects_of_row r ((start, width) ∷ runs) = (r, start, width) ∷ rects_of_row r runs

-- The loop over the rows from row r on.
unfoldable pub rects_from : ℕ → List (List ℕ) → List Rect
unfolding dark_runs
rects_from r [] = []
rects_from r (row ∷ rows) = rects_of_row r (dark_runs none 0 row) ++ rects_from (suc r) rows

abbrev pub quiet : ℕ
quiet = 4

abbrev pub join_all : List String → String
join_all [] = ""
join_all (s ∷ rest) = join s (join_all rest)

unfoldable pub rect_text : ℕ → Rect → String
unfolding digits_of join
rect_text module_px (r, start, width) = join_all (
    "<rect x=\""
    ∷ digits_of ((start + quiet) * module_px)
    ∷ "\" y=\""
    ∷ digits_of ((r + quiet) * module_px)
    ∷ "\" width=\""
    ∷ digits_of (width * module_px)
    ∷ "\" height=\""
    ∷ digits_of module_px
    ∷ "\"/>"
    ∷ [])

abbrev rect_texts : ℕ → List Rect → List String
rect_texts module_px [] = []
rect_texts module_px (rect ∷ rects) = rect_text module_px rect ∷ rect_texts module_px rects

unfoldable pub svg_of : List (List ℕ) → ℕ → String
unfolding digits_of join rect_text rects_from
svg_of matrix module_px =
    let px = digits_of ((length matrix + quiet * 2) * module_px) in
    join_all (
      "<svg xmlns=\"http://www.w3.org/2000/svg\" viewBox=\"0 0 "
      ∷ px
      ∷ " "
      ∷ px
      ∷ "\" width=\""
      ∷ px
      ∷ "\" height=\""
      ∷ px
      ∷ "\" shape-rendering=\"crispEdges\" role=\"img\" aria-label=\"QR code\"><rect width=\""
      ∷ px
      ∷ "\" height=\""
      ∷ px
      ∷ "\" fill=\"#fff\"/><g fill=\"#000\">"
      ∷ join_all (rect_texts module_px (rects_from 0 matrix))
      ∷ "</g></svg>"
      ∷ [])

unfoldable pub qr_svg : List ℕ → ℕ → Option String
unfolding build_matrix svg_of
qr_svg bytes module_px = elim (build_matrix bytes) [
  | none ↦ none
  | some matrix ↦ some (svg_of matrix module_px)
]
