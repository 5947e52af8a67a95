-- ===== src/Qc/Coverage.antt =====
-- src/swelter/qc.py: `coverage_equity`, the calibrated and raw nodes of each published cell. The
-- fractions of the summary are rounded divisions of its counts and are left out, as is the note.
pub mod Totals
use swelter.Prelude.{
  ℕ, zero, suc, ◌+◌, ◌-◌, ◌≡◌, String, List, [], ◌∷◌, map, Bool, true, false, not, ◌&&◌,
  if◌then◌else◌, ltb, any_of, str_eq, length, keep_if,
}
use swelter.Prelude.Text.{text_lt}
use swelter.Prelude.Sort.{sort_by}
use swelter.Float.{Float}
use swelter.Models.{Observation, is_calibrated}

-- A cell with its tally.
pub record Cell : Type 0 where
  pub cell_id : String
  pub label : String
  pub nodes : ℕ
  pub calibrated : ℕ
  pub raw : ℕ

-- An entry of `node_cells`: a placed node, its cell and the label of the cell.
pub record Placed : Type 0 where
  pub node_id : String
  pub cell_id : String
  pub label : String

pub record Summary : Type 0 where
  pub cells : ℕ
  pub confirmed_cells : ℕ
  pub provisional_cells : ℕ
  pub nodes : ℕ
  pub calibrated_nodes : ℕ
  pub raw_nodes : ℕ
  pub coverage_gap : Bool

abbrev pub count_in : Bool → Cell → Cell
count_in true c = record c { nodes = c.nodes + 1; calibrated = c.calibrated + 1 }
count_in false c = record c { nodes = c.nodes + 1; raw = c.raw + 1 }

-- One round of the loop: the cell is made at its first node and keeps the label of that one.
unfoldable pub tally : Placed → Bool → List Cell → List Cell
tally p calibrated [] =
    count_in calibrated
      (record { cell_id = p.cell_id; label = p.label; nodes = 0; calibrated = 0; raw = 0 })
    ∷ []
tally p calibrated (c ∷ cells) =
    if str_eq c.cell_id p.cell_id
    then count_in calibrated c ∷ cells
    else c ∷ tally p calibrated cells

unfoldable pub tallies : (String → Bool) → List Cell → List Placed → List Cell
unfolding tally
tallies is_calibrated_node cells [] = cells
tallies is_calibrated_node cells (p ∷ ps) =
    tallies is_calibrated_node (tally p (is_calibrated_node p.node_id) cells) ps

abbrev pub total : (Cell → ℕ) → List Cell → ℕ
total f [] = 0
total f (c ∷ cells) = f c + total f cells

unfoldable pub summary : List Cell → Summary
summary cells =
    let n = length cells in
    let confirmed = length (keep_if (λ c. ltb 0 c.calibrated) cells) in
    let nodes = total (λ c. c.nodes) cells in
    let calibrated = total (λ c. c.calibrated) cells in
    record {
      cells = n;
      confirmed_cells = confirmed;
      provisional_cells = n - confirmed;
      nodes = nodes;
      calibrated_nodes = calibrated;
      raw_nodes = nodes - calibrated;
      coverage_gap = ltb confirmed n;
    }

module _ (float : Float) where
  -- `node_id in calibrated_nodes`
  unfoldable pub has_calibrated : List (Observation float) → String → Bool
  has_calibrated observations node_id =
      any_of (λ o. str_eq o.node_id node_id && is_calibrated float o) observations

  -- `sorted(counts)`
  abbrev pub by_cell_id : Cell → Cell → Bool
  by_cell_id a b = not (text_lt b.cell_id a.cell_id)

  unfoldable pub coverage_equity : List (Observation float) → List Placed → Summary × List Cell
  unfolding tallies has_calibrated summary
  coverage_equity observations node_cells =
      let counts = tallies (has_calibrated observations) [] node_cells in
      (summary counts, sort_by by_cell_id counts)
