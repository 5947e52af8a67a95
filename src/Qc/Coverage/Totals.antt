-- ===== src/Qc/Coverage/Totals.antt =====
-- The tallies of the cells and of the summary.
use swelter.Prelude.{
  ℕ, suc, ◌+◌, ◌≤◌, ◌≡◌, ◌∙◌, String, List, [], ◌∷◌, Bool, true, false, ltb, str_eq, length,
  keep_if, All, arith, Bool-cases, inl, inr,
}
use swelter.Prelude.Sort.{All-sort_by}
use swelter.Float.{Float}
use swelter.Models.{Observation}
use swelter.Qc.Coverage.{
  Cell, Placed, Summary, count_in, tally, tallies, total, summary, has_calibrated, by_cell_id,
  coverage_equity,
}

-- A cell has a node, and each of its nodes is calibrated or raw.
pub record IsTallied (c : Cell) : Type 0 where
  pub some_node : 1 ≤ c.nodes
  pub split : c.nodes ≡ c.calibrated + c.raw

tally-IsTallied :
    (p : Placed) (b : Bool) (cells : List Cell)
    → All IsTallied cells
    → All IsTallied (tally p b cells)
unfolding tally
tally-IsTallied p true [] h = (record { some_node = omega arith; split = omega arith }, tt)
tally-IsTallied p false [] h = (record { some_node = omega arith; split = omega arith }, tt)
tally-IsTallied p b (c ∷ cells) h = elim (Bool-cases (str_eq c.cell_id p.cell_id)) [
  | inl e ↦ rw e (counted b, h.1)
  | inr e ↦ rw e (h.0, tally-IsTallied p b cells h.1)
]
  where
    counted : (b : Bool) → IsTallied (count_in b c)
    counted true = record { some_node = omega arith; split = omega (arith, h.0.split) }
    counted false = record { some_node = omega arith; split = omega (arith, h.0.split) }

total-tally :
    (p : Placed) (b : Bool) (cells : List Cell)
    → total (λ c. c.nodes) (tally p b cells) ≡ suc (total (λ c. c.nodes) cells)
unfolding tally
total-tally p true [] = omega arith
total-tally p false [] = omega arith
total-tally p b (c ∷ cells) = elim (Bool-cases (str_eq c.cell_id p.cell_id)) [
  | inl e ↦ rw e (counted b)
  | inr e ↦ rw e (omega (arith, total-tally p b cells))
]
  where
    counted :
        (b : Bool)
        → (count_in b c).nodes + total (λ d. d.nodes) cells
          ≡ suc (c.nodes + total (λ d. d.nodes) cells)
    counted true = omega arith
    counted false = omega arith

tallies-IsTallied :
    (f : String → Bool) (cells : List Cell) (ps : List Placed)
    → All IsTallied cells
    → All IsTallied (tallies f cells ps)
unfolding tallies
tallies-IsTallied f cells [] h = h
tallies-IsTallied f cells (p ∷ ps) h =
    tallies-IsTallied f (tally p (f p.node_id) cells) ps (tally-IsTallied p (f p.node_id) cells h)

total-tallies :
    (f : String → Bool) (cells : List Cell) (ps : List Placed)
    → total (λ c. c.nodes) (tallies f cells ps) ≡ total (λ c. c.nodes) cells + length ps
unfolding tallies
total-tallies f cells [] = omega arith
total-tallies f cells (p ∷ ps) =
    omega
      (arith, total-tallies f (tally p (f p.node_id) cells) ps, total-tally p (f p.node_id) cells)

totals_split :
    (cells : List Cell)
    → All IsTallied cells
    → total (λ c. c.nodes) cells ≡ total (λ c. c.calibrated) cells + total (λ c. c.raw) cells
totals_split [] h = omega arith
totals_split (c ∷ cells) h = omega (arith, h.0.split, totals_split cells h.1)

length-keep_if-le : (p : Cell → Bool) (cells : List Cell) → length (keep_if p cells) ≤ length cells
length-keep_if-le p [] = omega arith
length-keep_if-le p (c ∷ cells) = elim (Bool-cases (p c)) [
  | inl e ↦ rw (e, keep_if) (omega (arith, length-keep_if-le p cells))
  | inr e ↦ rw (e, keep_if) (omega (arith, length-keep_if-le p cells))
]

-- The counts of a summary over the cells.
pub record IsConsistent (placed : ℕ) (s : Summary) (cells : List Cell) : Type 0 where
  pub all_nodes : s.nodes ≡ placed
  pub nodes_split : s.nodes ≡ s.calibrated_nodes + s.raw_nodes
  pub raw_total : s.raw_nodes ≡ total (λ c. c.raw) cells
  pub cells_split : s.cells ≡ s.confirmed_cells + s.provisional_cells
  pub gap : s.coverage_gap ≡ ltb 0 s.provisional_cells

summary-IsConsistent :
    (placed : ℕ) (cells : List Cell)
    → All IsTallied cells
    → total (λ c. c.nodes) cells ≡ placed
    → IsConsistent placed (summary cells) cells
unfolding summary
summary-IsConsistent placed cells h e =
    let confirmed = length-keep_if-le (λ c. ltb 0 c.calibrated) cells in
    let split = totals_split cells h in
    record {
      all_nodes = e;
      nodes_split = omega arith;
      raw_total = omega arith;
      cells_split = omega arith;
      gap = ground arith;
    }

module _ (float : Float) where
  -- For any observations and placed nodes: every cell has a node, and its nodes are the calibrated
  -- and the raw ones; the summary counts every placed node once, as calibrated or as raw, and every
  -- cell as confirmed or as provisional, and reports a gap exactly if some cell is provisional.
  pub coverage_equity-IsConsistent :
      (observations : List (Observation float)) (node_cells : List Placed)
      → (let (s, cells) = coverage_equity float observations node_cells in
          All IsTallied cells
          × IsConsistent
              (length node_cells)
              s
              (tallies (has_calibrated float observations) [] node_cells))
  unfolding coverage_equity
  coverage_equity-IsConsistent observations node_cells =
      let f = has_calibrated float observations in
      let tallied = tallies-IsTallied f [] node_cells tt in
      (
        All-sort_by (by_cell_id float) IsTallied (tallies f [] node_cells) tallied,
        summary-IsConsistent (length node_cells) (tallies f [] node_cells) tallied
            (total-tallies f [] node_cells ∙ omega arith),
      )
