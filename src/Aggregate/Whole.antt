-- ===== src/Aggregate/Whole.antt =====
-- src/swelter/aggregate.py: `aggregate`, and what all of its cells say of their uncertainty.
use swelter.Prelude.{ℕ, ◌≡◌, ◌⊎◌, String, List, ◌++◌, All, Bool, true, Option, none, some}
use swelter.Prelude.Sort.{sort_by}
use swelter.Float.{Float}
use swelter.Float.Library.{Library}
use swelter.Models.{Observation}
use swelter.Aggregate.{Placement, CellReading, Note, Setting, bucket_observations}
use swelter.Aggregate.Cells.{build_cells, key_le}
use swelter.Aggregate.RolledUp.{AreRolledUp}
use swelter.Aggregate.Derived.{exposure_cells, nowcast_cells}
use swelter.Aggregate.Derived.Exposed.{AreExposed}
use swelter.Aggregate.Derived.Nowcast.{AreNowcast}
use swelter.Aggregate.History.{attach_history_context}

module _ (float : Float) (library : Library float) (setting : Setting float)
    (labels : List (String × String)) (instant : String → ℕ) (month : String → ℕ)
    (min_hours window_days : ℕ) where
  -- `key=lambda c: (c.cell_id, c.bucket, c.parameter)`
  abbrev by_cell : CellReading float → CellReading float → Bool
  by_cell a b = key_le (a.cell_id, a.bucket, a.parameter) (b.cell_id, b.bucket, b.parameter)

  -- `cells.extend(layer(cells))`
  unfoldable pub extend :
      (List (CellReading float) → Option (List (CellReading float)))
      → Option (List (CellReading float))
      → Option (List (CellReading float))
  extend layer none = none
  extend layer (some cells) = elim (layer cells) [ none ↦ none | some more ↦ some (cells ++ more) ]

  unfoldable pub place_and_sort :
      Option (List (CellReading float)) → Option (List (CellReading float))
  unfolding attach_history_context sort_by
  place_and_sort none = none
  place_and_sort (some cells) =
      elim (attach_history_context float instant month min_hours window_days cells) [
        | none ↦ none
        | some placed ↦ some (sort_by by_cell placed)
      ]

  unfoldable pub aggregate : List (Observation float) → Option (List (CellReading float))
  unfolding extend place_and_sort bucket_observations build_cells exposure_cells nowcast_cells
  aggregate observations =
      let built =
        build_cells float library (bucket_observations float setting observations) labels in
      place_and_sort
        (extend (nowcast_cells float library) (extend (exposure_cells float library) built))

  -- A cell that is published as a fact has a sigma, or says why it has none.
  abbrev pub SaysWhy : CellReading float → Type 0
  SaysWhy c =
      (c.provisional ≡ true)
      ⊎ ((sigma : float.F) × (c.uncertainty ≡ some sigma))
      ⊎ ((note : Note float) × (c.uncertainty_note ≡ some note))

  module _ (observations : List (Observation float)) where
    -- What the roll-up builds, and that with the layer of the exposure.
    abbrev pub rolled_up : Option (List (CellReading float))
    rolled_up = build_cells float library (bucket_observations float setting observations) labels

    abbrev pub exposed : Option (List (CellReading float))
    exposed = extend (exposure_cells float library) rolled_up

    -- A layer raises: at a mean of PM2.5 without an index, at a mean of a heat index that is not a
    -- number, or at a NowCast without an index, of the cells that this layer is made from.
    unfoldable pub Fails : Type 0
    Fails =
        AreRolledUp float library setting observations none
        ⊎ (((cells : List (CellReading float)) × (rolled_up ≡ some cells)
              × AreExposed float library cells none)
            ⊎ ((cells : List (CellReading float)) × (exposed ≡ some cells)
                × AreNowcast float library cells none))

    SayWhyCells : Option (List (CellReading float)) → Type 0
    SayWhyCells none = Fails
    SayWhyCells (some cells) = All SaysWhy cells

    -- The cell says why, and has a placement in its history.
    abbrev pub IsAnswered : CellReading float → Type 0
    IsAnswered c = SaysWhy c × ((p : Placement float) × (c.history ≡ some p))

    unfoldable pub SayWhy : Option (List (CellReading float)) → Type 0
    SayWhy none = Fails
    SayWhy (some placed) = All IsAnswered placed
