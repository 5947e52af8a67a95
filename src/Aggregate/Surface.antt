-- ===== src/Aggregate/Surface.antt =====
-- src/swelter/aggregate.py: `Surface.newest_bucket`, `latest_by_cell` and `readings_for`.
use swelter.Prelude.{
  String, List, [], ◌∷◌, Bool, true, false, not, ◌&&◌, if◌then◌else◌, Option, none, some, str_eq,
}
use swelter.Prelude.Text.{text_lt}
use swelter.Prelude.Dict.{assign, value_at}
use swelter.Float.{Float}
use swelter.Aggregate.{CellReading}

module _ (float : Float) where
  -- A dictionary of dictionaries.
  abbrev pub Nested : Type 0
  Nested = List (String × List (String × CellReading float))

  -- `max(buckets)`, from the best so far.
  unfoldable pub newest_from : String → List (CellReading float) → String
  newest_from best [] = best
  newest_from best (c ∷ cs) = newest_from (if text_lt best c.bucket then c.bucket else best) cs

  unfoldable pub newest_bucket : List (CellReading float) → Option String
  unfolding newest_from
  newest_bucket [] = none
  newest_bucket (c ∷ cs) = some (newest_from c.bucket cs)

  -- `cell.aqi_window is not None and cell.aqi_window != aqi_window`, which is skipped
  abbrev pub is_other_window : String → CellReading float → Bool
  is_other_window window c = elim c.aqi_window [ none ↦ false | some w ↦ not (str_eq w window) ]

  -- `out[cell_id]` of a defaultdict
  abbrev pub inner_of :
      Option (List (String × CellReading float)) → List (String × CellReading float)
  inner_of none = []
  inner_of (some inner) = inner

  abbrev pub inner_at : String → Nested → List (String × CellReading float)
  inner_at cell_id out = inner_of (value_at str_eq cell_id out)

  -- `out.get(cell_id, {}).get(key)`
  unfoldable pub reading_at : String → String → Nested → Option (CellReading float)
  unfolding value_at
  reading_at cell_id key out = value_at str_eq key (inner_at cell_id out)

  unfoldable pub store_reading : String → CellReading float → Nested → Nested
  unfolding assign value_at
  store_reading key c out =
      assign str_eq c.cell_id (assign str_eq key c (inner_at c.cell_id out)) out

  -- `current is None or cell.bucket > current.bucket`
  abbrev pub is_newer : CellReading float → Option (CellReading float) → Bool
  is_newer c none = true
  is_newer c (some current) = text_lt current.bucket c.bucket

  unfoldable pub latest_round : String → Nested → CellReading float → Nested
  unfolding store_reading reading_at
  latest_round window out c =
      if not (is_other_window window c) && is_newer c (reading_at c.cell_id c.parameter out)
      then store_reading c.parameter c out
      else out

  unfoldable pub latest_from : String → List (CellReading float) → Nested → Nested
  unfolding latest_round
  latest_from window [] out = out
  latest_from window (c ∷ cs) out = latest_from window cs (latest_round window out c)

  unfoldable pub latest_by_cell : String → List (CellReading float) → Nested
  unfolding latest_from
  latest_by_cell window cells = latest_from window cells []

  unfoldable pub readings_from : String → String → List (CellReading float) → Nested → Nested
  unfolding store_reading
  readings_from parameter window [] out = out
  readings_from parameter window (c ∷ cs) out = readings_from parameter window cs (
      if str_eq c.parameter parameter && not (is_other_window window c)
      then store_reading c.bucket c out
      else out)

  unfoldable pub readings_for : String → String → List (CellReading float) → Nested
  unfolding readings_from
  readings_for parameter window cells = readings_from parameter window cells []
