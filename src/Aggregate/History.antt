-- ===== src/Aggregate/History.antt =====
-- src/swelter/aggregate.py: where an hour stands among the earlier hours of its cell.

pub mod Final
pub mod Answered
pub mod Sliding
use swelter.Prelude.{
  ℕ, zero, suc, ◌-◌, ◌*◌, String, List, [], ◌∷◌, ◌++◌, length, max, leb, ltb, ◌==◌, Bool, true,
  false, not, ◌&&◌, if◌then◌else◌, Option, none, some, str_eq, keep_if,
}
use swelter.Prelude.Text.{text_lt}
use swelter.Prelude.Sort.{sort_by}
use swelter.Prelude.Group.{group}
use swelter.Prelude.Dict.{assign, value_at}
use swelter.Float.{Float}
use swelter.Aggregate.{
  CellReading, exposure_parameter, aqi_window_nowcast, Basis, calibrated, raw, HistoryContext,
  Placement, in_context, thin, ordinal_layer, single_window_reading,
}

-- `bisect_left`: the number of the values at the front that are below.
module _ (float : Float) where
  open float use {F, of_nat, mul, div, lt}

  unfoldable pub bisect_left : List F → F → ℕ
  bisect_left [] v = 0
  bisect_left (x ∷ xs) v = let rest = bisect_left xs v in if lt x v then suc rest else 0

  -- `insort`: behind the values that are not above.
  unfoldable pub insort : List F → F → List F
  insort [] v = v ∷ []
  insort (x ∷ xs) v = let rest = insort xs v in if lt v x then v ∷ x ∷ xs else x ∷ rest

  -- `values.pop(i)`
  unfoldable pub pop_at : List F → ℕ → List F
  pop_at [] i = []
  pop_at (x ∷ xs) zero = xs
  pop_at (x ∷ xs) (suc i) = x ∷ pop_at xs i

  pub record WindowEntry : Type 0 where
    pub moment : ℕ
    pub bucket : String
    pub mean : F

  -- A chronological window and the sorted values in it.
  pub record Window : Type 0 where
    pub values : List F
    pub entries : List WindowEntry

  abbrev pub empty_window : Window
  empty_window = record { values = []; entries = [] }

  -- The loop that drops what is behind the horizon.
  unfoldable pub expire : ℕ → ℕ → List WindowEntry → List F → Window
  unfolding bisect_left pop_at
  expire horizon moment [] values = record { values = values; entries = [] }
  expire horizon moment (e ∷ entries) values =
      let rest = expire horizon moment entries (pop_at values (bisect_left values e.mean)) in
      if ltb horizon (moment - e.moment)
      then rest
      else record { values = values; entries = e ∷ entries }

  unfoldable pub push : Window → WindowEntry → Window
  unfolding insort
  push w e = record { values = insort w.values e.mean; entries = w.entries ++ e ∷ [] }

  unfoldable pub percentile_of : List F → F → F
  unfolding bisect_left
  percentile_of values v =
      div (mul (of_nat 100) (of_nat (bisect_left values v))) (of_nat (length values))

  -- `window[0].bucket`
  abbrev pub first_bucket : List WindowEntry → Option String
  first_bucket [] = none
  first_bucket (e ∷ entries) = some e.bucket

  abbrev pub context : Window → F → Basis float → Placement float
  context w v basis = in_context (record {
    percentile = percentile_of w.values v;
    n_hours = length w.values;
    window_start = first_bucket w.entries;
    basis = basis;
  })

  unfoldable pub history_from_window : CellReading float → Window → Window → ℕ → ℕ → Placement float
  unfolding percentile_of
  history_from_window cell known every min_hours window_days =
      let floor = max min_hours 1 in
      if not cell.provisional && leb floor (length known.values)
      then context known cell.mean calibrated
      else if leb floor (length every.values)
      then context every cell.mean raw
      else thin (length every.values) cell.parameter window_days floor

  -- The moment of a bucket and its month are parameters, as they are those of `parse_timestamp`.
  module _ (instant : String → ℕ) (month : String → ℕ) (min_hours window_days : ℕ) where
    pub record Windows : Type 0 where
      pub known : Window
      pub every : Window

    abbrev pub no_windows : Windows
    no_windows = record { known = empty_window; every = empty_window }

    -- `timedelta(days=window_days)`, in seconds
    abbrev pub horizon : ℕ
    horizon = window_days * 86400

    abbrev expired : ℕ → Window → Window
    expired moment w = expire horizon moment w.entries w.values

    abbrev entry_of : CellReading float → WindowEntry
    entry_of c = record { moment = instant c.bucket; bucket = c.bucket; mean = c.mean }

    -- The windows in which an hour is placed.
    unfoldable pub before : Windows → CellReading float → Windows
    unfolding expire
    before ws c = record {
      known = expired (instant c.bucket) ws.known;
      every = expired (instant c.bucket) ws.every;
    }

    -- The windows behind it.
    unfoldable pub after : Windows → CellReading float → Windows
    unfolding before push
    after ws c =
        let aged = before ws c in
        record {
          known = if not c.provisional then push aged.known (entry_of c) else aged.known;
          every = push aged.every (entry_of c);
        }

    unfoldable pub series_from : Windows → List (CellReading float) → List (Placement float)
    unfolding before after history_from_window
    series_from ws [] = []
    series_from ws (c ∷ cs) =
        let aged = before ws c in
        history_from_window c aged.known aged.every min_hours window_days
        ∷ series_from (after ws c) cs

    unfoldable pub history_for_month_series : List (CellReading float) → List (Placement float)
    unfolding series_from
    history_for_month_series series = series_from no_windows series

    -- `cell.aqi_window or ""`
    abbrev window_text : CellReading float → String
    window_text c = elim c.aqi_window [ none ↦ "" | some w ↦ w ]

    abbrev pub SeriesKey : Type 0
    SeriesKey = String × String × String × ℕ

    abbrev same_series : SeriesKey → SeriesKey → Bool
    same_series a b = str_eq a.0 b.0 && str_eq a.1 b.1 && str_eq a.2 b.2 && (a.3 == b.3)

    abbrev series_key : CellReading float → SeriesKey
    series_key c = (c.cell_id, c.parameter, window_text c, month c.bucket)

    abbrev pub VerdictKey : Type 0
    VerdictKey = String × String × String × String

    abbrev same_verdict_key : VerdictKey → VerdictKey → Bool
    same_verdict_key a b = str_eq a.0 b.0 && str_eq a.1 b.1 && str_eq a.2 b.2 && str_eq a.3 b.3

    abbrev verdict_key : CellReading float → VerdictKey
    verdict_key c = (c.cell_id, c.parameter, window_text c, c.bucket)

    abbrev is_nowcast : CellReading float → Bool
    is_nowcast c = elim c.aqi_window [ none ↦ false | some w ↦ str_eq w aqi_window_nowcast ]

    -- The cells of which a history is kept.
    abbrev has_history : CellReading float → Bool
    has_history c = not (str_eq c.parameter exposure_parameter) && not (is_nowcast c)

    abbrev pub Verdicts : Type 0
    Verdicts = List (VerdictKey × Placement float)

    -- `zip(series, placed, strict=True)`, of two lists of one length
    unfoldable pub record_placements :
        List (CellReading float) → List (Placement float) → Verdicts → Verdicts
    unfolding assign
    record_placements [] placed verdicts = verdicts
    record_placements (c ∷ cs) [] verdicts = verdicts
    record_placements (c ∷ cs) (p ∷ ps) verdicts =
        record_placements cs ps (assign same_verdict_key (verdict_key c) p verdicts)

    unfoldable pub verdicts_from : List (SeriesKey × List (CellReading float)) → Verdicts → Verdicts
    unfolding record_placements history_for_month_series sort_by
    verdicts_from [] verdicts = verdicts
    verdicts_from ((k, series) ∷ groups) verdicts =
        let sorted = sort_by (λ a b. not (text_lt b.bucket a.bucket)) series in
        verdicts_from groups (record_placements sorted (history_for_month_series sorted) verdicts)

    -- The placement of a cell; a key that is missing raises.
    unfoldable pub placement_of : Verdicts → CellReading float → Option (Placement float)
    unfolding value_at
    placement_of verdicts c =
        if str_eq c.parameter exposure_parameter
        then some ordinal_layer
        else if is_nowcast c
        then some single_window_reading
        else value_at same_verdict_key (verdict_key c) verdicts

    unfoldable pub collect_placed :
        CellReading float
        → Option (Placement float)
        → Option (List (CellReading float))
        → Option (List (CellReading float))
    collect_placed c none rest = none
    collect_placed c (some p) none = none
    collect_placed c (some p) (some out) = some (record c { history = some p } ∷ out)

    unfoldable pub attach_from :
        Verdicts → List (CellReading float) → Option (List (CellReading float))
    unfolding placement_of collect_placed
    attach_from verdicts [] = some []
    attach_from verdicts (c ∷ cs) =
        collect_placed c (placement_of verdicts c) (attach_from verdicts cs)

    unfoldable pub attach_history_context :
        List (CellReading float) → Option (List (CellReading float))
    unfolding attach_from verdicts_from group
    attach_history_context cells =
        attach_from (verdicts_from (group same_series series_key (keep_if has_history cells)) [])
          cells
