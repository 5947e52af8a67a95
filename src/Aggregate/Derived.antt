-- ===== src/Aggregate/Derived.antt =====
-- src/swelter/aggregate.py: `_exposure_cells` and `_nowcast_cells`. `none` stands for a raise, at a
-- mean that is not a number.
pub mod Exposed
pub mod Nowcast
use swelter.Prelude.{
  ℕ, String, List, [], ◌∷◌, ◌++◌, map, length, take, any_of, keep_if, min, Bool, false, not, ◌&&◌,
  ◌||◌, if◌then◌else◌, Option, none, some, str_eq,
}
use swelter.Prelude.Int.{ℤ}
use swelter.Prelude.Text.{text_lt}
use swelter.Prelude.Text.Pairs.{same_pair}
use swelter.Prelude.Sort.{sort_by}
use swelter.Prelude.Group.{group}
use swelter.Prelude.Dict.{assign, value_at}
use swelter.Float.{Float}
use swelter.Float.Library.{Library}
use swelter.Models.{Verdict}
use swelter.Models.Exposure.{
  Component, both, heat, air, heat_index_category, exposure_level, exposure_bounding_component,
}
use swelter.Models.Air.{pm25_aqi, nowcast_concentration}
use swelter.Aggregate.{
  CellReading, Note, nowcast_blend, both_bound, bounded_by, standard_error, provisional_bare, bare,
  sorted_flags, exposure_parameter, aqi_window_nowcast,
}

module _ (float : Float) (library : Library float) where
  open float use {F, of_nat}

  -- `detail`, for the component that bounds the level
  unfoldable pub detail_of : CellReading float → Note float
  detail_of bound = elim bound.uncertainty [
    | some sigma ↦ standard_error sigma
    | none ↦ elim bound.uncertainty_note [
      | some note ↦ note
      | none ↦ if bound.provisional then provisional_bare else bare
    ]
  ]

  unfoldable pub note_for :
      CellReading float → CellReading float → String → String → Component → Note float
  unfolding detail_of
  note_for h a heat_name air_name both = both_bound heat_name air_name
  note_for h a heat_name air_name heat = bounded_by heat heat_name (detail_of h)
  note_for h a heat_name air_name air = bounded_by air air_name (detail_of a)

  unfoldable pub exposure_uncertainty_note :
      CellReading float → CellReading float → String → Option (Note float)
  unfolding note_for exposure_bounding_component heat_index_category
  exposure_uncertainty_note h a air_name =
      elim (exposure_bounding_component float h.mean air_name) [
        | none ↦ none
        | some component ↦ elim (heat_index_category float h.mean) [
          | none ↦ none
          | some category ↦ some (note_for h a category.1 air_name component)
        ]
      ]

  -- The exposure cell of a heat cell and an air cell, from what was computed of them.
  unfoldable pub exposure_cell :
      CellReading float
      → CellReading float
      → String
      → ℕ × String × Bool
      → String
      → Note float
      → CellReading float
  unfolding sorted_flags
  exposure_cell h a air_name level heat_name note = record {
    cell_id = h.cell_id;
    label = h.label;
    lat = h.lat;
    lon = h.lon;
    parameter = exposure_parameter;
    bucket = h.bucket;
    mean = of_nat level.0;
    n = min h.n a.n;
    provisional = h.provisional || a.provisional;
    uncertainty = none;
    mean_member_sigma = none;
    aqi = none;
    category = some level.1;
    aqi_window = none;
    heat_category = some heat_name;
    air_category = some air_name;
    compound = level.2;
    uncertainty_note = some note;
    method = none;
    reference = none;
    qc_flags = sorted_flags (h.qc_flags ++ a.qc_flags);
    nodes = h.nodes;
    history = none;
  }

  unfoldable pub expose :
      CellReading float → CellReading float → String → Option (CellReading float)
  unfolding exposure_cell exposure_level heat_index_category exposure_uncertainty_note
  expose h a air_name = elim (exposure_level float h.mean air_name) [
    | none ↦ none
    | some level ↦ elim (heat_index_category float h.mean) [
      | none ↦ none
      | some category ↦ elim (exposure_uncertainty_note h a air_name) [
        | none ↦ none
        | some note ↦ some (exposure_cell h a air_name level category.1 note)
      ]
    ]
  ]

  -- `by_cell_bucket`
  abbrev pub Places : Type 0
  Places = List ((String × String) × List (String × CellReading float))

  abbrev pub readings_of :
      Option (List (String × CellReading float)) → List (String × CellReading float)
  readings_of none = []
  readings_of (some readings) = readings

  unfoldable pub by_place_from : List (CellReading float) → Places → Places
  unfolding assign value_at
  by_place_from [] places = places
  by_place_from (c ∷ cs) places =
      let place : String × String = (c.cell_id, c.bucket) in
      by_place_from cs (
        assign same_pair place
          (assign str_eq c.parameter c (readings_of (value_at same_pair place places))) places)

  -- A raise ends the loop; a place without both halves has no exposure.
  unfoldable pub and_then :
      Option (List (CellReading float))
      → Option (List (CellReading float))
      → Option (List (CellReading float))
  and_then none rest = none
  and_then (some cells) none = none
  and_then (some cells) (some rest) = some (cells ++ rest)

  abbrev pub one_cell : Option (CellReading float) → Option (List (CellReading float))
  one_cell none = none
  one_cell (some c) = some (c ∷ [])

  unfoldable pub expose_pair :
      Option (CellReading float) → Option (CellReading float) → Option (List (CellReading float))
  unfolding expose
  expose_pair none a = some []
  expose_pair (some h) none = some []
  expose_pair (some h) (some a) = elim a.category [
    | none ↦ some []
    | some air_name ↦ one_cell (expose h a air_name)
  ]

  unfoldable pub expose_places : Places → Option (List (CellReading float))
  unfolding expose_pair and_then value_at
  expose_places [] = some []
  expose_places ((place, readings) ∷ places) =
      and_then
        (expose_pair (value_at str_eq "heat_index_c" readings)
          (value_at str_eq "pm25_ugm3" readings))
        (expose_places places)

  unfoldable pub exposure_cells : List (CellReading float) → Option (List (CellReading float))
  unfolding by_place_from expose_places
  exposure_cells cells = expose_places (by_place_from cells [])

  -- The rows that a NowCast is made of.
  abbrev pub is_hourly_air : CellReading float → Bool
  is_hourly_air c =
      str_eq c.parameter "pm25_ugm3"
      && not (elim c.aqi_window [ none ↦ false | some w ↦ str_eq w aqi_window_nowcast ])

  -- `key=lambda c: c.bucket, reverse=True`
  abbrev pub by_bucket_down : CellReading float → CellReading float → Bool
  by_bucket_down a b = not (text_lt a.bucket b.bucket)

  abbrev pub flags_of : List (CellReading float) → List Verdict
  flags_of [] = []
  flags_of (c ∷ cs) = c.qc_flags ++ flags_of cs

  unfoldable pub nowcast_cell :
      CellReading float → List (CellReading float) → F → ℤ × String → CellReading float
  unfolding sorted_flags
  nowcast_cell latest window nowcast index = record {
    cell_id = latest.cell_id;
    label = latest.label;
    lat = latest.lat;
    lon = latest.lon;
    parameter = "pm25_ugm3";
    bucket = latest.bucket;
    mean = nowcast;
    n = length window;
    provisional = any_of (λ c. c.provisional) window;
    uncertainty = none;
    mean_member_sigma = none;
    aqi = some index.0;
    category = some index.1;
    aqi_window = some aqi_window_nowcast;
    heat_category = none;
    air_category = none;
    compound = false;
    uncertainty_note = some nowcast_blend;
    method = none;
    reference = none;
    qc_flags = sorted_flags (flags_of window);
    nodes = latest.nodes;
    history = none;
  }

  -- One cell's rows, the most recent first.
  unfoldable pub nowcast_window : List (CellReading float) → Option (List (CellReading float))
  unfolding nowcast_cell nowcast_concentration pm25_aqi
  nowcast_window [] = some []
  nowcast_window (latest ∷ earlier) =
      elim (nowcast_concentration float library (map (λ c. c.mean) (latest ∷ earlier))) [
        | none ↦ some []
        | some nowcast ↦ elim (pm25_aqi float library nowcast) [
          | none ↦ none
          | some index ↦ some (nowcast_cell latest (latest ∷ earlier) nowcast index ∷ [])
        ]
      ]

  unfoldable pub nowcast_groups :
      List (String × List (CellReading float)) → Option (List (CellReading float))
  unfolding nowcast_window and_then sort_by
  nowcast_groups [] = some []
  nowcast_groups ((cell_id, readings) ∷ groups) =
      and_then (nowcast_window (take 12 (sort_by by_bucket_down readings))) (nowcast_groups groups)

  unfoldable pub nowcast_cells : List (CellReading float) → Option (List (CellReading float))
  unfolding nowcast_groups group
  nowcast_cells cells = nowcast_groups (group str_eq (λ c. c.cell_id) (keep_if is_hourly_air cells))
