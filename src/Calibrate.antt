-- ===== src/Calibrate.antt =====
-- src/swelter/calibrate.py: corrections, their registry, and `apply`. `none` stands for a raise.
pub mod Families
pub mod Solve
pub mod Fit
pub mod Passes
pub mod Explained
pub mod Humidity
pub mod FirstPass
pub mod Honest
pub mod Served
mod Examples
pub use swelter.Prelude.Text.Pairs.{same_pair as same_moment}
use Prim.Native.Char.{code}
use Prim.Native.String.{String}
use swelter.Prelude.{
  ℕ, List, [], ◌∷◌, ◌++◌, Bool, true, false, not, ◌&&◌, ◌||◌, if◌then◌else◌, Option, none, some,
  str_eq, any_of, ◌==◌, map,
}
use swelter.Prelude.Int.{pos}
use swelter.Prelude.Text.{join, text_lt}
use swelter.Prelude.Sort.{sort_by}
use swelter.Prelude.Dict.{assign, value_at}
use swelter.Float.{Float}
use swelter.Float.Library.{Library}
use swelter.Models.{Observation, Verdict, raw, calibrated, is_rejected, is_none}
use swelter.Models.Heat.{heat_index_c}

-- `text.partition("@")[2]`
unfoldable pub after_at : String → String
after_at String.[] = String.[]
after_at (String.◌∷◌ c s) = if code c == 64 then s else after_at s

abbrev pub derived_heat_index_method : String
derived_heat_index_method = "derived-enclosure"

-- The key of `humidity` and of `calibrated_temp`.
abbrev pub Moment : Type 0
Moment = String × String

module _ (float : Float) (library : Library float) where
  open float use {F, of_nat, decimal, add, sub, mul, div, abs, lt, eq}
  open library use {round}

  -- `_round`, with the sum that makes 0.0 of -0.0.
  unfoldable pub round_fixed : F → F
  round_fixed value = add (round 6 value) (decimal (pos 0) 0)

  -- `max(a, b)`
  abbrev pub larger : F → F → F
  larger a b = if lt a b then b else a

  abbrev pub hi_regression_floor_c : F
  hi_regression_floor_c = decimal (pos 267) 1

  -- The difference of two temperatures that rounding makes equal is 0, by which Python does not
  -- divide: none stands for this raise.
  unfoldable pub heat_index_temp_slope : F → F → Option F
  heat_index_temp_slope temp_c humidity_pct =
      if lt temp_c hi_regression_floor_c
      then some (decimal (pos 1) 0)
      else let step = decimal (pos 5) 1 in
        let lo = larger (sub temp_c step) hi_regression_floor_c in
        let hi = add temp_c step in
        let rise =
          sub (heat_index_c float library hi humidity_pct)
            (heat_index_c float library lo humidity_pct) in
        if eq (sub hi lo) (decimal (pos 0) 0)
        then none
        else some (larger (abs (div rise (sub hi lo))) (decimal (pos 1) 0))

  pub record Correction : Type 0 where
    pub version : String
    pub node_id : String
    pub parameter : String
    pub method : String
    pub predictors : List String
    pub coefficients : List F
    pub intercept : F
    pub residual_std : F
    pub r2 : F
    pub n : ℕ
    pub reference : String
    pub window_start : String
    pub window_end : String
    pub model : String

  -- What a predictor adds to the total; a name that is neither of the two adds nothing.
  unfoldable pub add_term : String → F → F → Option F → F → F
  add_term name coef value humidity total =
      if str_eq name "raw"
      then add total (mul coef value)
      else if str_eq name "humidity"
      then add total (mul coef (elim humidity [ none ↦ decimal (pos 0) 0 | some rh ↦ rh ]))
      else total

  -- `zip(..., strict=True)` raises at lists of two lengths.
  unfoldable pub add_terms : List String → List F → F → Option F → F → Option F
  unfolding add_term
  add_terms [] [] value humidity total = some total
  add_terms [] (c ∷ cs) value humidity total = none
  add_terms (name ∷ names) [] value humidity total = none
  add_terms (name ∷ names) (c ∷ cs) value humidity total =
      add_terms names cs value humidity (add_term name c value humidity total)

  unfoldable pub predict : Correction → F → Option F → Option F
  unfolding add_terms
  predict c value humidity =
      elim (add_terms c.predictors c.coefficients value humidity c.intercept) [
        | none ↦ none
        | some total ↦ some (round 6 total)
      ]

  -- `_by_key`
  abbrev pub Registry : Type 0
  Registry = List (String × Correction)

  unfoldable pub registry_key : String → String → String
  registry_key node_id parameter = join node_id (join ":" parameter)

  unfoldable pub add_correction : Correction → Registry → Registry
  unfolding assign registry_key
  add_correction c registry = assign str_eq (registry_key c.node_id c.parameter) c registry

  unfoldable pub get_correction : String → String → Registry → Option Correction
  unfolding value_at registry_key
  get_correction node_id parameter registry =
      value_at str_eq (registry_key node_id parameter) registry

  abbrev pub by_key : String × Correction → String × Correction → Bool
  by_key a b = not (text_lt b.0 a.0)

  unfoldable pub all_corrections : Registry → List Correction
  unfolding sort_by
  all_corrections registry = map (λ item. item.1) (sort_by by_key registry)

  abbrev pub Reading : Type 0
  Reading = Observation float

  abbrev pub counts_as_humidity : Reading → Bool
  counts_as_humidity o =
      str_eq o.parameter "humidity_pct" && str_eq o.calibration raw && not (is_rejected o.qc)

  -- The loop of the comprehension, from the items made so far.
  unfoldable pub humidity_from : List Reading → List (Moment × F) → List (Moment × F)
  unfolding assign
  humidity_from [] index = index
  humidity_from (o ∷ os) index = humidity_from os (
      if counts_as_humidity o
      then assign same_moment (o.node_id, o.timestamp) o.value index
      else index)

  unfoldable pub humidity_index : List Reading → List (Moment × F)
  unfolding humidity_from
  humidity_index observations = humidity_from observations []

  -- A value of `calibrated_temp`: the corrected value, its sigma and the version.
  abbrev pub Temp : Type 0
  Temp = F × F × String

  -- What the first pass does behind a reading that it passes through.
  pub data Emission : Type 0 where
    passes fails : Emission
    emits : Reading → Temp → Emission

  unfoldable pub emission : Reading → Correction → Option F → Emission
  unfolding calibrated
  emission o c none = fails
  emission o c (some value) = elim (calibrated float o c.version value c.residual_std) [
    | none ↦ fails
    | some corrected ↦ emits corrected (value, c.residual_std, c.version)
  ]

  abbrev pub lacks_humidity : Correction → Option F → Bool
  lacks_humidity c rh = any_of (λ name. str_eq name "humidity") c.predictors && is_none float rh

  unfoldable pub correct_by : Reading → Option F → Option Correction → Emission
  unfolding emission predict
  correct_by o rh none = passes
  correct_by o rh (some c) =
      if lacks_humidity c rh then passes else emission o c (predict c o.value rh)

  module _ (humidity : List (Moment × F)) where
    unfoldable pub humidity_at : Reading → Option F
    unfolding value_at
    humidity_at o = value_at same_moment (o.node_id, o.timestamp) humidity

    -- One round of the first pass.
    unfoldable pub correct : Registry → Reading → Emission
    unfolding correct_by humidity_at get_correction
    correct registry o =
        if str_eq o.calibration raw
        then correct_by o (humidity_at o) (get_correction o.node_id o.parameter registry)
        else passes

    -- A calibrated temperature is kept for the second pass.
    unfoldable pub remember : Reading → Emission → List (Moment × Temp) → List (Moment × Temp)
    unfolding assign
    remember o (emits corrected temp) temps =
        if str_eq o.parameter "temp_c"
        then assign same_moment (o.node_id, o.timestamp) temp temps
        else temps
    remember o other temps = temps
