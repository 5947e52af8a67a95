-- ===== src/Alerts.antt =====
-- src/swelter/alerts.py: the test of a threshold, the floors, and the choice of a pack. `none`
-- stands for a raise: a missing floor, or a mean that is not a number.
pub mod Event
pub mod Feed
pub mod Current
pub mod Widespread
pub mod Built
mod Examples
use swelter.Prelude.{
  ℕ, ◌-◌, ◌/◌, String, List, [], ◌∷◌, ◌++◌, map, keep_if, length, min, Bool, true, false, not, ◌||◌,
  if◌then◌else◌, Option, none, some, str_eq, ltb, get_elem?,
}
use swelter.Prelude.Int.{ℤ, pos, negsuc, ◌-ℤ◌}
use swelter.Prelude.Text.{join, text_lt}
use swelter.Prelude.Sort.{sort_by}
use swelter.Prelude.Dict.{assign, value_at}
use swelter.Float.{Float}
use swelter.Float.Library.{Library}
use swelter.Models.Exposure.{exposure_levels, heat_index_category, wind_chill_category}
use swelter.Aggregate.{CellReading, exposure_parameter}
use swelter.Aggregate.Surface.{inner_at, Nested, latest_by_cell, newest_bucket}
use swelter.HazardPacks.{HazardPack, default_floors, alerting_parameters}
use swelter.HazardPacks.Shipped.{heat_pack, auto_season_pack_id}
use swelter.HazardPacks.Seasons.{month_of, SeasonWindow, resolve_pack}

-- `text or default`
abbrev pub text_or : Option String → String → String
text_or none default = default
text_or (some s) default = if str_eq s "" then default else s

-- `EXPOSURE_LEVELS[min(level, len(EXPOSURE_LEVELS) - 1)]`; a negative index is from the end.
unfoldable pub level_name : ℤ → Option String
unfolding exposure_levels
level_name (pos n) = get_elem? exposure_levels (min n 4)
level_name (negsuc n) = if ltb n 5 then get_elem? exposure_levels (4 - n) else none

pub record PackSelection : Type 0 where
  pub pack_id : String
  pub selected_by : String
  pub month : ℤ

module _ (float : Float) (library : Library float) where
  open float use {F, decimal, le}
  open library use {round, nearest, is_finite}

  abbrev pub Floors : Type 0
  Floors = List (String × F)

  -- A severity and a floor, or no crossing.
  abbrev pub Crossing : Type 0
  Crossing = Option (String × F)

  abbrev pub named : Option (ℕ × String) → F → Option Crossing
  named none floor = none
  named (some category) floor = some (some (category.1, floor))

  unfoldable pub cross_air : CellReading float → Option F → Option Crossing
  cross_air reading none = none
  cross_air reading (some floor) = elim reading.aqi [
    | none ↦ some none
    | some aqi ↦
        if le floor (decimal aqi 0)
        then some (some (text_or reading.category "Unhealthy for Sensitive Groups", floor))
        else some none
  ]

  unfoldable pub cross_heat : CellReading float → Option F → Option Crossing
  unfolding heat_index_category
  cross_heat reading none = none
  cross_heat reading (some floor) =
      if le floor reading.mean
      then named (heat_index_category float reading.mean) floor
      else some none

  -- `category or EXPOSURE_LEVELS[...]`
  abbrev pub named_level : Option String → F → Option Crossing
  named_level none floor = none
  named_level (some name) floor = some (some (name, floor))

  abbrev pub category_or_level : Option String → ℤ → Option String
  category_or_level none level = level_name level
  category_or_level (some s) level = if str_eq s "" then level_name level else some s

  abbrev pub cross_level : Option String → ℤ → F → Option Crossing
  cross_level category level floor =
      if le floor (decimal level 0)
      then named_level (category_or_level category level) floor
      else some none

  -- A mean that is infinite or not a number does not round.
  unfoldable pub cross_exposure : CellReading float → Option F → Option Crossing
  unfolding level_name
  cross_exposure reading none = none
  cross_exposure reading (some floor) =
      if is_finite reading.mean
      then cross_level reading.category (nearest reading.mean) floor
      else none

  -- Colder is worse, and a table without the floor has no crossing.
  unfoldable pub cross_cold : CellReading float → Option F → Option Crossing
  unfolding wind_chill_category
  cross_cold reading none = some none
  cross_cold reading (some floor) =
      if le reading.mean floor
      then named (wind_chill_category float reading.mean) floor
      else some none

  unfoldable pub crossing : String → CellReading float → Floors → Option Crossing
  unfolding cross_air cross_heat cross_exposure cross_cold value_at
  crossing parameter reading floors =
      if str_eq parameter "pm25_ugm3"
      then cross_air reading (value_at str_eq "pm25_aqi" floors)
      else if str_eq parameter "heat_index_c"
      then cross_heat reading (value_at str_eq "heat_index_c" floors)
      else if str_eq parameter exposure_parameter
      then cross_exposure reading (value_at str_eq "exposure" floors)
      else if str_eq parameter "wind_chill_c"
      then cross_cold reading (value_at str_eq "wind_chill_c" floors)
      else some none

  -- `if key in merged: merged[key] = float(value)`
  abbrev pub override_when : Option F → String → F → Floors → Floors
  override_when none key value merged = merged
  override_when (some old) key value merged = assign str_eq key value merged

  unfoldable pub merge_floors : List (String × F) → Floors → Floors
  unfolding assign value_at
  merge_floors [] merged = merged
  merge_floors ((key, value) ∷ overrides) merged =
      merge_floors overrides (override_when (value_at str_eq key merged) key value merged)

  unfoldable pub resolve_thresholds : List (String × F) → HazardPack float → Floors
  unfolding merge_floors default_floors
  resolve_thresholds overrides pack = merge_floors overrides (default_floors float pack)

  abbrev pub selected :
      Option (HazardPack float) → ℤ → Option (HazardPack float × Option PackSelection)
  selected none month = none
  selected (some pack) month = some (
    pack,
    some (record { pack_id = pack.pack_id; selected_by = "season-calendar"; month = month }),
  )

  -- The season's pack by the month of the newest bucket.
  unfoldable pub select_season :
      (String → Option ℤ)
      → List SeasonWindow
      → Option String
      → Option (HazardPack float × Option PackSelection)
  unfolding resolve_pack month_of
  select_season int_of calendar none = some (heat_pack float, none)
  select_season int_of calendar (some newest) = elim (month_of int_of newest) [
    | none ↦ none
    | some month ↦
        selected (resolve_pack float (some auto_season_pack_id) calendar (some month)) month
  ]

  abbrev pub without_record :
      Option (HazardPack float) → Option (HazardPack float × Option PackSelection)
  without_record none = none
  without_record (some pack) = some (pack, none)

  unfoldable pub pack_for_surface :
      (String → Option ℤ)
      → String
      → List SeasonWindow
      → List (CellReading float)
      → Option (HazardPack float × Option PackSelection)
  unfolding select_season resolve_pack newest_bucket
  pack_for_surface int_of hazard_pack calendar cells =
      if str_eq hazard_pack auto_season_pack_id
      then select_season int_of calendar (newest_bucket float cells)
      else without_record (resolve_pack float (some hazard_pack) [] none)
