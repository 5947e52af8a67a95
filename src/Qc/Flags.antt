-- ===== src/Qc/Flags.antt =====
-- src/swelter/qc.py: the verdicts of one node/parameter series: range, spike and flatline.
-- The loops write the flags in place, at an index; a series is read by the values of its readings.
pub mod Refines
pub mod Spikes
pub mod Flatline
use swelter.Prelude.{
  ℕ, zero, suc, ◌+◌, ◌-◌, ◌≡◌, String, List, [], ◌∷◌, map, Bool, true, false, ◌&&◌, ◌||◌, not,
  if◌then◌else◌, ltb, leb, Option, none, some, str_eq, length, get_or, set,
}
use swelter.Prelude.Int.{pos}
use swelter.Float.{Float}
use swelter.Models.{
  Verdict, ok, range, spike, flatline, is_ok, Parameter, parameters, find_parameter, Observation,
}

abbrev pub flatline_run : ℕ
flatline_run = 6

module _ (float : Float) where
  open float use {F, decimal, add, sub, div, abs, lt, eq}

  -- `_SPIKE_THRESHOLD.get(parameter)`
  unfoldable pub spike_threshold : String → Option F
  spike_threshold p =
      if str_eq p "temp_c"
      then some (decimal (pos 8) 0)
      else if str_eq p "humidity_pct"
      then some (decimal (pos 30) 0)
      else if str_eq p "pm25_ugm3"
      then some (decimal (pos 150) 0)
      else if str_eq p "pm10_ugm3"
      then some (decimal (pos 250) 0)
      else if str_eq p "no2_ppb"
      then some (decimal (pos 200) 0)
      else if str_eq p "heat_index_c"
      then some (decimal (pos 10) 0)
      else if str_eq p "wbgt_c"
      then some (decimal (pos 10) 0)
      else if str_eq p "wind_chill_c"
      then some (decimal (pos 12) 0)
      else none

  unfoldable pub range_flag : Observation float → Verdict
  range_flag o = elim (find_parameter float o.parameter (parameters float)) [
    | none ↦ ok
    | some p ↦ if lt o.value p.valid_min || lt p.valid_max o.value then range else ok
  ]

  -- The value at an index. The loops stay below the length, so the zero is never read.
  abbrev pub at : List F → ℕ → F
  at values i = get_or values i (decimal (pos 0) 0)

  abbrev pub flag_at : List Verdict → ℕ → Verdict
  flag_at flags i = get_or flags i ok

  -- `[series[j].value for j in (i - 1, i + 1) if flags[j] == QC_OK]`
  abbrev pub neighbors : List F → ℕ → Verdict → Verdict → List F
  neighbors values i before after =
      let right = if is_ok after then at values (i + 1) ∷ [] else [] in
      if is_ok before then at values (i - 1) ∷ right else right

  -- `statistics.median` of at most two values: of two, half the sum of the smaller and the larger.
  abbrev pub median : List F → Option F
  median [] = none
  median (a ∷ []) = some a
  median (a ∷ b ∷ rest) = some (div (if lt b a then add b a else add a b) (decimal (pos 2) 0))

  -- The reading at i departs from the clean ones beside it, the flags before and after it given.
  unfoldable pub departs : F → List F → ℕ → Verdict → Verdict → Bool
  departs threshold values i before after = elim (median (neighbors values i before after)) [
    | none ↦ false
    | some local ↦ lt threshold (abs (sub (at values i) local))
  ]

  -- One round of the loop of `_flag_spikes`.
  unfoldable pub spike_round : F → List F → ℕ → List Verdict → List Verdict
  unfolding departs
  spike_round threshold values i flags =
      if is_ok (flag_at flags i)
        && departs threshold values i (flag_at flags (i - 1)) (flag_at flags (i + 1))
      then set flags i spike
      else flags

  -- `for i in range(1, n - 1)`, with the rounds that are left.
  unfoldable pub spike_rounds : F → List F → ℕ → ℕ → List Verdict → List Verdict
  unfolding spike_round
  spike_rounds threshold values zero i flags = flags
  spike_rounds threshold values (suc k) i flags =
      spike_rounds threshold values k (i + 1) (spike_round threshold values i flags)

  unfoldable pub flag_spikes : Option F → List F → List Verdict → List Verdict
  unfolding spike_rounds
  flag_spikes none values flags = flags
  flag_spikes (some threshold) values flags =
      spike_rounds threshold values (length values - 2) 1 flags

  -- `if flags[j] == QC_OK: flags[j] = QC_FLATLINE`, for `for j in range(j, j + k)`.
  unfoldable pub mark_run : ℕ → ℕ → List Verdict → List Verdict
  mark_run zero j flags = flags
  mark_run (suc k) j flags =
      mark_run k (j + 1) (if is_ok (flag_at flags j) then set flags j flatline else flags)

  -- The loop of `_flag_flatline` at i, with the rounds that are left and the start of the run.
  unfoldable pub flatline_rounds : List F → ℕ → ℕ → ℕ → List Verdict → List Verdict
  unfolding mark_run
  flatline_rounds values zero i run_start flags = flags
  flatline_rounds values (suc k) i run_start flags =
      let same = ltb i (length values) && eq (at values i) (at values run_start) in
      flatline_rounds values k (i + 1) (if same then run_start else i) (
        if same
        then flags
        else if leb flatline_run (i - run_start)
        then mark_run (i - run_start) run_start flags
        else flags)

  -- `for i in range(1, n + 1)`
  unfoldable pub flag_flatline : List F → List Verdict → List Verdict
  unfolding flatline_rounds
  flag_flatline values flags = flatline_rounds values (length values) 1 0 flags

  -- `_SPIKE_THRESHOLD.get(series[0].parameter) if series else None`
  unfoldable pub series_threshold : List (Observation float) → Option F
  unfolding spike_threshold
  series_threshold [] = none
  series_threshold (o ∷ os) = spike_threshold o.parameter

  unfoldable pub series_flags : List (Observation float) → List Verdict
  unfolding series_threshold flag_spikes flag_flatline range_flag
  series_flags series =
      let values = map (λ (o : Observation float). o.value) series in
      flag_flatline values (flag_spikes (series_threshold series) values (map range_flag series))
