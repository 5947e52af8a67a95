-- ===== src/Models/Heat.antt =====
-- src/swelter/models.py: the heat index, the shade WBGT and the wind chill, and the heat metrics
-- that are derived from a temperature and a humidity.
use swelter.Prelude.{String, List, [], ◌∷◌, ◌++◌, Bool, true, ◌&&◌, ◌||◌, if◌then◌else◌, none, some}
use swelter.Prelude.Int.{pos, negsuc}
use swelter.Float.{Float}
use swelter.Float.Library.{Library}
use swelter.Models.{parameters, find_parameter}

module _ (float : Float) (library : Library float) where
  open float use {F, of_nat, decimal, add, sub, mul, div, lt, le}
  open library use {round, is_finite, sqrt, atan, power}

  -- The regression in Fahrenheit, its terms in the order of the source.
  unfoldable pub rothfusz : F → F → F
  rothfusz t r =
      let s0 = add (decimal (negsuc 42378) 3) (mul (decimal (pos 204901523) 8) t) in
      let s1 = add s0 (mul (decimal (pos 1014333127) 8) r) in
      let s2 = sub s1 (mul (mul (decimal (pos 22475541) 8) t) r) in
      let s3 = sub s2 (mul (mul (decimal (pos 683783) 8) t) t) in
      let s4 = sub s3 (mul (mul (decimal (pos 5481717) 8) r) r) in
      let s5 = add s4 (mul (mul (mul (decimal (pos 122874) 8) t) t) r) in
      let s6 = add s5 (mul (mul (mul (decimal (pos 85282) 8) t) r) r) in
      sub s6 (mul (mul (mul (mul (decimal (pos 199) 8) t) t) r) r)

  unfoldable pub heat_index_c : F → F → F
  unfolding rothfusz
  heat_index_c temp_c humidity_pct =
      if lt temp_c (decimal (pos 267) 1)
      then round 2 temp_c
      else let t = add (div (mul temp_c (of_nat 9)) (of_nat 5)) (of_nat 32) in
        let hi = rothfusz t humidity_pct in
        round 2 (div (mul (sub hi (of_nat 32)) (of_nat 5)) (of_nat 9))

  unfoldable pub wbgt_c : F → F → F
  wbgt_c temp_c humidity_pct =
      let inner = sqrt (add humidity_pct (decimal (pos 8313659) 6)) in
      let s0 = mul temp_c (atan (mul (decimal (pos 151977) 6) inner)) in
      let s1 = add s0 (atan (add temp_c humidity_pct)) in
      let s2 = sub s1 (atan (sub humidity_pct (decimal (pos 1676331) 6))) in
      let factor = mul (decimal (pos 391838) 8) (power humidity_pct (decimal (pos 15) 1)) in
      let s3 = add s2 (mul factor (atan (mul (decimal (pos 23101) 6) humidity_pct))) in
      let tw = sub s3 (decimal (pos 4686035) 6) in
      round 2 (add (mul (decimal (pos 7) 1) tw) (mul (decimal (pos 3) 1) temp_c))

  -- An unknown parameter has no bounds to fail.
  unfoldable pub is_within_range : String → F → Bool
  unfolding parameters find_parameter
  is_within_range parameter value = elim (find_parameter float parameter (parameters float)) [
    | none ↦ true
    | some p ↦ is_finite value && le p.valid_min value && le value p.valid_max
  ]

  -- One round of the loop over the two metrics.
  unfoldable pub derived_entry : String → F → List (String × F)
  unfolding is_within_range
  derived_entry parameter value =
      if is_within_range parameter value then (parameter, value) ∷ [] else []

  unfoldable pub derive_heat_metrics : F → F → List (String × F)
  unfolding derived_entry is_within_range
  derive_heat_metrics temp_c humidity_pct =
      if is_within_range "temp_c" temp_c && is_within_range "humidity_pct" humidity_pct
      then derived_entry "heat_index_c" (heat_index_c temp_c humidity_pct)
        ++ derived_entry "wbgt_c" (wbgt_c temp_c humidity_pct)
      else []

  unfoldable pub wind_chill_c : F → F → F
  wind_chill_c temp_c wind_kph =
      if lt (of_nat 10) temp_c || le wind_kph (decimal (pos 48) 1)
      then round 2 temp_c
      else let v = power wind_kph (decimal (pos 16) 2) in
        let s0 = add (decimal (pos 1312) 2) (mul (decimal (pos 6215) 4) temp_c) in
        let s1 = sub s0 (mul (decimal (pos 1137) 2) v) in
        round 2 (add s1 (mul (mul (decimal (pos 3965) 4) temp_c) v))
