-- ===== src/Calibrate/Passes.antt =====
-- src/swelter/calibrate.py: the two passes of `apply`.
use swelter.Prelude.{String, List, [], ◌∷◌, ◌++◌, ◌&&◌, if◌then◌else◌, Option, none, some, str_eq}
use swelter.Prelude.Text.{join}
use swelter.Prelude.Dict.{value_at}
use swelter.Float.{Float}
use swelter.Float.Library.{Library}
use swelter.Models.{raw, calibrated}
use swelter.Models.Heat.{heat_index_c}
use swelter.Calibrate.{
  Moment, same_moment, Registry, Reading, Temp, Emission, passes, fails, emits, correct, remember,
  humidity_at, humidity_index, heat_index_temp_slope, round_fixed, after_at,
  derived_heat_index_method,
}

module _ (float : Float) (library : Library float) where
  open float use {F, mul}

  -- A round's output, in front of that of the later rounds.
  unfoldable pub pass_on :
      Reading float library
      → Emission float library
      → Option (List (Reading float library) × List (Moment × Temp float library))
      → Option (List (Reading float library) × List (Moment × Temp float library))
  pass_on o fails rest = none
  pass_on o passes none = none
  pass_on o passes (some (out, temps)) = some (o ∷ out, temps)
  pass_on o (emits corrected temp) none = none
  pass_on o (emits corrected temp) (some (out, temps)) = some (o ∷ corrected ∷ out, temps)

  unfoldable pub first_pass :
      List (Moment × F)
      → Registry float library
      → List (Reading float library)
      → List (Moment × Temp float library)
      → Option (List (Reading float library) × List (Moment × Temp float library))
  unfolding pass_on correct remember
  first_pass humidity registry [] temps = some ([], temps)
  first_pass humidity registry (o ∷ os) temps =
      let emission = correct float library humidity registry o in
      pass_on o emission
        (first_pass humidity registry os (remember float library humidity o emission temps))

  unfoldable pub derived_version : String → String → String
  unfolding join after_at
  derived_version node_id temp_version =
      join "heat_index_c." (
        join derived_heat_index_method (join "." (join node_id (join "@" (after_at temp_version)))))

  unfoldable pub derive_from :
      Reading float library
      → Option (Temp float library)
      → Option F
      → Option (List (Reading float library))
  unfolding calibrated derived_version heat_index_c heat_index_temp_slope round_fixed
  derive_from o none rh = some []
  derive_from o (some temp) none = some []
  derive_from o (some (value, sigma, version)) (some rh) =
      elim (heat_index_temp_slope float library value rh) [
        | none ↦ none
        | some slope ↦
            elim (calibrated float o (derived_version o.node_id version)
              (heat_index_c float library value rh) (round_fixed float library (mul slope sigma))) [
                | none ↦ none
                | some derived ↦ some (derived ∷ [])
              ]
      ]

  -- One round of the second pass.
  unfoldable pub derive :
      List (Moment × F)
      → List (Moment × Temp float library)
      → Reading float library
      → Option (List (Reading float library))
  unfolding derive_from humidity_at value_at
  derive humidity temps o =
      if str_eq o.parameter "heat_index_c" && str_eq o.calibration raw
      then derive_from o (value_at same_moment (o.node_id, o.timestamp) temps)
          (humidity_at float library humidity o)
      else some []

  unfoldable pub both_outputs :
      Option (List (Reading float library))
      → Option (List (Reading float library))
      → Option (List (Reading float library))
  both_outputs none rest = none
  both_outputs (some out) none = none
  both_outputs (some out) (some rest) = some (out ++ rest)

  unfoldable pub second_pass :
      List (Moment × F)
      → List (Moment × Temp float library)
      → List (Reading float library)
      → Option (List (Reading float library))
  unfolding both_outputs derive
  second_pass humidity temps [] = some []
  second_pass humidity temps (o ∷ os) =
      both_outputs (derive humidity temps o) (second_pass humidity temps os)

  unfoldable pub apply :
      List (Reading float library) → Registry float library → Option (List (Reading float library))
  unfolding both_outputs first_pass second_pass humidity_index
  apply observations registry =
      let humidity = humidity_index float library observations in
      elim (first_pass humidity registry observations []) [
        | none ↦ none
        | some (out, temps) ↦ both_outputs (some out) (second_pass humidity temps observations)
      ]
