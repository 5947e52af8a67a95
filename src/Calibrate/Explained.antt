-- ===== src/Calibrate/Explained.antt =====
-- What an observation that `apply` returns may be: the abstract view of the two passes.
use swelter.Prelude.{
  ◌≡◌, ◌⊎◌, List, Among, All, length, Bool, true, false, Option, none, some, str_eq, keep_if,
}
use swelter.Float.{Float}
use swelter.Float.Library.{Library}
use swelter.Models.{raw}
use swelter.Models.Heat.{heat_index_c}
use swelter.Calibrate.{
  Registry, Correction, Reading, Temp, humidity_at, humidity_index, counts_as_humidity,
  lacks_humidity, predict, get_correction, heat_index_temp_slope, round_fixed,
}
use swelter.Calibrate.Passes.{derived_version}

module _ (float : Float) (library : Library float) where
  open float use {F, mul}

  abbrev pub is_raw : Reading float library → Bool
  is_raw o = str_eq o.calibration raw

  -- A correction that can be applied: a coefficient for each predictor, and a version that is not
  -- the label of a raw reading.
  abbrev pub IsUsable : Correction float library → Type 0
  IsUsable c = (length c.predictors ≡ length c.coefficients) × (str_eq c.version raw ≡ false)

  abbrev pub AreUsable : Registry float library → Type 0
  AreUsable registry = All (λ item. IsUsable item.1) registry

  -- The observation that a correction makes of a reading.
  abbrev pub made : Reading float library → Correction float library → F → Reading float library
  made o c value = record o {
    value = value;
    calibration = c.version;
    uncertainty = some c.residual_std;
  }

  -- The heat index of a corrected temperature, with its sigma from that of the temperature.
  abbrev pub made_heat : Reading float library → Temp float library → F → F → Reading float library
  made_heat o temp rh slope = record o {
    value = heat_index_c float library temp.0 rh;
    calibration = derived_version float library o.node_id temp.2;
    uncertainty = some (round_fixed float library (mul slope temp.1));
  }

  module _ (observations : List (Reading float library)) (registry : Registry float library) where
    abbrev pub humidity_of : Reading float library → Option F
    humidity_of o = humidity_at float library (humidity_index float library observations) o

    -- A humidity is a raw and clean humidity reading of the same node and time.
    abbrev pub IsCoTimed : Reading float library → F → Type 0
    IsCoTimed o rh =
        Among
          (λ m.
            (counts_as_humidity float library m ≡ true)
            × (m.node_id ≡ o.node_id)
            × (m.timestamp ≡ o.timestamp)
            × (m.value ≡ rh))
          observations

    unfoldable pub IsMeasured : Reading float library → Option F → Type 0
    IsMeasured o none = Unit
    IsMeasured o (some rh) = IsCoTimed o rh

    -- A raw reading is corrected by the correction of its node and parameter, with the humidity of
    -- its node and time, which is there if the correction needs one.
    abbrev pub IsCorrection :
        Reading float library → Reading float library → Temp float library → Type 0
    IsCorrection o corrected temp =
        (c : Correction float library) × (value : F) × (is_raw o ≡ true)
        × (get_correction float library o.node_id o.parameter registry ≡ some c)
        × (lacks_humidity float library c (humidity_of o) ≡ false)
        × IsMeasured o (humidity_of o)
        × (predict float library c o.value (humidity_of o) ≡ some value)
        × (corrected ≡ made o c value)
        × (temp ≡ (value, c.residual_std, c.version))

    -- Why a reading is not corrected.
    abbrev pub IsLeft : Reading float library → Type 0
    IsLeft o =
        (is_raw o ≡ false)
        ⊎ (get_correction float library o.node_id o.parameter registry ≡ none)
        ⊎ ((c : Correction float library) × (get_correction float library o.node_id o.parameter
                registry
              ≡ some c)
            × (lacks_humidity float library c (humidity_of o) ≡ true))

    -- The corrected temperature of a node at a time.
    abbrev pub IsTemp : Reading float library → Temp float library → Type 0
    IsTemp o temp =
        Among
          (λ s.
            (s.parameter ≡ "temp_c")
            × (s.node_id ≡ o.node_id)
            × (s.timestamp ≡ o.timestamp)
            × (corrected : Reading float library) × IsCorrection s corrected temp)
          observations

    -- A raw heat index is derived anew from a corrected temperature and a humidity.
    abbrev pub IsDerivation : Reading float library → Reading float library → Type 0
    IsDerivation o derived =
        (temp : Temp float library) × (rh slope : F) × (o.parameter ≡ "heat_index_c")
        × (is_raw o ≡ true)
        × IsTemp o temp
        × IsCoTimed o rh
        × (heat_index_temp_slope float library temp.0 rh ≡ some slope)
        × (derived ≡ made_heat o temp rh slope)

    -- A raw heat index that would be derived anew from a temperature at which the slope is not
    -- defined.
    abbrev pub HasNoSlope : Reading float library → Type 0
    HasNoSlope o =
        (temp : Temp float library) × (rh : F) × (o.parameter ≡ "heat_index_c")
        × (is_raw o ≡ true)
        × IsTemp o temp
        × IsCoTimed o rh
        × (heat_index_temp_slope float library temp.0 rh ≡ none)

    abbrev pub IsExplainedBy : Reading float library → Reading float library → Type 0
    IsExplainedBy x o =
        (o ≡ x) ⊎ ((temp : Temp float library) × IsCorrection o x temp) ⊎ IsDerivation o x

    abbrev pub IsExplained : Reading float library → Type 0
    IsExplained x = Among (IsExplainedBy x) observations

    -- The raw readings go through as they are and in their order, and all others are explained; or
    -- there is a heat index whose slope is not defined.
    unfoldable pub IsHonest : Option (List (Reading float library)) → Type 0
    IsHonest none = Among HasNoSlope observations
    IsHonest (some out) = (keep_if is_raw out ≡ keep_if is_raw observations) × All IsExplained out
