-- ===== src/Calibrate/Examples.antt =====
-- Runs of the calibration at small inputs.
use swelter.Prelude.{ℕ, ◌≡◌, refl, String, List, [], ◌∷◌, Option, none, some, length}
use swelter.Prelude.Int.{pos, negsuc}
use swelter.Float.Whole.{whole, whole_library}
use swelter.Models.{ok, raw, source_native}
use swelter.Calibrate.{Correction, Registry, Reading, add_correction}
use swelter.Calibrate.Passes.{apply}
use swelter.Calibrate.Explained.{IsHonest}
use swelter.Calibrate.Honest.{apply-IsHonest}
use swelter.Prelude.Group.{group, group_from, gather}
use swelter.Prelude.Sort.{sort_by, insert_by}
use swelter.Prelude.Dict.{assign, value_at}
use swelter.Prelude.Text.{text_lt}
use swelter.Calibrate.Families.{predictors_for, model_predictors, predictors_of}
use swelter.Calibrate.Solve.{
  ols, solve, eliminate, pivot_from, reduce_rows, reduce_row, augment, accumulate, add_products,
  add_terms_of,
}
use swelter.Calibrate.Fit.{
  fit_groups, references_from, fit_one, add_fitted, design_row, residuals_of, products,
  without_last, last_of, squared_deviations, corrected_fit, TrainingPair, Payload, fit,
}
use swelter.Calibrate.Fit.Usable.{IsFit, fit-AreUsable}

abbrev reading : String → ℕ → Reading whole whole_library
reading parameter value = record {
  node_id = "n1";
  timestamp = "2026-06-01T10:00:00Z";
  parameter = parameter;
  value = pos value;
  unit = "";
  source = source_native;
  calibration = raw;
  qc = ok;
  uncertainty = none;
}

abbrev offset : Correction whole whole_library
offset = record {
  version = "temp_c.enclosure-offset.n1@20260601T1000Z-0123abcd";
  node_id = "n1";
  parameter = "temp_c";
  method = "enclosure-offset";
  predictors = "raw" ∷ [];
  coefficients = pos 1 ∷ [];
  intercept = negsuc 2;
  residual_std = pos 1;
  r2 = pos 1;
  n = 3;
  reference = "reference-monitor";
  window_start = "2026-06-01T08:00:00Z";
  window_end = "2026-06-01T10:00:00Z";
  model = "";
}

abbrev registry : Registry whole whole_library
registry = ("n1:temp_c", offset) ∷ []

abbrev batch : List (Reading whole whole_library)
batch = reading "heat_index_c" 39 ∷ reading "temp_c" 38 ∷ reading "humidity_pct" 60 ∷ []

apply-IsHonest_example :
    IsHonest whole whole_library batch registry (apply whole whole_library batch registry)
apply-IsHonest_example = apply-IsHonest whole whole_library batch registry ((refl, refl), tt)

abbrev pair : String → ℕ → ℕ → TrainingPair whole whole_library
pair timestamp value reference = record {
  node_id = "n1";
  parameter = "temp_c";
  timestamp = timestamp;
  raw = pos value;
  reference = pos reference;
  humidity = none;
  monitor = "";
}

abbrev pairs : List (TrainingPair whole whole_library)
pairs =
    pair "2026-06-01T08:00:00Z" 30 27
    ∷ pair "2026-06-01T09:00:00Z" 35 32
    ∷ pair "2026-06-01T10:00:00Z" 40 37
    ∷ []

abbrev hexdigest : Payload whole whole_library → String
hexdigest payload = "0123456789abcdef"

map_length : Option (Registry whole whole_library) → Option ℕ
map_length none = none
map_length (some registry) = some (length registry)

-- The example gives a correction.
fit_example : map_length (fit whole whole_library hexdigest pairs []) ≡ some 1
unfolding fit fit_groups references_from group_from group gather sort_by insert_by fit_one
    add_fitted add_correction assign predictors_for model_predictors predictors_of design_row ols
    solve eliminate pivot_from reduce_rows reduce_row augment accumulate add_products add_terms_of
    residuals_of products without_last last_of corrected_fit value_at text_lt squared_deviations
    map_length
fit_example = refl

fit-AreUsable_example :
    IsFit whole whole_library hexdigest pairs (fit whole whole_library hexdigest pairs [])
fit-AreUsable_example = fit-AreUsable whole whole_library hexdigest pairs []
