-- ===== src/Calibrate/Families.antt =====
-- src/swelter/calibrate.py: which predictors and which method a parameter and a sensor model get.
use swelter.Prelude.{
  ◌≡◌, refl, String, List, [], ◌∷◌, All, Bool, true, ◌&&◌, ◌||◌, if◌then◌else◌, Option, none, some,
  str_eq, Bool-cases, inl, inr,
}

-- `_PREDICTORS.get(parameter, _DEFAULT_PREDICTORS)`
unfoldable pub predictors_of : String → List String
predictors_of parameter =
    if str_eq parameter "pm25_ugm3" || str_eq parameter "pm10_ugm3"
    then "raw" ∷ "humidity" ∷ []
    else "raw" ∷ []

-- `_METHOD.get(parameter, _DEFAULT_METHOD)`
unfoldable pub method_of : String → String
method_of parameter =
    if str_eq parameter "pm25_ugm3" || str_eq parameter "pm10_ugm3"
    then "epa-humidity"
    else if str_eq parameter "temp_c"
    then "enclosure-offset"
    else "linear"

-- The parameters of `_MODEL_PREDICTORS` and `_MODEL_METHOD`.
abbrev is_particulate : String → Bool
is_particulate parameter = str_eq parameter "pm25_ugm3" || str_eq parameter "pm10_ugm3"

-- `_MODEL_PREDICTORS.get((parameter, model))`
unfoldable pub model_predictors : String → String → Option (List String)
model_predictors parameter model =
    if is_particulate parameter && str_eq model "SPS30" then some ("raw" ∷ []) else none

-- `_MODEL_METHOD.get((parameter, model))`
unfoldable pub model_method : String → String → Option String
model_method parameter model =
    if is_particulate parameter
    then if str_eq model "PMS5003"
      then some "epa-humidity-pms5003"
      else if str_eq model "SDS011"
      then some "epa-humidity-sds011"
      else if str_eq model "SPS30"
      then some "linear-onboard-rh-sps30"
      else none
    else none

-- The value that is found, or the default.
abbrev pub or_default {ℓ} : {A : Type ℓ} → A → Option A → A
or_default d none = d
or_default d (some x) = x

-- `if model:` is false of `None` and of an empty text.
unfoldable pub predictors_for : String → Option String → List String
unfolding predictors_of model_predictors
predictors_for parameter none = predictors_of parameter
predictors_for parameter (some model) =
    if str_eq model ""
    then predictors_of parameter
    else or_default (predictors_of parameter) (model_predictors parameter model)

unfoldable pub method_for : String → Option String → String
unfolding method_of model_method
method_for parameter none = method_of parameter
method_for parameter (some model) =
    if str_eq model ""
    then method_of parameter
    else or_default (method_of parameter) (model_method parameter model)

-- Every predictor is one of the two that a design row knows.
abbrev pub is_known : String → Bool
is_known name = str_eq name "raw" || str_eq name "humidity"

abbrev pub AreKnown : List String → Type 0
AreKnown names = All (λ name. is_known name ≡ true) names

predictors_of-AreKnown : (parameter : String) → AreKnown (predictors_of parameter)
unfolding predictors_of
predictors_of-AreKnown parameter = elim (Bool-cases (is_particulate parameter)) [
  | inl e ↦ rw (predictors_of, e) (refl, (refl, tt))
  | inr e ↦ rw (predictors_of, e) (refl, tt)
]

pub predictors_for-AreKnown :
    (parameter : String) (model : Option String) → AreKnown (predictors_for parameter model)
unfolding predictors_for model_predictors
predictors_for-AreKnown parameter none = predictors_of-AreKnown parameter
predictors_for-AreKnown parameter (some model) = elim (Bool-cases (str_eq model "")) [
  | inl e ↦ rw e (predictors_of-AreKnown parameter)
  | inr e ↦ elim (Bool-cases (is_particulate parameter && str_eq model "SPS30")) [
    | inl f ↦ rw (predictors_for, e, model_predictors, f) (refl, tt)
    | inr f ↦ rw (predictors_for, e, model_predictors, f) (predictors_of-AreKnown parameter)
  ]
]
