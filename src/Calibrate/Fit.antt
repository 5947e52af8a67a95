-- ===== src/Calibrate/Fit.antt =====
-- src/swelter/calibrate.py: TrainingPair, `fit_id`, `fit_one` and `fit`. A ValueError, which `fit`
-- catches, and an OverflowError, which it does not, are constructors of the result of `fit_one`.
pub mod Usable
use Prim.Native.Char.{code}
use Prim.Native.String.{String}
use swelter.Prelude.{
  ℕ, zero, suc, ◌-◌, List, [], ◌∷◌, ◌++◌, length, map, take, get_elem?, Bool, true, false, not,
  ◌&&◌, ◌||◌, if◌then◌else◌, Option, none, some, str_eq, ltb, ◌==◌,
}
use swelter.Prelude.Int.{pos}
use swelter.Prelude.Text.{join, text_lt, chars, first_chars}
use swelter.Prelude.Sort.{sort_by}
use swelter.Prelude.Group.{group}
use swelter.Prelude.Dict.{assign, value_at}
use swelter.Float.{Float}
use swelter.Float.Library.{Library}
use swelter.Calibrate.{
  Correction, Registry, Moment, same_moment, add_correction, round_fixed, add_terms,
}
use swelter.Calibrate.Families.{predictors_for, method_for, or_default}
use swelter.Calibrate.Solve.{ols}

-- `text.replace(c, "")`
unfoldable pub without : ℕ → String → String
without c String.[] = String.[]
without c (String.◌∷◌ d s) = if code d == c then without c s else String.◌∷◌ d (without c s)

-- `text.startswith(old)`
unfoldable pub starts_with : String → String → Bool
starts_with String.[] s = true
starts_with (String.◌∷◌ c old) String.[] = false
starts_with (String.◌∷◌ c old) (String.◌∷◌ d s) = (code c == code d) && starts_with old s

-- `text.replace(old, new)`, behind `skip` characters of an occurrence of `old`.
unfoldable pub replace_from : String → String → ℕ → String → String
unfolding join starts_with chars
replace_from old new skip String.[] = String.[]
replace_from old new (suc skip) (String.◌∷◌ c s) = replace_from old new skip s
replace_from old new zero (String.◌∷◌ c s) =
    if starts_with old (String.◌∷◌ c s)
    then join new (replace_from old new (chars old - 1) s)
    else String.◌∷◌ c (replace_from old new 0 s)

-- `window_end.replace("-", "").replace(":", "").replace("+00:00", "Z")`
unfoldable pub compact : String → String
unfolding without replace_from
compact window_end = replace_from "+00:00" "Z" 0 (without 58 (without 45 window_end))

module _ (float : Float) (library : Library float) where
  open float use {F, of_nat, decimal, add, sub, mul, div, eq}
  open library use {power, square, sum}

  pub record TrainingPair : Type 0 where
    pub node_id : String
    pub parameter : String
    pub timestamp : String
    pub raw : F
    pub reference : F
    pub humidity : Option F
    pub monitor : String

  abbrev float_zero : F
  float_zero = decimal (pos 0) 0

  -- A name that is neither of the two adds no entry.
  unfoldable pub design_row : TrainingPair → List String → List F
  design_row pair [] = decimal (pos 1) 0 ∷ []
  design_row pair (name ∷ names) =
      if str_eq name "raw"
      then pair.raw ∷ design_row pair names
      else if str_eq name "humidity"
      then or_default float_zero pair.humidity ∷ design_row pair names
      else design_row pair names

  -- `sorted(pairs, key=lambda p: p.timestamp)`
  abbrev pub by_timestamp : TrainingPair → TrainingPair → Bool
  by_timestamp a b = not (text_lt b.timestamp a.timestamp)

  -- `values[:-1]`
  unfoldable pub without_last : List F → List F
  without_last [] = []
  without_last (x ∷ []) = []
  without_last (x ∷ y ∷ r) = x ∷ without_last (y ∷ r)

  -- `values[-1]`
  unfoldable pub last_of : List F → F
  last_of [] = float_zero
  last_of (x ∷ []) = x
  last_of (x ∷ y ∷ r) = last_of (y ∷ r)

  -- `[c * x for c, x in zip(coefficients, row, strict=True)]`
  unfoldable pub products : List F → List F → Option (List F)
  products [] [] = some []
  products [] (x ∷ xs) = none
  products (c ∷ cs) [] = none
  products (c ∷ cs) (x ∷ xs) = elim (products cs xs) [ none ↦ none | some r ↦ some (mul c x ∷ r) ]

  -- `residuals`
  unfoldable pub residuals_of : F → List F → List TrainingPair → List (List F) → Option (List F)
  unfolding products without_last
  residuals_of intercept coefficients [] [] = some []
  residuals_of intercept coefficients [] (row ∷ rows) = none
  residuals_of intercept coefficients (p ∷ ps) [] = none
  residuals_of intercept coefficients (p ∷ ps) (row ∷ rows) =
      elim (products coefficients (without_last row)) [
        | none ↦ none
        | some terms ↦ elim (residuals_of intercept coefficients ps rows) [
          | none ↦ none
          | some rest ↦ some (sub p.reference (add intercept (sum terms)) ∷ rest)
        ]
      ]

  -- The fields of the payload that `fit_id` hashes, in the order of its keyword arguments.
  pub record Payload : Type 0 where
    pub window_end : String
    pub predictors : List String
    pub coefficients : List F
    pub intercept : F
    pub residual_std : F
    pub r2 : F
    pub n : ℕ
    pub reference : String
    pub window_start : String
    pub model : String

  -- `pairs[0].timestamp`
  unfoldable pub first_timestamp : List TrainingPair → String
  first_timestamp [] = ""
  first_timestamp (p ∷ ps) = p.timestamp

  -- `pairs[-1].timestamp`
  unfoldable pub last_timestamp : List TrainingPair → String
  last_timestamp [] = ""
  last_timestamp (p ∷ []) = p.timestamp
  last_timestamp (p ∷ q ∷ r) = last_timestamp (q ∷ r)

  abbrev is_absent : Option String → Bool
  is_absent none = true
  is_absent (some x) = false

  -- What becomes of a fit: a correction, a `ValueError`, or an `OverflowError`.
  pub data Fitting : Type 0 where
    fitted : Correction float library → Fitting
    unfit : Fitting
    overflows : Fitting

  -- `registry.add(...)`, unless the fit raises. `fit` skips a group at a `ValueError` only.
  unfoldable pub add_fitted : Registry float library → Fitting → Option (Registry float library)
  unfolding add_correction
  add_fitted registry overflows = none
  add_fitted registry unfit = some registry
  add_fitted registry (fitted c) = some (add_correction float library c registry)

  abbrev pub mean_reference : List TrainingPair → F
  mean_reference pairs = div (sum (map (λ p. p.reference) pairs)) (of_nat (length pairs))

  -- `(t - mean_ref) ** 2` of each target
  unfoldable pub squared_deviations : F → List TrainingPair → Option (List F)
  squared_deviations mean_ref [] = some []
  squared_deviations mean_ref (p ∷ ps) =
      let rest = squared_deviations mean_ref ps in
      elim (square (sub p.reference mean_ref)) [
        | none ↦ none
        | some s ↦ elim rest [ none ↦ none | some ss ↦ some (s ∷ ss) ]
      ]

  -- The SHA-256 of the payload's JSON text, in hexadecimal digits, is a parameter.
  module _ (hexdigest : Payload → String) where
    unfoldable pub fit_id : Payload → String
    unfolding join compact first_chars
    fit_id payload =
        join (compact payload.window_end) (join "-" (first_chars 8 (hexdigest payload)))

    unfoldable pub version_of : String → String → String → String → String
    unfolding join
    version_of parameter method node_id identity =
        join parameter (join "." (join method (join "." (join node_id (join "@" identity)))))

    -- The measures of a fit, and the correction with them.
    unfoldable pub corrected_fit :
        String
        → String
        → String
        → String
        → List TrainingPair
        → List String
        → List F
        → F
        → List F
        → List F
        → Correction float library
    unfolding round_fixed fit_id version_of method_for first_timestamp last_timestamp
    corrected_fit node_id parameter reference model pairs predictors coefficients intercept
          residuals squares =
        let n = length pairs in
        let ss_res = sum (map (λ r. mul r r) residuals) in
        let spread = sum squares in
        let ss_tot = if eq spread float_zero then decimal (pos 1) 12 else spread in
        let residual_std =
          round_fixed float library (power (div ss_res (of_nat n)) (decimal (pos 5) 1)) in
        let r2 = round_fixed float library (sub (of_nat 1) (div ss_res ss_tot)) in
        let method = method_for parameter (some model) in
        let window_start = first_timestamp pairs in
        let window_end = last_timestamp pairs in
        let payload : Payload = record {
          window_end = window_end;
          predictors = predictors;
          coefficients = coefficients;
          intercept = intercept;
          residual_std = residual_std;
          r2 = r2;
          n = n;
          reference = reference;
          window_start = window_start;
          model = model;
        } in
        record {
          version = version_of parameter method node_id (fit_id payload);
          node_id = node_id;
          parameter = parameter;
          method = method;
          predictors = predictors;
          coefficients = coefficients;
          intercept = intercept;
          residual_std = residual_std;
          r2 = r2;
          n = n;
          reference = reference;
          window_start = window_start;
          window_end = window_end;
          model = model;
        }

    unfoldable pub fit_one : String → String → List TrainingPair → String → String → Fitting
    unfolding sort_by predictors_for design_row ols round_fixed without_last last_of residuals_of
        squared_deviations corrected_fit
    fit_one node_id parameter pairs reference model =
        let sorted = sort_by by_timestamp pairs in
        let predictors = predictors_for parameter (some model) in
        let design = map (λ p. design_row p predictors) sorted in
        let beta = ols float design (map (λ p. p.reference) sorted) in
        if ltb (length pairs) 3 then unfit else elim beta [
          | none ↦ unfit
          | some b ↦
              let coefficients = map (round_fixed float library) (without_last b) in
              let intercept = round_fixed float library (last_of b) in
              elim (residuals_of intercept coefficients sorted design) [
                | none ↦ unfit
                | some residuals ↦ elim (squared_deviations (mean_reference sorted) sorted) [
                  | none ↦ overflows
                  | some squares ↦ fitted (
                      corrected_fit node_id parameter reference model sorted predictors coefficients
                        intercept residuals squares)
                ]
              ]
        ]

    abbrev pub pair_key : TrainingPair → Moment
    pair_key p = (p.node_id, p.parameter)

    -- The reference of a group is the first monitor in it that has a name.
    unfoldable pub references_from :
        List TrainingPair → List (Moment × String) → List (Moment × String)
    unfolding assign value_at
    references_from [] references = references
    references_from (p ∷ ps) references = references_from ps (
        if not (str_eq p.monitor "") && is_absent (value_at same_moment (pair_key p) references)
        then assign same_moment (pair_key p) p.monitor references
        else references)

    -- `sorted(grouped.items())`: the keys are distinct, so that they decide the order.
    abbrev pub by_group : Moment × List TrainingPair → Moment × List TrainingPair → Bool
    by_group a b = text_lt a.0.0 b.0.0 || (str_eq a.0.0 b.0.0 && not (text_lt b.0.1 a.0.1))

    -- A group that cannot be fit is skipped.
    unfoldable pub fit_groups :
        List (String × String)
        → List (Moment × String)
        → List (Moment × List TrainingPair)
        → Registry float library
        → Option (Registry float library)
    unfolding add_fitted value_at fit_one
    fit_groups models references [] registry = some registry
    fit_groups models references ((k, pairs) ∷ groups) registry =
        let reference = or_default "reference-monitor" (value_at same_moment k references) in
        let model = or_default "" (value_at str_eq k.0 models) in
        elim (add_fitted registry (fit_one k.0 k.1 pairs reference model)) [
          | none ↦ none
          | some more ↦ fit_groups models references groups more
        ]

    unfoldable pub fit :
        List TrainingPair → List (String × String) → Option (Registry float library)
    unfolding fit_groups references_from group sort_by
    fit pairs models =
        fit_groups models (references_from pairs [])
          (sort_by by_group (group same_moment pair_key pairs)) []
