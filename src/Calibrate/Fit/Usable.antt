-- ===== src/Calibrate/Fit/Usable.antt =====
-- That the corrections of a fit can be applied.
use Prim.Native.Char.{code}
use Prim.Native.String.{String}
use mathlib.Core.Bool.{false≢true}
use swelter.Prelude.{
  All, All-Among, Among, subst, suc, ◌-◌, ◌≤◌, ◌≡◌, refl, sym, ap, ◌∙◌, List, [], ◌∷◌, length,
  length-map, map, Bool, true, false, ◌||◌, Option, none, some, str_eq, ltb, ltb-false→le, ◌==◌,
  Bool-cases, Option-cases, inl, inr, arith,
}
use swelter.Prelude.Text.{join}
use swelter.Prelude.Text.Order.{str_eq→eq, str_eq_refl}
use swelter.Prelude.Sort.{sort_by, length-sort_by, All-sort_by}
use swelter.Prelude.Group.{group, group-AreGrouped}
use swelter.Prelude.Dict.{All-assign, value_at}
use mathlib.Core.Option.{none-ne-some}
use swelter.Float.{Float}
use swelter.Float.Library.{Library}
use swelter.Models.{raw}
use swelter.Calibrate.{Registry, Moment, same_moment, add_correction, round_fixed}
use swelter.Calibrate.Explained.{IsUsable, AreUsable}
use swelter.Calibrate.Families.{AreKnown, predictors_for, predictors_for-AreKnown}
use swelter.Calibrate.Solve.{ols, length-ols}
use swelter.Calibrate.Fit.{
  TrainingPair, Payload, design_row, without_last, last_of, residuals_of, version_of, corrected_fit,
  fit_one, add_fitted, Fitting, fitted, unfit, overflows, mean_reference, squared_deviations,
  or_default, fit_groups, fit, by_timestamp, references_from, by_group, pair_key,
}

has_dot : String → Bool
has_dot String.[] = false
has_dot (String.◌∷◌ c s) = (code c == 46) || has_dot s

has_dot-join : (s t : String) → has_dot (join s (join "." t)) ≡ true
unfolding has_dot join
has_dot-join String.[] t = refl
has_dot-join (String.◌∷◌ c s) t = elim (Bool-cases (code c == 46)) [
  | inl e ↦ rw e refl
  | inr e ↦ rw e (has_dot-join s t)
]

dotted_differs : (s t : String) → str_eq (join s (join "." t)) raw ≡ false
unfolding has_dot
dotted_differs s t = elim (Bool-cases (str_eq (join s (join "." t)) raw)) [
  | inl e ↦
      absurd
        (false≢true (sym (ap has_dot (str_eq→eq (join s (join "." t)) raw e)) ∙ has_dot-join s t))
  | inr e ↦ e
]

same_moment_refl : (k : Moment) → same_moment k k ≡ true
same_moment_refl k = rw (str_eq_refl k.0, str_eq_refl k.1) refl

module _ (float : Float) (library : Library float) where
  open float use {F}

  length-design_row :
      (p : TrainingPair float library) (names : List String)
      → AreKnown names
      → length (design_row float library p names) ≡ suc (length names)
  unfolding design_row
  length-design_row p [] k = refl
  length-design_row p (name ∷ names) k = elim (Bool-cases (str_eq name "raw")) [
    | inl e ↦ rw e (ap suc (length-design_row p names k.1))
    | inr e ↦ elim (Bool-cases (str_eq name "humidity")) [
      | inl f ↦ rw (e, f) (ap suc (length-design_row p names k.1))
      | inr f ↦ absurd (false≢true (rw (e, f) at k.0))
    ]
  ]

  length-without_last : (xs : List F) → length (without_last float library xs) ≡ length xs - 1
  unfolding without_last
  length-without_last [] = refl
  length-without_last (x ∷ []) = refl
  length-without_last (x ∷ y ∷ r) = omega (arith, length-without_last (y ∷ r))

  -- A fit over at least one pair has a coefficient for each predictor.
  length-coefficients :
      (pairs : List (TrainingPair float library)) (names : List String) (targets b : List F)
      → 1 ≤ length pairs
      → AreKnown names
      → ols float (map (λ p. design_row float library p names) pairs) targets ≡ some b
      → length names ≡ length (map (round_fixed float library) (without_last float library b))
  length-coefficients [] names targets b h k e = absurd (omega (arith, h))
  length-coefficients (p ∷ pairs) names targets b h k e = omega (
    arith,
    length-map (round_fixed float library) (without_last float library b),
    length-without_last b,
    length-ols float _ _ targets b e,
    length-design_row p names k,
  )

  module _ (hexdigest : Payload float library → String) where
    -- A deviation of the group from the mean of its references, of which the square overflows.
    abbrev pub Overflows : List (TrainingPair float library) → Type 0
    Overflows group =
        Among
          (λ p. library.square (float.sub p.reference (mean_reference float library group)) ≡ none)
          group

    squared_deviations-none :
        (mean_ref : F) (pairs : List (TrainingPair float library))
        → squared_deviations float library mean_ref pairs ≡ none
        → Among (λ p. library.square (float.sub p.reference mean_ref) ≡ none) pairs
    unfolding squared_deviations
    squared_deviations-none mean_ref [] h = absurd (none-ne-some [] (sym h))
    squared_deviations-none mean_ref (p ∷ ps) h =
        elim (Option-cases (library.square (float.sub p.reference mean_ref))) [
          | inl e ↦ inl e
          | inr (x, e) ↦ elim (Option-cases (squared_deviations float library mean_ref ps)) [
            | inl f ↦ inr (squared_deviations-none mean_ref ps f)
            | inr (xs, f) ↦ absurd (none-ne-some _ (sym (rw (squared_deviations, e, f) at h)))
          ]
        ]

    -- A fit is usable, or it overflows at the pairs in the order of their timestamps.
    IsFitting : List (TrainingPair float library) → Fitting float library → Type 0
    IsFitting group overflows = Overflows (sort_by (by_timestamp float library) group)
    IsFitting group unfit = Unit
    IsFitting group (fitted c) = IsUsable float library c

    corrected_fit-IsUsable :
        (node_id parameter reference model : String) (pairs : List (TrainingPair float library))
        (names : List String) (coefficients : List F) (intercept : F) (residuals squares : List F)
        → length names ≡ length coefficients
        → IsUsable float library (
            corrected_fit float library hexdigest node_id parameter reference model pairs names
              coefficients intercept residuals squares)
    unfolding corrected_fit version_of
    corrected_fit-IsUsable node_id parameter reference model pairs names coefs intercept rs ss h =
        (h, dotted_differs parameter _)

    fit_one-IsFitting :
        (node_id parameter : String) (pairs : List (TrainingPair float library))
        (reference model : String)
        → IsFitting pairs (fit_one float library hexdigest node_id parameter pairs reference model)
    unfolding fit_one IsFitting
    fit_one-IsFitting node_id parameter pairs reference model =
        let sorted = sort_by (by_timestamp float library) pairs in
        let names = predictors_for parameter (some model) in
        let design = map (λ p. design_row float library p names) sorted in
        let targets = map (λ p. p.reference) sorted in
        elim (Bool-cases (ltb (length pairs) 3)) [
          | inl few ↦ rw (fit_one, few) tt
          | inr enough ↦ elim (Option-cases (ols float design targets)) [
            | inl e ↦ rw (fit_one, enough, e) tt
            | inr (b, e) ↦
                let coefficients = map (round_fixed float library) (without_last float library b) in
                let intercept = round_fixed float library (last_of float library b) in
                elim (Option-cases
                  (residuals_of float library intercept coefficients sorted design)) [
                    | inl f ↦ rw (fit_one, enough, e, f) tt
                    | inr (residuals, f) ↦
                        elim (Option-cases (
                          squared_deviations float library (mean_reference float library sorted)
                            sorted)) [
                              | inl g ↦
                                  rw (fit_one, enough, e, f, g) (squared_deviations-none _ sorted g)
                              | inr (squares, g) ↦
                                  rw (fit_one, enough, e, f, g)
                                    (corrected_fit-IsUsable node_id parameter reference model sorted
                                      names coefficients intercept residuals squares
                                      (length-coefficients sorted names targets b
                                        (omega (
                                          arith,
                                          length-sort_by (by_timestamp float library) pairs,
                                          ltb-false→le (length pairs) 3 enough,
                                        ))
                                        (predictors_for-AreKnown parameter (some model)) e))
                            ]
                  ]
          ]
        ]

    module _ (pairs : List (TrainingPair float library)) where
      -- A training pair of the node and parameter.
      abbrev IsPairOf : Moment → TrainingPair float library → Type 0
      IsPairOf k p =
          Among (λ q. q ≡ p) pairs × (same_moment k (pair_key float library hexdigest p) ≡ true)

      -- The corrections are usable; or the square of a deviation overflows, in a group of training
      -- pairs of one node and parameter.
      pub IsFit : Option (Registry float library) → Type 0
      IsFit none =
          (k : Moment) × (group : List (TrainingPair float library)) × All (IsPairOf k) group
          × Overflows group
      IsFit (some registry) = AreUsable float library registry

      add_fitted-IsFit :
          (registry : Registry float library) (found : Fitting float library) (k : Moment)
          (group : List (TrainingPair float library))
          → AreUsable float library registry
          → All (IsPairOf k) group
          → IsFitting group found
          → IsFit (add_fitted float library registry found)
      unfolding add_fitted add_correction IsFitting IsFit
      add_fitted-IsFit registry overflows k group h known g = (
        k,
        sort_by (by_timestamp float library) group,
        All-sort_by (by_timestamp float library) (IsPairOf k) group known,
        g,
      )
      add_fitted-IsFit registry unfit k group h known g = h
      add_fitted-IsFit registry (fitted c) k group h known g =
          All-assign str_eq (λ item. IsUsable float library item.1) _ c registry (λ j e. g) g h

      fit_groups-IsFit :
          (models : List (String × String)) (references : List (Moment × String))
          (groups : List (Moment × List (TrainingPair float library)))
          (registry : Registry float library)
          → All (λ g. All (IsPairOf g.0) g.1) groups
          → AreUsable float library registry
          → IsFit (fit_groups float library hexdigest models references groups registry)
      unfolding fit_groups IsFit
      fit_groups-IsFit models references [] registry known h = h
      fit_groups-IsFit models references ((k, group) ∷ groups) registry known h =
          let reference = or_default "reference-monitor" (value_at same_moment k references) in
          let model = or_default "" (value_at str_eq k.0 models) in
          let found = fit_one float library hexdigest k.0 k.1 group reference model in
          let one =
            add_fitted-IsFit registry found k group h known.0
              (fit_one-IsFitting k.0 k.1 group reference model) in
          elim (Option-cases (add_fitted float library registry found)) [
            | inl e ↦ rw (fit_groups, e) (subst IsFit e one)
            | inr (more, e) ↦
                rw (fit_groups, e)
                  (fit_groups-IsFit models references groups more known.1 (subst IsFit e one))
          ]

      pairs-IsPairOf :
          (ps : List (TrainingPair float library))
          → All (λ p. Among (λ q. q ≡ p) pairs) ps
          → All
              (λ p.
                (j : Moment)
                → same_moment j (pair_key float library hexdigest p) ≡ true
                → IsPairOf j p)
              ps
            × All (λ p. IsPairOf (pair_key float library hexdigest p) p) ps
      pairs-IsPairOf [] h = (tt, tt)
      pairs-IsPairOf (p ∷ ps) h =
          let rest = pairs-IsPairOf ps h.1 in
          (
            (λ j e. (h.0, e), rest.0),
            ((h.0, same_moment_refl (pair_key float library hexdigest p)), rest.1),
          )

      -- For any training pairs and any sensor models: `fit` returns, or there is a group of pairs
      -- of one node and parameter in which the square of the difference of a reference and the mean
      -- of the references overflows. If it returns, then each correction of the registry has a
      -- coefficient for each of its predictors and a version that is not "raw".
      pub fit-AreUsable :
          (models : List (String × String)) → IsFit (fit float library hexdigest pairs models)
      unfolding fit
      fit-AreUsable models =
          let known = pairs-IsPairOf pairs (All-Among pairs) in
          fit_groups-IsFit models (references_from float library hexdigest pairs [])
            (sort_by (by_group float library hexdigest)
              (group same_moment (pair_key float library hexdigest) pairs))
            []
            (All-sort_by (by_group float library hexdigest) (λ g. All (IsPairOf g.0) g.1) _
              (group-AreGrouped same_moment IsPairOf (pair_key float library hexdigest) pairs
                known.0 known.1))
            tt
