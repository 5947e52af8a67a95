-- ===== src/Calibrate/Honest.antt =====
-- The second pass of `apply`, and the whole.
use Prim.Native.Char.{code}
use Prim.Native.String.{String}
use swelter.Prelude.{
  ◌≡◌, refl, sym, ap, subst, ◌∙◌, ℕ, List, [], ◌∷◌, ◌++◌, Among, Among-weaken, All, All-append,
  All-Among, true, false, ◌&&◌, Option, none, some, str_eq, both_true, Bool-cases, Option-cases,
  inl, inr, keep_if, keep_if_fail, keep_if-append, append-nil, arith,
}
use swelter.Prelude.Text.Order.{str_eq→eq}
use swelter.Prelude.Text.Pairs.{same_pair-parts}
use swelter.Prelude.Dict.{value_at-All, value_at}
use swelter.Prelude.Text.{join}
use swelter.Float.{Float}
use swelter.Float.Library.{Library}
use swelter.Models.{raw}
use swelter.Models.Heat.{heat_index_c}
use swelter.Calibrate.{
  round_fixed, heat_index_temp_slope, Registry, Reading, Moment, Temp, humidity_index, same_moment,
}
use swelter.Calibrate.Passes.{
  first_pass, derive_from, derive, both_outputs, second_pass, apply, derived_version,
}
use swelter.Calibrate.Explained.{
  is_raw, AreUsable, made_heat, humidity_of, IsCoTimed, IsMeasured, IsDerivation, HasNoSlope,
  IsExplained, IsHonest,
}
use swelter.Calibrate.FirstPass.{
  calibrated_some, IsOurs, IsRemembered, IsPassed, first_pass-IsPassed,
}
use swelter.Calibrate.Humidity.{humidity_at-IsMeasured}

first_code : String → ℕ
first_code String.[] = 0
first_code (String.◌∷◌ c s) = code c

derived_version_differs :
    (float : Float) (library : Library float) (node_id version : String)
    → str_eq (derived_version float library node_id version) raw ≡ false
unfolding derived_version join first_code
derived_version_differs float library node_id version =
    let v = derived_version float library node_id version in
    elim (Bool-cases (str_eq v raw)) [
      | inl e ↦
          let clash : 104 ≡ 114 = ap first_code (str_eq→eq v raw e) in absurd (omega (arith, clash))
      | inr e ↦ e
    ]

module _ (float : Float) (library : Library float) where
  open float use {F, mul}

  derive_from-some :
      (o : Reading float library) (temp : Temp float library) (rh slope : F)
      → heat_index_temp_slope float library temp.0 rh ≡ some slope
      → derive_from float library o (some temp) (some rh)
        ≡ some (made_heat float library o temp rh slope ∷ [])
  unfolding derive_from
  derive_from-some o temp rh slope e =
      rw
        (
          derive_from,
          e,
          calibrated_some float library o (derived_version float library o.node_id temp.2)
              (heat_index_c float library temp.0 rh) (round_fixed float library (mul slope temp.1)),
        )
        refl

  derive_from-none :
      (o : Reading float library) (temp : Temp float library) (rh : F)
      → heat_index_temp_slope float library temp.0 rh ≡ none
      → derive_from float library o (some temp) (some rh) ≡ none
  unfolding derive_from
  derive_from-none o temp rh e = rw (derive_from, e) refl

  module _ (observations : List (Reading float library)) (registry : Registry float library)
      (usable : AreUsable float library registry) where
    -- An output that has no raw readings, all of it explained; or a slope that is not defined.
    IsSecond : Option (List (Reading float library)) → Type 0
    IsSecond none = Among (HasNoSlope float library observations registry) observations
    IsSecond (some out) =
        (keep_if (is_raw float library) out ≡ [])
        × All (IsExplained float library observations registry) out

    humidity_at-IsCoTimed :
        (o : Reading float library) (rh : F)
        → humidity_of float library observations registry o ≡ some rh
        → IsCoTimed float library observations registry o rh
    unfolding IsMeasured
    humidity_at-IsCoTimed o rh e =
        subst (IsMeasured float library observations registry o) e
          (humidity_at-IsMeasured float library observations registry o)

    made_heat-IsSecond :
        (o : Reading float library) (temp : Temp float library) (rh slope : F)
        → IsOurs float library observations registry usable o
        → IsDerivation float library observations registry o
            (made_heat float library o temp rh slope)
        → IsSecond (some (made_heat float library o temp rh slope ∷ []))
    unfolding IsSecond IsOurs
    made_heat-IsSecond o temp rh slope m d = (
      keep_if_fail (is_raw float library) (made_heat float library o temp rh slope) []
          (derived_version_differs float library o.node_id temp.2),
      (
        Among-weaken (λ y. y ≡ o) _
            (λ y q. inr (
              inr (
                subst
                  (λ z.
                    IsDerivation float library observations registry z
                      (made_heat float library o temp rh slope))
                  (sym q) d)))
            observations m,
        tt,
      ),
    )

    derive_from-IsSecond :
        (o : Reading float library) (temps : List (Moment × Temp float library))
        (temp : Option (Temp float library)) (rh : Option F)
        → IsOurs float library observations registry usable o
        → All (IsRemembered float library observations registry usable) temps
        → o.parameter ≡ "heat_index_c"
        → is_raw float library o ≡ true
        → value_at same_moment (o.node_id, o.timestamp) temps ≡ temp
        → humidity_of float library observations registry o ≡ rh
        → IsSecond (derive_from float library o temp rh)
    unfolding derive_from IsSecond IsRemembered IsOurs
    derive_from-IsSecond o temps none rh m h p r e f = (refl, tt)
    derive_from-IsSecond o temps (some temp) none m h p r e f = (refl, tt)
    derive_from-IsSecond o temps (some temp) (some rh) m h p r e f =
        let here : Moment = (o.node_id, o.timestamp) in
        let (j, q, found) =
          value_at-All same_moment (IsRemembered float library observations registry usable) here
            temps temp h e in
        let (n, t) = same_pair-parts j here q in
        let own = Among-weaken _ _ (λ s k. (k.0, k.1 ∙ n, k.2 ∙ t, k.3, k.4)) observations found in
        let timed = humidity_at-IsCoTimed o rh f in
        elim (Option-cases (heat_index_temp_slope float library temp.0 rh)) [
          | inl s ↦ subst IsSecond (sym (derive_from-none o temp rh s)) (
              Among-weaken (λ y. y ≡ o) (HasNoSlope float library observations registry)
                (λ y k.
                  subst (HasNoSlope float library observations registry) (sym k)
                    (temp, rh, p, r, own, timed, s))
                observations m)
          | inr (slope, s) ↦
              subst IsSecond (sym (derive_from-some o temp rh slope s))
                (made_heat-IsSecond o temp rh slope m (temp, rh, slope, p, r, own, timed, s, refl))
        ]

    both_outputs-IsSecond :
        (out rest : Option (List (Reading float library)))
        → IsSecond out
        → IsSecond rest
        → IsSecond (both_outputs float library out rest)
    unfolding both_outputs IsSecond
    both_outputs-IsSecond none rest h k = h
    both_outputs-IsSecond (some out) none h k = k
    both_outputs-IsSecond (some out) (some rest) h k = (
      keep_if-append (is_raw float library) out rest
          ∙ ap (λ l. l ++ keep_if (is_raw float library) rest) h.0
          ∙ k.0,
      All-append _ out rest h.1 k.1,
    )

    derive-IsSecond :
        (o : Reading float library) (temps : List (Moment × Temp float library))
        → IsOurs float library observations registry usable o
        → All (IsRemembered float library observations registry usable) temps
        → IsSecond (derive float library (humidity_index float library observations) temps o)
    unfolding derive IsSecond
    derive-IsSecond o temps m h =
        elim (Bool-cases (str_eq o.parameter "heat_index_c" && is_raw float library o)) [
          | inl e ↦
              let (p, r) =
                both_true (str_eq o.parameter "heat_index_c") (is_raw float library o) e in
              rw (derive, e) (derive_from-IsSecond o temps _ _ m h (str_eq→eq _ _ p) r refl refl)
          | inr e ↦ rw (derive, e) (refl, tt)
        ]

    second_pass-IsSecond :
        (os : List (Reading float library)) (temps : List (Moment × Temp float library))
        → All (IsOurs float library observations registry usable) os
        → All (IsRemembered float library observations registry usable) temps
        → IsSecond (second_pass float library (humidity_index float library observations) temps os)
    unfolding second_pass IsSecond
    second_pass-IsSecond [] temps m h = (refl, tt)
    second_pass-IsSecond (o ∷ os) temps m h =
        both_outputs-IsSecond _ _ (derive-IsSecond o temps m.0 h)
          (second_pass-IsSecond os temps m.1 h)

    finish-IsHonest :
        (out : List (Reading float library)) (more : Option (List (Reading float library)))
        → keep_if (is_raw float library) out ≡ keep_if (is_raw float library) observations
        → All (IsExplained float library observations registry) out
        → IsSecond more
        → IsHonest float library observations registry (both_outputs float library (some out) more)
    unfolding both_outputs IsSecond IsHonest
    finish-IsHonest out none e h k = k
    finish-IsHonest out (some more) e h k = (
      keep_if-append (is_raw float library) out more
          ∙ ap (λ l. keep_if (is_raw float library) out ++ l) k.0
          ∙ append-nil _
          ∙ e,
      All-append _ out more h k.1,
    )

  -- For any observations and any registry in which each correction has a coefficient for each
  -- predictor and a version that is not "raw": `apply` returns, or the input has a raw heat index
  -- with a corrected temperature and a clean raw humidity of its node and time, at which the slope
  -- of the heat index divides by 0. If it returns, then the raw readings are in its output as they
  -- were and in their order; and each observation of the output is one of the input, or a raw
  -- reading of the input as the correction of its node and parameter predicts it, with the
  -- correction's version and sigma and with a clean raw humidity of its node and time if it needs
  -- one, or a raw heat index that is computed anew from a temperature so corrected and such a
  -- humidity, both of its node and time.
  pub apply-IsHonest :
      (observations : List (Reading float library)) (registry : Registry float library)
      → AreUsable float library registry
      → IsHonest float library observations registry (apply float library observations registry)
  unfolding apply IsPassed IsOurs
  apply-IsHonest observations registry usable =
      let humidity = humidity_index float library observations in
      let ours = All-Among observations in
      let passed =
        first_pass-IsPassed float library observations registry usable observations [] ours tt in
      elim (Option-cases (first_pass float library humidity registry observations [])) [
        | inl e ↦
            absurd
              (subst (IsPassed float library observations registry usable observations) e passed)
        | inr ((out, temps), e) ↦
            let p =
              subst (IsPassed float library observations registry usable observations) e passed in
            rw (apply, e)
              (finish-IsHonest observations registry usable out _ p.0 p.1
                (second_pass-IsSecond observations registry usable observations temps ours p.2))
      ]
