-- ===== src/Calibrate/FirstPass.antt =====
-- The first pass of `apply`: raw readings go through, and what is emitted is a correction.
use swelter.Prelude.{
  ◌≡◌, refl, sym, ap, subst, ◌∙◌, String, List, [], ◌∷◌, Among, Among-weaken, All, length, true,
  false, Option, none, some, str_eq, Bool-cases, inl, inr, keep_if, keep_if_cons, keep_if_fail,
  arith,
}
use swelter.Prelude.Text.Order.{str_eq→eq}
use swelter.Prelude.Text.Pairs.{same_pair-parts}
use swelter.Prelude.Dict.{All-assign, value_at-All}
use swelter.Float.{Float}
use swelter.Float.Library.{Library}
use swelter.Models.{raw, calibrated, construct}
use swelter.Calibrate.{
  Registry, Correction, Reading, Moment, Temp, Emission, passes, fails, emits, humidity_index,
  lacks_humidity, add_terms, predict, get_correction, emission, correct_by, correct, remember,
  same_moment, registry_key,
}
use swelter.Calibrate.Passes.{pass_on, first_pass}
use swelter.Calibrate.Explained.{
  is_raw, IsUsable, AreUsable, made, humidity_of, IsCorrection, IsLeft, IsExplained,
}
use swelter.Calibrate.Humidity.{humidity_at-IsMeasured}

module _ (float : Float) (library : Library float) where
  open float use {F}

  add_terms-some :
      (names : List String) (coefs : List F) (value : F) (rh : Option F) (total : F)
      → length names ≡ length coefs
      → (v : F) × (add_terms float library names coefs value rh total ≡ some v)
  unfolding add_terms
  add_terms-some [] [] value rh total e = (total, refl)
  add_terms-some [] (c ∷ cs) value rh total e = absurd (omega (arith, e))
  add_terms-some (n ∷ ns) [] value rh total e = absurd (omega (arith, e))
  add_terms-some (n ∷ ns) (c ∷ cs) value rh total e =
      add_terms-some ns cs value rh _ (omega (arith, e))

  -- A correction with a coefficient for each predictor always predicts.
  pub predict-some :
      (c : Correction float library) (value : F) (rh : Option F)
      → length c.predictors ≡ length c.coefficients
      → (v : F) × (predict float library c value rh ≡ some v)
  unfolding predict
  predict-some c value rh e =
      let (v, q) = add_terms-some c.predictors c.coefficients value rh c.intercept e in
      (library.round 6 v, rw (predict, q) refl)

  pub calibrated_some :
      (o : Reading float library) (version : String) (value sigma : F)
      → calibrated float o version value sigma
        ≡ some (record o { value = value; calibration = version; uncertainty = some sigma })
  unfolding calibrated construct
  calibrated_some o version value sigma = elim (Bool-cases (str_eq version raw)) [
    | inl e ↦ rw (calibrated, construct, e) refl
    | inr e ↦ rw (calibrated, construct, e) refl
  ]

  correct_by_emits :
      (o : Reading float library) (c : Correction float library) (rh : Option F) (v : F)
      → lacks_humidity float library c rh ≡ false
      → predict float library c o.value rh ≡ some v
      → correct_by float library o rh (some c)
        ≡ emits (made float library o c v) (v, c.residual_std, c.version)
  unfolding correct_by emission
  correct_by_emits o c rh v l p =
      rw (correct_by, l, p, emission, calibrated_some o c.version v c.residual_std) refl

  get_correction-IsUsable :
      (registry : Registry float library) (node_id parameter : String)
      (c : Correction float library)
      → AreUsable float library registry
      → get_correction float library node_id parameter registry ≡ some c
      → IsUsable float library c
  unfolding get_correction
  get_correction-IsUsable registry node_id parameter c usable e =
      (value_at-All str_eq (λ item. IsUsable float library item.1)
        (registry_key float library node_id parameter) registry c usable e).2

  module _ (observations : List (Reading float library)) (registry : Registry float library)
      (usable : AreUsable float library registry) where
    unfoldable pub IsSound : Reading float library → Emission float library → Type 0
    IsSound o passes = IsLeft float library observations registry o
    IsSound o fails = ⊥
    IsSound o (emits x temp) =
        IsCorrection float library observations registry o x temp × (is_raw float library x ≡ false)

    correct_by-IsSound :
        (o : Reading float library) (found : Option (Correction float library))
        → is_raw float library o ≡ true
        → get_correction float library o.node_id o.parameter registry ≡ found
        → IsSound o
            (correct_by float library o (humidity_of float library observations registry o) found)
    unfolding correct_by IsSound
    correct_by-IsSound o none r e = inr (inl e)
    correct_by-IsSound o (some c) r e =
        let rh = humidity_of float library observations registry o in
        let fine = get_correction-IsUsable registry o.node_id o.parameter c usable e in
        let (v, p) = predict-some c o.value rh fine.0 in
        elim (Bool-cases (lacks_humidity float library c rh)) [
          | inl lacks ↦ rw lacks (inr (inr (c, e, lacks)))
          | inr has ↦ subst (IsSound o) (sym (correct_by_emits o c rh v has p)) (
            (
              c,
              v,
              r,
              e,
              has,
              humidity_at-IsMeasured float library observations registry o,
              p,
              refl,
              refl,
            ),
            fine.1,
          )
        ]

    pub correct-IsSound :
        (o : Reading float library)
        → IsSound o (correct float library (humidity_index float library observations) registry o)
    unfolding correct IsSound
    correct-IsSound o = elim (Bool-cases (is_raw float library o)) [
      | inl r ↦ rw (correct, r) (correct_by-IsSound o _ r refl)
      | inr r ↦ rw (correct, r) (inl r)
    ]

    -- The items of `calibrated_temp` are corrected temperatures.
    unfoldable pub IsRemembered : Moment × Temp float library → Type 0
    IsRemembered (k, temp) =
        Among
          (λ s.
            (s.parameter ≡ "temp_c")
            × (s.node_id ≡ k.0)
            × (s.timestamp ≡ k.1)
            × (x : Reading float library) × IsCorrection float library observations registry s x
                temp)
          observations

    unfoldable pub IsPassed :
        List (Reading float library)
        → Option (List (Reading float library) × List (Moment × Temp float library))
        → Type 0
    IsPassed os none = ⊥
    IsPassed os (some (out, temps)) =
        (keep_if (is_raw float library) out ≡ keep_if (is_raw float library) os)
        × All (IsExplained float library observations registry) out
        × All IsRemembered temps

    unfoldable pub IsOurs : Reading float library → Type 0
    IsOurs o = Among (λ m. m ≡ o) observations

    pub moved :
        (y o x : Reading float library) (temp : Temp float library)
        → y ≡ o
        → IsCorrection float library observations registry o x temp
        → IsCorrection float library observations registry y x temp
    moved y o x temp q h =
        subst (λ z. IsCorrection float library observations registry z x temp) (sym q) h

    own :
        (o x : Reading float library) (temp : Temp float library) (k : Moment)
        → o.parameter ≡ "temp_c"
        → k.0 ≡ o.node_id
        → k.1 ≡ o.timestamp
        → IsOurs o
        → IsCorrection float library observations registry o x temp
        → IsRemembered (k, temp)
    unfolding IsRemembered IsOurs
    own o x temp k e n t m h =
        Among-weaken (λ y. y ≡ o) _
          (λ y q. (
            ap (λ z. z.parameter) q ∙ e,
            ap (λ z. z.node_id) q ∙ sym n,
            ap (λ z. z.timestamp) q ∙ sym t,
            x,
            moved y o x temp q h,
          ))
          observations m

    pass_on-IsPassed :
        (o : Reading float library) (os : List (Reading float library)) (e : Emission float library)
        (rest : Option (List (Reading float library) × List (Moment × Temp float library)))
        → IsOurs o
        → IsSound o e
        → IsPassed os rest
        → IsPassed (o ∷ os) (pass_on float library o e rest)
    unfolding pass_on IsPassed IsSound IsOurs
    pass_on-IsPassed o os fails rest m s p = absurd s
    pass_on-IsPassed o os passes none m s p = absurd p
    pass_on-IsPassed o os passes (some (out, temps)) m s p = (
      keep_if_cons (is_raw float library) o out os p.0,
      (Among-weaken (λ y. y ≡ o) _ (λ y q. inl q) observations m, p.1),
      p.2,
    )
    pass_on-IsPassed o os (emits x temp) none m s p = absurd p
    pass_on-IsPassed o os (emits x temp) (some (out, temps)) m s p = (
      keep_if_cons (is_raw float library) o (x ∷ out) os
          (keep_if_fail (is_raw float library) x out s.1 ∙ p.0),
      (
        Among-weaken (λ y. y ≡ o) _ (λ y q. inl q) observations m,
        (
          Among-weaken (λ y. y ≡ o) _ (λ y q. inr (inl (temp, moved y o x temp q s.0))) observations
              m,
          p.1,
        ),
      ),
      p.2,
    )

    remember-AreRemembered :
        (o : Reading float library) (e : Emission float library)
        (temps : List (Moment × Temp float library))
        → IsOurs o
        → IsSound o e
        → All IsRemembered temps
        → All IsRemembered
            (remember float library (humidity_index float library observations) o e temps)
    unfolding remember IsSound IsOurs
    remember-AreRemembered o fails temps m s h = h
    remember-AreRemembered o passes temps m s h = h
    remember-AreRemembered o (emits x temp) temps m s h =
        elim (Bool-cases (str_eq o.parameter "temp_c")) [
          | inl t ↦
              let here : Moment = (o.node_id, o.timestamp) in
              rw t (
                All-assign same_moment IsRemembered here temp temps
                  (λ j q.
                    let (n, w) = same_pair-parts j here q in
                    own o x temp j (str_eq→eq _ _ t) n w m s.0)
                  (own o x temp here (str_eq→eq _ _ t) refl refl m s.0) h)
          | inr t ↦ rw t h
        ]

    pub first_pass-IsPassed :
        (os : List (Reading float library)) (temps : List (Moment × Temp float library))
        → All IsOurs os
        → All IsRemembered temps
        → IsPassed os
            (first_pass float library (humidity_index float library observations) registry os temps)
    unfolding first_pass IsPassed
    first_pass-IsPassed [] temps h k = (refl, tt, k)
    first_pass-IsPassed (o ∷ os) temps h k =
        pass_on-IsPassed o os _ _ h.0 (correct-IsSound o) (
          first_pass-IsPassed os _ h.1 (remember-AreRemembered o _ temps h.0 (correct-IsSound o) k))
