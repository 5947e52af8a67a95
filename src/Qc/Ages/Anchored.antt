-- ===== src/Qc/Ages/Anchored.antt =====
-- src/swelter/qc.py: each correction with a window is reported once, against the latest timestamp.
use mathlib.Core.Bool.{false≢true}
use swelter.Prelude.{
  ℕ, ◌+◌, ◌≡◌, refl, sym, ap, subst, ◌∙◌, String, List, [], ◌∷◌, length, length-keep_if, keep_if,
  map, Bool, true, false, not, str_eq, Among, All, Bool-cases, inl, inr, ◌⊎◌, arith,
}
use swelter.Prelude.Text.{text_lt}
use swelter.Prelude.Text.Order.{text_lt_cases, text_lt_trans, text_lt_irrefl}
use swelter.Float.{Float}
use swelter.Float.Library.{Library}
use swelter.Models.{Observation}
use swelter.Calibrate.{Correction, Registry, all_corrections}
use swelter.Qc.Ages.{
  latest_text, age_of, ages_from, timestamps_of, correction_ages, CalibrationBlock,
  calibration_block,
}

-- A text that is among the texts, and behind which none of them comes.
IsLatest : String → List String → Type 0
IsLatest best ts = Among (λ t. t ≡ best) ts × All (λ t. text_lt best t ≡ false) ts

IsLatest-later :
    (r best t : String) (ts : List String)
    → text_lt best t ≡ true
    → IsLatest r (t ∷ ts)
    → IsLatest r (best ∷ t ∷ ts)
unfolding IsLatest
IsLatest-later r best t ts e (among, none_behind) = (
  inr among,
  elim (Bool-cases (text_lt r best)) [
    | inl h ↦ absurd (false≢true (sym none_behind.0 ∙ text_lt_trans r best t h e))
    | inr h ↦ (h, none_behind)
  ],
)

IsLatest-earlier :
    (r best t : String) (ts : List String)
    → text_lt best t ≡ false
    → IsLatest r (best ∷ ts)
    → IsLatest r (best ∷ t ∷ ts)
unfolding IsLatest
IsLatest-earlier r best t ts e (among, (own, rest)) = (
  elim among [ inl h ↦ inl h | inr h ↦ inr (inr h) ],
  (
    own,
    (
      elim (Bool-cases (text_lt r t)) [
        | inl h ↦ elim (text_lt_cases r best) [
          | inl k ↦ absurd (false≢true (sym own ∙ k))
          | inr (inl k) ↦ absurd (false≢true (sym e ∙ subst (λ u. text_lt u t ≡ true) k h))
          | inr (inr k) ↦ absurd (false≢true (sym e ∙ text_lt_trans best r t k h))
        ]
        | inr h ↦ h
      ],
      rest,
    ),
  ),
)

latest_text-IsLatest :
    (best : String) (ts : List String) → IsLatest (latest_text best ts) (best ∷ ts)
unfolding latest_text IsLatest
latest_text-IsLatest best [] = (inl refl, (text_lt_irrefl best, tt))
latest_text-IsLatest best (t ∷ ts) = elim (Bool-cases (text_lt best t)) [
  | inl e ↦
      let same : latest_text t ts ≡ latest_text best (t ∷ ts) = rw (latest_text, e) refl in
      subst (λ r. IsLatest r (best ∷ t ∷ ts)) same
        (IsLatest-later (latest_text t ts) best t ts e (latest_text-IsLatest t ts))
  | inr e ↦
      let same : latest_text best ts ≡ latest_text best (t ∷ ts) = rw (latest_text, e) refl in
      subst (λ r. IsLatest r (best ∷ t ∷ ts)) same
        (IsLatest-earlier (latest_text best ts) best t ts e (latest_text-IsLatest best ts))
]

module _ (float : Float) (library : Library float) (instant : String → ℕ) where
  has_window : Correction float library → Bool
  has_window c = not (str_eq c.window_end "")

  ages_from_lem :
      (horizon_days : float.F) (latest : String) (cs : List (Correction float library))
      → ages_from float library instant horizon_days latest cs
        ≡ map (age_of float library instant horizon_days latest) (keep_if has_window cs)
  unfolding ages_from has_window
  ages_from_lem horizon_days latest [] = refl
  ages_from_lem horizon_days latest (c ∷ cs) = elim (Bool-cases (str_eq c.window_end "")) [
    | inl e ↦ rw (keep_if, e) (ages_from_lem horizon_days latest cs)
    | inr e ↦
        rw (keep_if, e)
          (ap (λ l. age_of float library instant horizon_days latest c ∷ l)
            (ages_from_lem horizon_days latest cs))
  ]

  AreAges :
      List (Observation float)
      → Registry float library
      → float.F
      → CalibrationBlock float library instant
      → Type 0
  unfolding IsLatest has_window
  AreAges observations registry horizon_days block =
      ((observations ≡ []) × (block.ages ≡ [])
        ⊎ ((latest : String) × IsLatest latest (timestamps_of float library instant observations)
            × (block.ages
                ≡ map (age_of float library instant horizon_days latest)
                    (keep_if has_window (all_corrections float library registry)))))
      × (block.corrections ≡ length block.ages)
      × (block.aging + block.fresh ≡ block.corrections)
      × (block.aging ≡ length (keep_if (λ a. a.aging) block.ages))

  -- For any observations, registry and horizon: without an observation no correction has an age.
  -- Otherwise each correction that has the end of a window is reported once, in the order of the
  -- registry, by its age against the timestamp of the observations behind which none of them comes;
  -- and the block counts each of them as aging or as fresh.
  calibration_block-AreAges :
      (observations : List (Observation float)) (registry : Registry float library)
      (horizon_days : float.F)
      → AreAges observations registry horizon_days
          (calibration_block float library instant observations registry horizon_days)
  unfolding AreAges calibration_block correction_ages
  calibration_block-AreAges [] registry horizon_days = (inl (refl, refl), refl, omega arith, refl)
  calibration_block-AreAges (o ∷ os) registry horizon_days =
      let latest = latest_text o.timestamp (timestamps_of float library instant os) in
      let ages = correction_ages float library instant (o ∷ os) registry horizon_days in
      (
        inr (
          latest,
          latest_text-IsLatest o.timestamp (timestamps_of float library instant os),
          ages_from_lem horizon_days latest (all_corrections float library registry),
        ),
        refl,
        (let fewer = length-keep_if (λ a. a.aging) ages in omega arith),
        refl,
      )
