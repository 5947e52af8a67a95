-- ===== src/Models/Air/Categories.antt =====
-- src/swelter/models.py: when pm25_aqi has no index, and what a NowCast needs.
use mathlib.Core.Option.{none-ne-some}
use swelter.Prelude.{
  ◌≤◌, length, take, ltb, ltb-false→le, ◌≡◌, sym, List, [], ◌∷◌, true, false, ◌⊎◌, none, some,
  Option-cases, Bool-cases, inl, inr,
}
use swelter.Float.{Float}
use swelter.Float.Library.{Library}
use swelter.Models.Air.{pm25_aqi, nowcast_of, nowcast_concentration}

module _ (float : Float) (library : Library float) where
  open float use {F, of_nat, mul, le, is_nan}
  open library use {floor}

  -- It is not a number, or it is above 0 and its tenths have no floor, as those of an infinity.
  abbrev pub HasNoIndex : F → Type 0
  HasNoIndex x =
      (is_nan x ≡ true) ⊎ ((le x (of_nat 0) ≡ false) × (floor (mul x (of_nat 10)) ≡ none))

  -- There is no index for a concentration only if it has none.
  pub pm25_aqi-none : (x : F) → pm25_aqi float library x ≡ none → HasNoIndex x
  unfolding pm25_aqi
  pm25_aqi-none x h = elim (Bool-cases (is_nan x)) [
    | inl e ↦ inl e
    | inr e ↦ elim (Bool-cases (le x (of_nat 0))) [
      | inl f ↦ absurd (none-ne-some _ (sym (rw (pm25_aqi, e, f) at h)))
      | inr f ↦ elim (Option-cases (floor (mul x (of_nat 10)))) [
        | inl g ↦ inr (f, g)
        | inr (tenths, g) ↦ absurd (none-ne-some _ (sym (rw (pm25_aqi, e, f, g) at h)))
      ]
    ]
  ]

  -- A NowCast needs three hours.
  pub nowcast_concentration-some :
      (xs : List F) (x : F)
      → nowcast_concentration float library xs ≡ some x
      → 3 ≤ length (take 12 xs)
  unfolding nowcast_concentration nowcast_of
  nowcast_concentration-some xs x h = nowcast_of-some (take 12 xs) h
    where
      nowcast_of-some : (ys : List F) → nowcast_of float library ys ≡ some x → 3 ≤ length ys
      nowcast_of-some [] h = absurd (none-ne-some x h)
      nowcast_of-some (c ∷ cs) h = elim (Bool-cases (ltb (length (c ∷ cs)) 3)) [
        | inl e ↦ absurd (none-ne-some x (rw (nowcast_of, e) at h))
        | inr e ↦ ltb-false→le (length (c ∷ cs)) 3 e
      ]
