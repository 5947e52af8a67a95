-- ===== src/Models/Exposure/Levels.antt =====
-- The exposure level is on its scale, and the component that bounds it is the higher hazard.
use swelter.Prelude.{
  ℕ, zero, suc, ◌+◌, ◌≤◌, ◌<◌, ◌≡◌, refl, String, List, [], ◌∷◌, length, max, Bool, false, ◌&&◌,
  some, ◌==◌, ==→eq, leb, ltb, get_elem?, arith, Bool-cases, inl, inr,
}
use swelter.Float.{Float}
use swelter.Models.Exposure.{
  exposure_levels, air_concern_in, air_concern, Component, both, heat, air, heat_bands, cross_bands,
  heat_index_category, component_levels, exposure_of, exposure_level, bounding,
  exposure_bounding_component,
}

air_concern-le : (category : String) → air_concern category ≤ 4
unfolding air_concern air_concern_in
air_concern-le category = ground arith

module _ (float : Float) where
  open float use {F, is_nan, le}

  cross_bands-le :
      (crosses : F → Bool) (bands : List (F × String)) (level : ℕ) (name : String)
      → (cross_bands float crosses bands level name).0 ≤ level + length bands
  unfolding cross_bands
  cross_bands-le crosses [] level name = omega arith
  cross_bands-le crosses ((limit, label) ∷ bands) level name = elim (Bool-cases (crosses limit)) [
    | inl e ↦ rw (cross_bands, e) (omega (arith, cross_bands-le crosses bands (suc level) label))
    | inr e ↦ rw (cross_bands, e) (omega (arith, cross_bands-le crosses bands level name))
  ]

  level_named : (n : ℕ) → n < 5 → (name : String) × (get_elem? exposure_levels n ≡ some name)
  unfolding exposure_levels
  level_named zero h = ("Minimal", refl)
  level_named (suc zero) h = ("Low", refl)
  level_named (suc (suc zero)) h = ("Elevated", refl)
  level_named (suc (suc (suc zero))) h = ("High", refl)
  level_named (suc (suc (suc (suc zero)))) h = ("Extreme", refl)
  level_named (suc (suc (suc (suc (suc n))))) h = absurd (omega arith)

  -- The component that bounds the level is the higher hazard, or both at a tie.
  pub BoundedBy : Component → ℕ → ℕ → Type 0
  BoundedBy both h a = h ≡ a
  BoundedBy heat h a = a < h
  BoundedBy air h a = h < a

  bounding-BoundedBy : (h a : ℕ) → BoundedBy (bounding float h a) h a
  unfolding bounding BoundedBy
  bounding-BoundedBy h a = elim (Bool-cases (h == a)) [
    | inl e ↦ rw (BoundedBy, e) (==→eq h a e)
    | inr e ↦ elim (Bool-cases (ltb a h)) [
      | inl f ↦ rw (BoundedBy, e, f) (ground arith)
      | inr f ↦ rw (BoundedBy, e, f) (ground arith)
    ]
  ]

  five_levels : length exposure_levels ≡ 5
  unfolding exposure_levels
  five_levels = refl

  four_heat_bands : length (heat_bands float) ≡ 4
  unfolding heat_bands
  four_heat_bands = refl

  graded_bound :
      (x : F) (category : String)
      → max
          (cross_bands float (λ floor. le floor x) (heat_bands float) 0 "None").0
          (air_concern category)
        < 5
  graded_bound x category = omega (
    arith,
    cross_bands-le (λ floor. le floor x) (heat_bands float) 0 "None",
    four_heat_bands,
    air_concern-le category,
  )

  -- What is asked of the exposure at a heat index and an air category.
  unfoldable pub Graded : F → String → Type 0
  Graded x category =
      (h : ℕ) × (label : String) × (name : String) × (component : Component) × (heat_index_category
          float x
        ≡ some (h, label))
      × (exposure_level float x category
          ≡ some (max h (air_concern category), name, leb 2 h && leb 2 (air_concern category)))
      × (max h (air_concern category) < length exposure_levels)
      × (exposure_bounding_component float x category ≡ some component)
      × BoundedBy component h (air_concern category)

  -- The hypothesis is that the heat index is a number. Then for any category of the air there is
  -- an exposure level, the higher of the two concerns, on the scale of five names; it is compound
  -- exactly if both concerns are 2 or more; and the component that is reported to bound it is the
  -- one with the higher concern, or both at a tie.
  pub exposure_level-Graded : (x : F) (category : String) → is_nan x ≡ false → Graded x category
  unfolding Graded exposure_level exposure_bounding_component component_levels exposure_of
      heat_index_category
  exposure_level-Graded x category h =
      let crossed = cross_bands float (λ floor. le floor x) (heat_bands float) 0 "None" in
      let a = air_concern category in
      let bounded : max crossed.0 a < 5 = graded_bound x category in
      let on_scale : max crossed.0 a < length exposure_levels =
        omega (arith, bounded, five_levels) in
      let (name, named) = level_named (max crossed.0 a) bounded in
      (
        crossed.0,
        crossed.1,
        name,
        bounding float crossed.0 a,
        rw (heat_index_category, h) refl,
        rw (exposure_level, component_levels, heat_index_category, h, exposure_of, named) refl,
        on_scale,
        rw (exposure_bounding_component, component_levels, heat_index_category, h) refl,
        bounding-BoundedBy crossed.0 a,
      )
