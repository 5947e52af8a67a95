-- ===== src/Models/Exposure.antt =====
-- src/swelter/models.py: the heat and wind-chill categories and the combined exposure level.
-- `none` stands for a raise: a reading that is not a number.
pub mod Levels
use swelter.Prelude.{
  ℕ, suc, ◌+◌, ◌≡◌, String, List, [], ◌∷◌, max, Bool, true, false, ◌&&◌, if◌then◌else◌, Option,
  none, some, str_eq, ◌==◌, leb, ltb, get_elem?,
}
use swelter.Prelude.Int.{pos, negsuc}
use swelter.Float.{Float}

-- `EXPOSURE_LEVELS`
unfoldable pub exposure_levels : List String
exposure_levels = "Minimal" ∷ "Low" ∷ "Elevated" ∷ "High" ∷ "Extreme" ∷ []

-- `_AIR_CONCERN`
abbrev pub air_concerns : List (String × ℕ)
air_concerns =
    ("Good", 0)
    ∷ ("Moderate", 1)
    ∷ ("Unhealthy for Sensitive Groups", 2)
    ∷ ("Unhealthy", 3)
    ∷ ("Very Unhealthy", 4)
    ∷ ("Hazardous", 4)
    ∷ []

-- `_AIR_CONCERN.get(category, 0)`
unfoldable pub air_concern_in : List (String × ℕ) → String → ℕ
air_concern_in [] category = 0
air_concern_in ((name, level) ∷ rest) category =
    let later = air_concern_in rest category in if str_eq name category then level else later

unfoldable pub air_concern : String → ℕ
unfolding air_concern_in
air_concern category = air_concern_in air_concerns category

pub data Component : Type 0 where
  both heat air : Component

module _ (float : Float) where
  open float use {F, decimal, le, is_nan}

  -- `_HEAT_BANDS`
  unfoldable pub heat_bands : List (F × String)
  heat_bands =
      (decimal (pos 267) 1, "Caution")
      ∷ (decimal (pos 322) 1, "Extreme Caution")
      ∷ (decimal (pos 394) 1, "Danger")
      ∷ (decimal (pos 511) 1, "Extreme Danger")
      ∷ []

  -- `_WIND_CHILL_BANDS`
  unfoldable pub wind_chill_bands : List (F × String)
  wind_chill_bands = (decimal (negsuc 282) 1, "Frostbite in 30 min") ∷ []

  -- The loop over the bands: a band that is crossed raises the level and names it.
  unfoldable pub cross_bands : (F → Bool) → List (F × String) → ℕ → String → ℕ × String
  cross_bands crosses [] level name = (level, name)
  cross_bands crosses ((limit, label) ∷ bands) level name =
      cross_bands crosses bands (if crosses limit then suc level else level)
        (if crosses limit then label else name)

  unfoldable pub heat_index_category : F → Option (ℕ × String)
  unfolding cross_bands heat_bands
  heat_index_category x =
      if is_nan x then none else some (cross_bands (λ floor. le floor x) heat_bands 0 "None")

  unfoldable pub wind_chill_category : F → Option (ℕ × String)
  unfolding cross_bands wind_chill_bands
  wind_chill_category x =
      if is_nan x
      then none
      else some (cross_bands (λ ceiling. le x ceiling) wind_chill_bands 0 "None")

  -- `_component_levels`
  unfoldable pub component_levels : F → String → Option (ℕ × ℕ)
  unfolding heat_index_category air_concern
  component_levels x category = elim (heat_index_category x) [
    | none ↦ none
    | some (level, name) ↦ some (level, air_concern category)
  ]

  -- The level, its name and whether both hazards are at the middle tier or above.
  unfoldable pub exposure_of : ℕ → ℕ → Option (ℕ × String × Bool)
  unfolding exposure_levels
  exposure_of h a = elim (get_elem? exposure_levels (max h a)) [
    | none ↦ none
    | some name ↦ some (max h a, name, leb 2 h && leb 2 a)
  ]

  unfoldable pub exposure_level : F → String → Option (ℕ × String × Bool)
  unfolding component_levels exposure_of
  exposure_level x category = elim (component_levels x category) [
    | none ↦ none
    | some (h, a) ↦ exposure_of h a
  ]

  unfoldable pub bounding : ℕ → ℕ → Component
  bounding h a = if h == a then both else if ltb a h then heat else air

  unfoldable pub exposure_bounding_component : F → String → Option Component
  unfolding component_levels bounding
  exposure_bounding_component x category = elim (component_levels x category) [
    | none ↦ none
    | some (h, a) ↦ some (bounding h a)
  ]
