-- ===== src/Models/Observations.antt =====
-- The invariant of an observation, over all the ways in which the program makes one.
use swelter.Prelude.{◌≡◌, ◌⊎◌, inl, inr, refl, true, false, none, some, str_eq, Bool-cases}
use swelter.Float.{Float}
use swelter.Models.{Observation, raw, is_none, construct, is_calibrated}

module _ (float : Float) where
  open float use {F}

  -- A calibrated observation carries a sigma.
  abbrev pub IsBacked : Observation float → Type 0
  IsBacked o = (is_calibrated float o ≡ false) ⊎ (is_none float o.uncertainty ≡ false)

  -- The construction of an observation fails exactly if the observation is calibrated and has no
  -- sigma, and otherwise makes the observation that was asked for.
  pub construct-IsBacked :
      (o : Observation float)
      → ((construct float o ≡ some o) × IsBacked o)
        ⊎ ((construct float o ≡ none)
            × (is_calibrated float o ≡ true)
            × (is_none float o.uncertainty ≡ true))
  unfolding construct is_calibrated
  construct-IsBacked o = elim (Bool-cases (str_eq o.calibration raw)) [
    | inl uncorrected ↦ inl (rw (uncorrected, construct) refl, inl (rw uncorrected refl))
    | inr corrected ↦ elim (Bool-cases (is_none float o.uncertainty)) [
      | inl bare ↦ inr (rw (corrected, bare) refl, rw corrected refl, bare)
      | inr sigma ↦ inl (rw (corrected, sigma) refl, inr sigma)
    ]
  ]
