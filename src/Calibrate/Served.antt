-- ===== src/Calibrate/Served.antt =====
-- That `apply` leaves out no reading and no correction.
use swelter.Prelude.{◌≡◌, List, Among, All, Option, none, some, ◌⊎◌}
use swelter.Float.{Float}
use swelter.Float.Library.{Library}
use swelter.Calibrate.{Registry, Reading, Moment, Temp}
use swelter.Calibrate.Explained.{HasNoSlope, AreUsable, IsCorrection, IsLeft}

module _ (float : Float) (library : Library float) (observations : List (Reading float library))
    (registry : Registry float library) where
  open float use {F}

  abbrev IsIn : List (Reading float library) → Reading float library → Type 0
  IsIn out x = Among (λ y. y ≡ x) out

  -- A reading is in the output, and so is its correction, unless there is a reason.
  abbrev pub IsServed : List (Reading float library) → Reading float library → Type 0
  IsServed out o =
      IsIn out o
      × (IsLeft float library observations registry o
          ⊎ ((x : Reading float library) × (temp : Temp float library) × IsCorrection float library
                observations registry o x temp
              × IsIn out x))

  unfoldable pub IsServing : Option (List (Reading float library)) → Type 0
  IsServing none = Among (HasNoSlope float library observations registry) observations
  IsServing (some out) = All (IsServed out) observations

  module _ (usable : AreUsable float library registry) where
    IsServedFirst :
        List (Reading float library)
        → Option (List (Reading float library) × List (Moment × Temp float library))
        → Type 0
    IsServedFirst os none = ⊥
    IsServedFirst os (some (out, temps)) = All (IsServed out) os
