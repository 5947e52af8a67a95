-- ===== src/Qc/Ages.antt =====
-- src/swelter/qc.py: the ages of the corrections. The instant of a timestamp is a parameter.
pub mod Anchored
use swelter.Prelude.{ℕ, ◌-◌, String, List, [], ◌∷◌, length, keep_if, Bool, if◌then◌else◌, str_eq}
use swelter.Prelude.Int.{pos}
use swelter.Prelude.Text.{text_lt}
use swelter.Float.{Float}
use swelter.Float.Library.{Library}
use swelter.Models.{Observation}
use swelter.Qc.Gaps.{elapsed}
use swelter.Calibrate.{Correction, Registry, all_corrections}

-- `max(o.timestamp for o in obs)`, as a text.
unfoldable pub latest_text : String → List String → String
latest_text best [] = best
latest_text best (t ∷ ts) = latest_text (if text_lt best t then t else best) ts

module _ (float : Float) (library : Library float) (instant : String → ℕ) where
  open float use {F, decimal, div, lt}
  open library use {round}

  -- `CALIBRATION_DRIFT_HORIZON_DAYS`
  abbrev pub calibration_drift_horizon_days : F
  calibration_drift_horizon_days = decimal (pos 3650) 1

  pub record CorrectionAge : Type 0 where
    pub node_id : String
    pub parameter : String
    pub version : String
    pub window_end : String
    pub age_days : F
    pub aging : Bool

  abbrev pub days_between : String → String → F
  days_between earlier later = div (elapsed float instant earlier later) (decimal (pos 864000) 1)

  -- What the loop appends for a correction.
  abbrev pub age_of : F → String → Correction float library → CorrectionAge
  age_of horizon_days latest c = record {
    node_id = c.node_id;
    parameter = c.parameter;
    version = c.version;
    window_end = c.window_end;
    age_days = round 1 (days_between c.window_end latest);
    aging = lt horizon_days (days_between c.window_end latest);
  }

  -- The loop over the corrections.
  unfoldable pub ages_from : F → String → List (Correction float library) → List CorrectionAge
  ages_from horizon_days latest [] = []
  ages_from horizon_days latest (c ∷ cs) =
      let rest = ages_from horizon_days latest cs in
      if str_eq c.window_end "" then rest else age_of horizon_days latest c ∷ rest

  abbrev pub timestamps_of : List (Observation float) → List String
  timestamps_of [] = []
  timestamps_of (o ∷ os) = o.timestamp ∷ timestamps_of os

  unfoldable pub correction_ages :
      List (Observation float) → Registry float library → F → List CorrectionAge
  unfolding latest_text ages_from all_corrections
  correction_ages [] registry horizon_days = []
  correction_ages (o ∷ os) registry horizon_days =
      ages_from horizon_days (latest_text o.timestamp (timestamps_of os))
        (all_corrections float library registry)

  -- What `calibration_block` returns, but for its note.
  pub record CalibrationBlock : Type 0 where
    pub horizon_days : F
    pub corrections : ℕ
    pub aging : ℕ
    pub fresh : ℕ
    pub ages : List CorrectionAge

  unfoldable pub calibration_block :
      List (Observation float) → Registry float library → F → CalibrationBlock
  unfolding correction_ages
  calibration_block observations registry horizon_days =
      let ages = correction_ages observations registry horizon_days in
      let aging = length (keep_if (λ a. a.aging) ages) in
      record {
        horizon_days = horizon_days;
        corrections = length ages;
        aging = aging;
        fresh = length ages - aging;
        ages = ages;
      }
