-- ===== src/Models.antt =====
-- src/swelter/models.py: observations, the parameter registry and the quality verdicts.
pub mod Observations
pub mod Exposure
pub mod Heat
pub mod Air
use swelter.Prelude.{
  ℕ, String, ◌≡◌, List, [], ◌∷◌, Bool, true, false, not, ◌&&◌, ◌||◌, if◌then◌else◌, Option, none,
  some, str_eq,
}
use swelter.Prelude.Int.{pos, negsuc}
use swelter.Float.{Float}

-- The verdicts `QC_OK`, `QC_RANGE`, `QC_SPIKE`, `QC_FLATLINE` and `QC_MISSING`.
pub data Verdict : Type 0 where
  ok range spike flatline missing : Verdict

abbrev pub is_ok : Verdict → Bool
is_ok ok = true
is_ok _ = false

-- `QC_EMITTED`
abbrev pub is_emitted : Verdict → Bool
is_emitted missing = false
is_emitted _ = true

-- `QC_UNMAPPABLE`
abbrev pub is_unmappable : Verdict → Bool
is_unmappable range = true
is_unmappable missing = true
is_unmappable _ = false

-- `QC_SUSPICIOUS`
abbrev pub is_suspicious : Verdict → Bool
is_suspicious spike = true
is_suspicious flatline = true
is_suspicious _ = false

-- `QC_REJECTED`
abbrev pub is_rejected : Verdict → Bool
is_rejected v = is_unmappable v || is_suspicious v

abbrev pub raw : String
raw = "raw"

abbrev pub source_native : String
source_native = "native"

-- The identity of an observation.
abbrev pub Key : Type 0
Key = String × String × String × String × String

module _ (float : Float) where
  open float use {F, decimal, lt, le, is_nan}

  pub record Parameter : Type 0 where
    pub name : String
    pub unit : String
    pub valid_min : F
    pub valid_max : F

  abbrev parameter : String → String → F → F → Parameter
  parameter name unit low high = record {
    name = name;
    unit = unit;
    valid_min = low;
    valid_max = high;
  }

  -- `PARAMETERS`, in its order.
  unfoldable pub parameters : List Parameter
  parameters =
      parameter "temp_c" "degC" (decimal (negsuc 39) 0) (decimal (pos 60) 0)
      ∷ parameter "humidity_pct" "%" (decimal (pos 2) 0) (decimal (pos 100) 0)
      ∷ parameter "pm25_ugm3" "ug/m3" (decimal (pos 0) 0) (decimal (pos 1000) 0)
      ∷ parameter "pm10_ugm3" "ug/m3" (decimal (pos 0) 0) (decimal (pos 2000) 0)
      ∷ parameter "no2_ppb" "ppb" (decimal (pos 0) 0) (decimal (pos 2000) 0)
      ∷ parameter "heat_index_c" "degC" (decimal (negsuc 39) 0) (decimal (pos 60) 0)
      ∷ parameter "wbgt_c" "degC" (decimal (negsuc 39) 0) (decimal (pos 60) 0)
      ∷ parameter "wind_chill_c" "degC" (decimal (negsuc 99) 0) (decimal (pos 60) 0)
      ∷ []

  -- `PARAMETERS.get(name)`
  unfoldable pub find_parameter : String → List Parameter → Option Parameter
  find_parameter name [] = none
  find_parameter name (p ∷ ps) = if str_eq p.name name then some p else find_parameter name ps

  pub record Observation : Type 0 where
    pub node_id : String
    pub timestamp : String
    pub parameter : String
    pub value : F
    pub unit : String
    pub source : String
    pub calibration : String
    pub qc : Verdict
    pub uncertainty : Option F

  abbrev pub is_none : Option F → Bool
  is_none none = true
  is_none (some x) = false

  -- `__post_init__`: the construction of an observation fails if it is calibrated and has no sigma.
  unfoldable pub construct : Observation → Option Observation
  construct o = if not (str_eq o.calibration raw) && is_none o.uncertainty then none else some o

  unfoldable pub key : Observation → Key
  key o = (o.node_id, o.timestamp, o.parameter, o.source, o.calibration)

  unfoldable pub is_calibrated : Observation → Bool
  is_calibrated o = not (str_eq o.calibration raw)

  unfoldable pub is_trustworthy : Observation → Bool
  is_trustworthy o = not (str_eq o.calibration raw) && not (is_rejected o.qc)

  unfoldable pub with_qc : Observation → Verdict → Observation
  with_qc o flag = record o { qc = flag }

  unfoldable pub calibrated : Observation → String → F → F → Option Observation
  unfolding construct
  calibrated o version value sigma =
      construct (record o { value = value; calibration = version; uncertainty = some sigma })
