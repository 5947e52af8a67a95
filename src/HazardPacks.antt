-- ===== src/HazardPacks.antt =====
-- src/swelter/hazard_packs.py: the packs, and what they say of floors and parameters.
pub mod Shipped
pub mod Seasons
use swelter.Prelude.{
  ℕ, String, List, [], ◌∷◌, ◌++◌, map, any_of, keep_if, Bool, not, if◌then◌else◌, Option, str_eq,
}
use swelter.Prelude.Dict.{assign}
use swelter.Float.{Float}
use swelter.Aggregate.{exposure_parameter}

pub record Citation : Type 0 where
  pub source : String
  pub detail : String
  pub url : String
  pub last_verified : String

-- `seen.setdefault(key, None)`: the keys in the order in which they first came.
abbrev pub see : String → List String → List String
see key seen = if any_of (str_eq key) seen then seen else seen ++ key ∷ []

module _ (float : Float) where
  open float use {F}

  pub record HazardThreshold : Type 0 where
    pub key : String
    pub parameter : String
    pub floor : F
    pub citation : Citation

  pub record EventRule : Type 0 where
    pub parameter : String
    pub aqi_window : String
    pub floor : F
    pub rise : F
    pub lookback_hours : ℕ
    pub minimum_cells : ℕ
    pub citation : Citation

  pub record HazardPack : Type 0 where
    pub pack_id : String
    pub version : String
    pub label : String
    pub thresholds : List HazardThreshold
    pub aqi_window : String
    pub event_rule : Option EventRule
    pub guidance : List Citation

  unfoldable pub floors_from : List HazardThreshold → List (String × F) → List (String × F)
  unfolding assign
  floors_from [] floors = floors
  floors_from (t ∷ ts) floors = floors_from ts (assign str_eq t.key t.floor floors)

  unfoldable pub default_floors : HazardPack → List (String × F)
  unfolding floors_from
  default_floors pack = floors_from pack.thresholds []

  unfoldable pub parameters_from : List HazardThreshold → List String → List String
  parameters_from [] seen = seen
  parameters_from (t ∷ ts) seen = parameters_from ts (see t.parameter seen)

  unfoldable pub alerting_parameters : HazardPack → List String
  unfolding parameters_from
  alerting_parameters pack = parameters_from pack.thresholds []

  abbrev pub surface_parameters : HazardPack → List String
  surface_parameters pack =
      keep_if (λ p. not (str_eq p exposure_parameter)) (map (λ t. t.parameter) pack.thresholds)

  -- A frozenset, as the list of what is in it.
  abbrev pub threshold_keys : HazardPack → List String
  threshold_keys pack = map (λ t. t.key) pack.thresholds
