-- ===== src/Aggregate.antt =====
-- src/swelter/aggregate.py: CellReading, and the accumulators of `_bucket_observations`.
pub mod Cells
pub mod Placed
pub mod Fields
pub mod RolledUp
pub mod Complete
pub mod Surface
pub mod Newest
pub mod Derived
pub mod History
pub mod Whole
mod Examples
use Prim.Native.Char.{code}
use Prim.Native.String.{String}
use swelter.Prelude.{
  ℕ, List, [], ◌∷◌, Bool, true, false, not, ◌&&◌, ◌||◌, if◌then◌else◌, Option, none, some, str_eq,
  ◌==◌, any_of, keep_if,
}
use swelter.Prelude.Int.{ℤ}
use swelter.Prelude.Text.{join, text_lt}
use swelter.Prelude.Sort.{sort_by}
use swelter.Prelude.Group.{gather}
use swelter.Prelude.Dict.{assign, value_at}
use swelter.Float.{Float}
use swelter.Models.{
  Observation, Verdict, ok, range, spike, flatline, missing, is_trustworthy, is_unmappable,
  is_suspicious,
}
use swelter.Models.Exposure.{Component}

abbrev pub aqi_window_hourly : String
aqi_window_hourly = "hourly-mean"

abbrev pub aqi_window_nowcast : String
aqi_window_nowcast = "nowcast"

abbrev pub exposure_parameter : String
exposure_parameter = "exposure"

-- A cell, an hour and a parameter.
abbrev pub CellKey : Type 0
CellKey = String × String × String

abbrev pub same_key : CellKey → CellKey → Bool
same_key a b = str_eq a.0 b.0 && str_eq a.1 b.1 && str_eq a.2 b.2

-- `qc in flags`, for the verdicts as the text that they are in the source.
abbrev pub same_verdict : Verdict → Verdict → Bool
same_verdict ok ok = true
same_verdict range range = true
same_verdict spike spike = true
same_verdict flatline flatline = true
same_verdict missing missing = true
same_verdict v w = false

-- `tuple(sorted(set(flags)))`: the verdicts in the order of their texts.
unfoldable pub sorted_flags : List Verdict → List Verdict
sorted_flags flags =
    keep_if (λ v. any_of (same_verdict v) flags) (flatline ∷ missing ∷ ok ∷ range ∷ spike ∷ [])

-- The entries of a set, each once.
abbrev pub once : List String → List String
once [] = []
once (s ∷ ss) = if any_of (str_eq s) ss then once ss else s ∷ once ss

-- `sorted(set(texts))`
unfoldable pub sorted_texts : List String → List String
unfolding sort_by
sorted_texts texts = sort_by (λ a b. not (text_lt b a)) (once texts)

-- `" / ".join(texts)`
unfoldable pub joined : List String → String
unfolding join
joined [] = ""
joined (s ∷ []) = s
joined (s ∷ t ∷ r) = join s (join " / " (joined (t ∷ r)))

-- `text or None`
abbrev pub text_or_none : String → Option String
text_or_none s = if str_eq s "" then none else some s

-- The text before the next dot.
unfoldable pub before_dot : String → String
before_dot String.[] = String.[]
before_dot (String.◌∷◌ c s) = if code c == 46 then String.[] else String.◌∷◌ c (before_dot s)

-- `calibration.split(".")[1]`, where there is one.
unfoldable pub method_part : String → Option String
unfolding before_dot
method_part String.[] = none
method_part (String.◌∷◌ c s) =
    let rest = method_part s in if code c == 46 then some (before_dot s) else rest

module _ (float : Float) where
  open float use {F}

  -- What an `uncertainty_note` says.
  pub data Note : Type 0 where
    unknown_sigmas : ℕ → ℕ → Note
    nowcast_blend : Note
    both_bound : String → String → Note
    bounded_by : Component → String → Note → Note
    standard_error : F → Note
    provisional_bare bare : Note

  pub data Basis : Type 0 where
    calibrated raw : Basis

  pub record HistoryContext : Type 0 where
    pub percentile : F
    pub n_hours : ℕ
    pub window_start : Option String
    pub basis : Basis

  -- A context, or one of the three reasons why there is none; the thin one with its counts.
  pub data Placement : Type 0 where
    in_context : HistoryContext → Placement
    thin : ℕ → String → ℕ → ℕ → Placement
    ordinal_layer single_window_reading : Placement

  pub record CellReading : Type 0 where
    pub cell_id : String
    pub label : String
    pub lat : F
    pub lon : F
    pub parameter : String
    pub bucket : String
    pub mean : F
    pub n : ℕ
    pub provisional : Bool
    pub uncertainty : Option F
    pub mean_member_sigma : Option F
    pub aqi : Option ℤ
    pub category : Option String
    pub aqi_window : Option String
    pub heat_category : Option String
    pub air_category : Option String
    pub compound : Bool
    pub uncertainty_note : Option Note
    pub method : Option String
    pub reference : Option String
    pub qc_flags : List Verdict
    pub nodes : List String
    -- `history_context`, or `history_context_reason`
    pub history : Option Placement

  -- `defaultdict(list)`, and `defaultdict(set)` with what was added to each set.
  abbrev pub Lists : Type 0 → Type 0
  Lists V = List (CellKey × List V)

  pub record Buckets : Type 0 where
    pub trusted_vals : Lists F
    pub trusted_unc : Lists (Option F)
    pub trusted_methods : Lists String
    pub trusted_refs : Lists String
    pub provisional_vals : Lists F
    pub coords : List (String × (F × F))
    pub cell_nodes : List (String × List String)
    pub suspicious_vals : Lists F
    pub suspicious_flags : Lists Verdict

  abbrev pub no_buckets : Buckets
  no_buckets = record {
    trusted_vals = [];
    trusted_unc = [];
    trusted_methods = [];
    trusted_refs = [];
    provisional_vals = [];
    coords = [];
    cell_nodes = [];
    suspicious_vals = [];
    suspicious_flags = [];
  }

  -- `lists[key].append(value)`, under a test.
  unfoldable pub add_when : {V : Type 0} → Bool → CellKey → V → Lists V → Lists V
  unfolding gather
  add_when test key value lists = if test then gather same_key key value lists else lists

  -- An entry that is there is added.
  unfoldable pub add_found : {V : Type 0} → Bool → CellKey → Option V → Lists V → Lists V
  unfolding add_when
  add_found test key none lists = lists
  add_found test key (some value) lists = add_when test key value lists

  -- The text of a cell and the hour of a timestamp are parameters, as are the tables of the
  -- configuration: the coordinates of the placed nodes, the parameters wanted, the reference of a
  -- node and parameter, and the label of a monitor.
  pub record Setting : Type 0 where
    pub cell_name : F → F → String
    pub hour_bucket : String → String
    pub locations : List (String × (F × F))
    pub wanted : List String
    pub references : List ((String × String) × String)
    pub monitor_label : List (String × String)

  module _ (setting : Setting) where
    open setting use {cell_name, hour_bucket, locations, wanted, references, monitor_label}

    -- Where an observation is placed: not at all if it is not wanted, if its node is not placed, or
    -- if its value is impossible or absent.
    unfoldable pub destination : Observation float → Option (F × F)
    unfolding value_at
    destination o =
        if any_of (str_eq o.parameter) wanted && not (is_unmappable o.qc)
        then value_at str_eq o.node_id locations
        else none

    abbrev pub key_of : F × F → Observation float → CellKey
    key_of loc o = (cell_name loc.0 loc.1, hour_bucket o.timestamp, o.parameter)

    abbrev pub goes_trusted : Observation float → Bool
    goes_trusted o = is_trustworthy float o

    abbrev pub goes_suspicious : Observation float → Bool
    goes_suspicious o = not (is_trustworthy float o) && is_suspicious o.qc

    abbrev pub goes_provisional : Observation float → Bool
    goes_provisional o = not (is_trustworthy float o) && not (is_suspicious o.qc)

    -- `if ref: ... monitor_label.get(ref, ref)`
    unfoldable pub reference_name : Observation float → Option String
    unfolding value_at
    reference_name o =
        elim (value_at (λ a b. str_eq a.0 b.0 && str_eq a.1 b.1) (o.node_id, o.parameter)
          references) [
            | none ↦ none
            | some ref ↦ elim (value_at str_eq ref monitor_label) [
              | none ↦ text_or_none ref
              | some label ↦ if str_eq ref "" then none else some label
            ]
          ]

    unfoldable pub place_at : F × F → Buckets → Observation float → Buckets
    unfolding add_when add_found assign gather is_trustworthy method_part reference_name
    place_at loc b o =
        let key = key_of loc o in
        let trusted = goes_trusted o in
        record {
          trusted_vals = add_when trusted key o.value b.trusted_vals;
          trusted_unc = add_when trusted key o.uncertainty b.trusted_unc;
          trusted_methods = add_found trusted key (method_part o.calibration) b.trusted_methods;
          trusted_refs = add_found trusted key (reference_name o) b.trusted_refs;
          provisional_vals = add_when (goes_provisional o) key o.value b.provisional_vals;
          coords = assign str_eq key.0 loc b.coords;
          cell_nodes = gather str_eq key.0 o.node_id b.cell_nodes;
          suspicious_vals = add_when (goes_suspicious o) key o.value b.suspicious_vals;
          suspicious_flags = add_when (goes_suspicious o) key o.qc b.suspicious_flags;
        }

    unfoldable pub place_to : Option (F × F) → Buckets → Observation float → Buckets
    unfolding place_at
    place_to none b o = b
    place_to (some loc) b o = place_at loc b o

    -- One round of the loop.
    unfoldable pub place_one : Buckets → Observation float → Buckets
    unfolding destination place_to
    place_one b o = place_to (destination o) b o

    unfoldable pub bucket_from : List (Observation float) → Buckets → Buckets
    unfolding place_one
    bucket_from [] b = b
    bucket_from (o ∷ os) b = bucket_from os (place_one b o)

    unfoldable pub bucket_observations : List (Observation float) → Buckets
    unfolding bucket_from
    bucket_observations observations = bucket_from observations no_buckets
