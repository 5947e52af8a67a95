-- ===== src/Ingest.antt =====
-- src/swelter/ingest.py: payloads are validated, exploded to observations, labelled and stored. The
-- text of JSON, `float` of an integer (which raises if it is too large), `math.isfinite` and the
-- canonical form of a timestamp are parameters. A `none` result of a run stands for a raise.
pub mod Values
pub mod Measured
pub mod Account
pub mod Returns
mod Examples
use swelter.Prelude.{
  ℕ, suc, ◌+◌, ◌≡◌, String, List, [], ◌∷◌, ◌++◌, length, any_of, Bool, true, false, not, ◌&&◌, ◌||◌,
  if◌then◌else◌, Option, none, some, str_eq, ◌⊎◌, inl, inr,
}
use swelter.Prelude.Int.{ℤ}
use swelter.Float.{Float}
use swelter.Models.{Observation, Parameter, parameters, ok, raw, source_native}
use swelter.Qc.Apply.{apply}
use swelter.Store.{Table, WriteResult, write}
use swelter.Ingest.Values.{Json, Fields, get, text, int, number, object, null, is_truthy, nil, cons}

pub data Reason : Type 0 where
  missing_node missing_timestamp no_parameters : Reason
  unparseable_timestamp : String → Reason

-- What the canonical form of a timestamp comes to: a text, a ValueError or a TypeError, or another
-- exception, as the OverflowError of a time before the year 1.
pub data Canonical : Type 0 where
  reads : String → Canonical
  refuses escapes : Canonical

pub record IngestResult : Type 0 where
  pub accepted_payloads : ℕ
  pub observations_written : ℕ
  pub duplicates : ℕ
  pub quarantined : ℕ
  pub parameters_seen : List String

-- `observations_seen`
abbrev pub observations_seen : IngestResult → ℕ
observations_seen r = r.observations_written + r.duplicates

abbrev pub timestamp_keys : List String
timestamp_keys = "timestamp" ∷ "ts" ∷ "time" ∷ []

abbrev pub node_keys : List String
node_keys = "node_id" ∷ "node" ∷ "id" ∷ []

-- `set.update`
abbrev pub add_all : List String → List String → List String
add_all seen [] = seen
add_all seen (s ∷ ss) = add_all (if any_of (str_eq s) seen then seen else s ∷ seen) ss

module _ (float : Float) where
  open float use {F}

  -- `payload[key] not in (None, "")`
  abbrev is_given : Json float → Bool
  is_given null = false
  is_given (text s) = not (str_eq s "")
  is_given j = true

  unfoldable pub first_of : Fields float → List String → Option (Json float)
  first_of payload [] = none
  first_of payload (k ∷ ks) =
      let rest = first_of payload ks in
      elim (get float k payload) [ none ↦ rest | some j ↦ if is_given j then some j else rest ]

  unfoldable pub readings : Fields float → Fields float
  readings payload = elim (get float "readings" payload) [
    | some j ↦ elim j [ object nested ↦ nested | _ ↦ payload ]
    | none ↦ payload
  ]

  -- The text of a value that is a text and not empty.
  abbrev pub as_text : Option (Json float) → Option String
  as_text none = none
  as_text (some (text s)) = some s
  as_text (some j) = none

  -- What `explode` does with a payload.
  pub data Exploded : Type 0 where
    observations : List (Observation float) → Exploded
    quarantine : Reason → Exploded
    raises : Exploded

  -- What a reading comes to: skipped, a number, or the raise of `float`.
  pub data Reading : Type 0 where
    skipped too_large : Reading
    measured : F → Reading

  module _ (of_int : ℤ → Option F) (is_finite : F → Bool) (canonical : String → Canonical) where
    abbrev pub if_finite : F → Reading
    if_finite x = if is_finite x then measured x else skipped

    unfoldable pub reading : Option (Json float) → Reading
    reading none = skipped
    reading (some (number x)) = if_finite x
    reading (some (int n)) = elim (of_int n) [ none ↦ too_large | some x ↦ if_finite x ]
    reading (some j) = skipped

    abbrev pub observation : String → String → Parameter float → F → Observation float
    observation node timestamp p value = record {
      node_id = node;
      timestamp = timestamp;
      parameter = p.name;
      value = value;
      unit = p.unit;
      source = source_native;
      calibration = raw;
      qc = ok;
      uncertainty = none;
    }

    -- One round of the loop over the parameters, with what the rounds behind it collect; none if
    -- it raises.
    unfoldable pub collect_one :
        String
        → String
        → Parameter float
        → Reading
        → Option (List (Observation float))
        → Option (List (Observation float))
    collect_one node timestamp p skipped rest = rest
    collect_one node timestamp p too_large rest = none
    collect_one node timestamp p (measured x) none = none
    collect_one node timestamp p (measured x) (some os) = some (observation node timestamp p x ∷ os)

    unfoldable pub collect :
        String → String → Fields float → List (Parameter float) → Option (List (Observation float))
    unfolding reading collect_one
    collect node timestamp values [] = some []
    collect node timestamp values (p ∷ ps) =
        collect_one node timestamp p (reading (get float p.name values))
          (collect node timestamp values ps)

    -- `if not observations`
    abbrev pub collected : Option (List (Observation float)) → Exploded
    collected none = raises
    collected (some []) = quarantine no_parameters
    collected (some (o ∷ os)) = observations (o ∷ os)

    unfoldable pub explode : Fields float → Exploded
    unfolding first_of readings collect
    explode payload = elim (as_text (first_of payload node_keys)) [
      | none ↦ quarantine missing_node
      | some node ↦ elim (as_text (first_of payload timestamp_keys)) [
        | none ↦ quarantine missing_timestamp
        | some written ↦ elim (canonical written) [
          | refuses ↦ quarantine (unparseable_timestamp written)
          | escapes ↦ raises
          | reads timestamp ↦
              collected (collect node timestamp (readings payload) (parameters float))
        ]
      ]
    ]

    -- A line of quarantine.jsonl: the reason, which a payload that did not parse brings itself.
    pub record Entry : Type 0 where
      pub reason : Reason ⊎ Json float
      pub payload : Option (Json float)

    -- The variables of the loop of `ingest`.
    pub record Batch : Type 0 where
      pub accepted : ℕ
      pub quarantined : ℕ
      pub entries : List Entry
      pub rows : List (Observation float)
      pub seen : List String

    abbrev pub rejected : Entry → Batch → Batch
    rejected e b = record b { quarantined = suc b.quarantined; entries = b.entries ++ e ∷ [] }

    abbrev names_of : List (Observation float) → List String
    names_of [] = []
    names_of (o ∷ os) = o.parameter ∷ names_of os

    abbrev pub accepted_with : List (Observation float) → Batch → Batch
    accepted_with os b = record b {
      accepted = suc b.accepted;
      rows = b.rows ++ os;
      seen = add_all b.seen (names_of os);
    }

    -- `parse_error = payload.get("__parse_error__")`, if it is truthy.
    unfoldable pub parse_error : Fields float → Option (Json float)
    parse_error payload = elim (get float "__parse_error__" payload) [
      | none ↦ none
      | some j ↦ if is_truthy float j then some j else none
    ]

    -- A payload with its parse error, or with what `explode` does with it.
    unfoldable pub judge : Fields float → Option (Json float) → Exploded → Batch → Option Batch
    judge payload (some j) x b =
        some (rejected (record { reason = inr j; payload = get float "__raw__" payload }) b)
    judge payload none (observations os) b = some (accepted_with os b)
    judge payload none (quarantine r) b =
        some (rejected (record { reason = inl r; payload = some (object payload) }) b)
    judge payload none raises b = none

    -- One round of the loop; none if it raises.
    unfoldable pub take_payload : Fields float → Batch → Option Batch
    unfolding explode parse_error judge
    take_payload payload b = judge payload (parse_error payload) (explode payload) b

    -- The rounds behind one that made a batch.
    abbrev pub and_then : (Batch → Option Batch) → Option Batch → Option Batch
    and_then f none = none
    and_then f (some b) = f b

    unfoldable pub take_payloads : List (Fields float) → Batch → Option Batch
    unfolding take_payload
    take_payloads [] b = some b
    take_payloads (p ∷ ps) b = and_then (take_payloads ps) (take_payload p b)

    abbrev pub new_batch : Batch
    new_batch = record { accepted = 0; quarantined = 0; entries = []; rows = []; seen = [] }

    module _ (instant : String → ℕ) (content_hash : Observation float → String) where
      -- `qc.apply` if `run_qc`.
      abbrev pub labelled : Bool → List (Observation float) → List (Observation float)
      labelled run_qc os = if run_qc then apply float instant os else os

      abbrev pub report : Batch → WriteResult → IngestResult
      report b result = record {
        accepted_payloads = b.accepted;
        observations_written = result.written;
        duplicates = result.duplicates;
        quarantined = b.quarantined;
        parameters_seen = b.seen;
      }

      -- The end of a run, from the batch of its loop.
      unfoldable pub finish :
          Bool → Table float → Option Batch → Option (IngestResult × Table float × List Entry)
      finish run_qc t none = none
      finish run_qc t (some b) =
          let (result, after) = write float content_hash (labelled run_qc b.rows) t in
          some (report b result, after, b.entries)

      -- The result, the table and the lines for quarantine.jsonl.
      unfoldable pub ingest :
          Bool
          → List (Fields float)
          → Table float
          → Option (IngestResult × Table float × List Entry)
      unfolding take_payloads finish
      ingest run_qc payloads t = finish run_qc t (take_payloads payloads new_batch)

  -- The payloads of a file: `strip` and `loads` are parameters.
  module _ (strip : String → String) (loads : String → Option (Json float)) where
    abbrev marker : String → String → Fields float
    marker reason line = cons "__parse_error__" (text reason) (cons "__raw__" (text line) nil)

    abbrev parsed : String → Option (Json float) → Fields float
    parsed line none = marker "unparseable JSON line" line
    parsed line (some (object fields)) = fields
    parsed line (some j) = marker "JSON line is not an object" line

    unfoldable pub read_jsonl : List String → List (Fields float)
    read_jsonl [] = []
    read_jsonl (raw_line ∷ rest) =
        let line = strip raw_line in
        let payloads = read_jsonl rest in
        if str_eq line "" then payloads else parsed line (loads line) ∷ payloads
