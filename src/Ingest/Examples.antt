-- ===== src/Ingest/Examples.antt =====
-- Runs of `ingest` at small payloads.
use swelter.Prelude.{
  str_eq, ℕ, ◌≡◌, refl, String, List, [], ◌∷◌, ◌++◌, Bool, true, Option, none, some, leb,
  if◌then◌else◌, inl,
}
use swelter.Prelude.Int.{ℤ, pos, negsuc, magnitude}
use swelter.Float.Whole.{whole}
use swelter.Models.{Observation, Parameter, parameters}
use swelter.Store.{Table, write}
use swelter.Store.Replay.{all_duplicates}
use swelter.Ingest.Values.{Fields, text, int, object, cons, nil, get}
use swelter.Ingest.{
  Canonical, reads, escapes, explode, first_of, readings, reading, collect, collect_one,
  parse_error, judge, observation, missing_node, take_payload, take_payloads, ingest, labelled,
  report, Batch,
}
use swelter.Ingest.Returns.{IsSettled, ingest-IsSettled}
use swelter.Ingest.Measured.{IsSound, explode-IsSound}
use swelter.Ingest.Account.{IsAccounted, ingest-IsAccounted, ingest_replay}

-- `float` of an integer, for floats up to a thousand.
abbrev small : ℤ → Option ℤ
small n = if leb (magnitude n) 1000 then some n else none

abbrev always : ℤ → Bool
always x = true

abbrev same_text : String → Canonical
same_text s = reads s

abbrev instant : String → ℕ
instant s = 0

abbrev hash_of : Observation whole → String
hash_of o = o.parameter

abbrev report_of : String → ℕ → Fields whole
report_of time value =
    cons "node_id" (text "n1") (cons "ts" (text time) (cons "temp_c" (int (pos value)) nil))

abbrev nameless : Fields whole
nameless = cons "temp_c" (int (pos 20)) nil

abbrev payloads : List (Fields whole)
payloads = report_of "t1" 21 ∷ nameless ∷ []

abbrev empty : Table whole
empty = record { rows = []; changes = 0 }

explode-IsSound_example :
    IsSound whole small always same_text
      (report_of "t1" 21)
      (explode whole small always same_text (report_of "t1" 21))
explode-IsSound_example = explode-IsSound whole small always same_text (report_of "t1" 21)

ingest-IsAccounted_example :
    IsAccounted whole small always same_text instant hash_of 2 empty
      (ingest whole small always same_text instant hash_of true payloads empty)
ingest-IsAccounted_example =
    ingest-IsAccounted whole small always same_text instant hash_of true payloads empty tt

abbrev warm : Parameter whole
warm = record { name = "temp_c"; unit = "degC"; valid_min = negsuc 39; valid_max = pos 60 }

-- The batch of the loop, with one payload accepted and one quarantined.
abbrev looped : Batch whole small always same_text
looped = record {
  accepted = 1;
  quarantined = 1;
  entries = record { reason = inl missing_node; payload = some (object nameless) } ∷ [];
  rows = observation whole small always same_text "n1" "t1" warm (pos 21) ∷ [];
  seen = "temp_c" ∷ [];
}

ingest_replay_example :
    let os = labelled whole small always same_text instant hash_of true looped.rows in
    let first = write whole hash_of os empty in
    (ingest whole small always same_text instant hash_of true payloads empty
      ≡ some (
        report whole small always same_text instant hash_of looped first.0,
        first.1,
        looped.entries,
      ))
    × (ingest whole small always same_text instant hash_of true payloads first.1
        ≡ some (
          report whole small always same_text instant hash_of looped
              (all_duplicates whole hash_of os),
          first.1,
          looped.entries,
        ))
unfolding parse_error explode first_of readings reading collect collect_one get take_payloads
    take_payload judge parameters
ingest_replay_example =
    ingest_replay whole small always same_text instant hash_of true payloads empty looped refl

-- A time before the year 1 is no time of the calendar.
abbrev early : String → Canonical
early s = if str_eq s "0001-01-01T00:00:00+01:00" then escapes else reads s

ingest-IsSettled_example :
    IsSettled whole small always early instant hash_of
      (payloads ++ report_of "0001-01-01T00:00:00+01:00" 20 ∷ payloads)
      (ingest whole small always early instant hash_of true
        (payloads ++ report_of "0001-01-01T00:00:00+01:00" 20 ∷ payloads)
        empty)
ingest-IsSettled_example =
    ingest-IsSettled whole small always early instant hash_of true
      (payloads ++ report_of "0001-01-01T00:00:00+01:00" 20 ∷ payloads) empty
