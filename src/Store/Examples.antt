-- ===== src/Store/Examples.antt =====
-- The store at small inputs: a backfill that is replayed, a rebuild and a filtered read.
use Prim.Native.Char.{Char, code}
use swelter.Prelude.{
  true, length, ℕ, false, Bool, ◌&&◌, leb, map, ◌≡◌, refl, String, List, [], ◌∷◌, Option, none,
  some,
}
use swelter.Prelude.Int.{ℤ, pos}
use swelter.Float.Whole.{whole}
use swelter.Models.{Observation, ok, is_calibrated, key, construct}
use swelter.Store.{
  Row, bound, row_to_obs, is_refused, Table, Query, row_of, write, drop_calibrated, read,
  latest_raw,
}
use swelter.Store.Migration.{
  Database, migrate_with_chain, migrate, migrate_rows, migrate_row, identity, matches_node,
  migration_required, insert_strictly,
}
use swelter.Store.Migration.Atomic.{IsAtomic, migrate_with_chain-IsAtomic}
use swelter.Store.Replay.{Written, write-Written, all_duplicates, write_replay}
use swelter.Store.Rebuild.{Dropped, drop_calibrated-Dropped, rebuild-latest_raw}
use swelter.Store.Reads.{Answered, read-Answered}

abbrev observed : String → String → Option ℤ → Observation whole
observed time version sigma = record {
  node_id = "n1";
  timestamp = time;
  parameter = "temp_c";
  value = pos 31;
  unit = "degC";
  source = "native";
  calibration = version;
  qc = ok;
  uncertainty = sigma;
}

abbrev hash_of : Observation whole → String
hash_of o = o.timestamp

abbrev same_text : String → Option String
same_text s = some s

abbrev morning : List (Observation whole)
morning = observed "t1" "raw" none ∷ observed "t2" "raw" none ∷ observed "t1" "raw" none ∷ []

abbrev evening : List (Observation whole)
evening = observed "t3" "raw" none ∷ observed "t2" "raw" none ∷ []

abbrev corrected : List (Observation whole)
corrected = observed "t1" "v2" (some (pos 1)) ∷ []

abbrev empty : Table whole
empty = record { rows = []; changes = 0 }

abbrev filled : Table whole
filled = record {
  rows =
      row_of whole hash_of (observed "t0" "raw" none)
      ∷ row_of whole hash_of (observed "t0" "v1" (some (pos 2)))
      ∷ [];
  changes = 2;
}

write-Written_example : Written whole hash_of morning empty (write whole hash_of morning empty)
write-Written_example = write-Written whole hash_of morning empty tt

write_replay_example :
    let before = write whole hash_of morning filled in
    let between = (write whole hash_of evening before.1).1 in
    write whole hash_of morning between ≡ (all_duplicates whole hash_of morning, between)
write_replay_example = write_replay whole hash_of morning evening filled

drop_calibrated-Dropped_example : Dropped whole same_text filled (drop_calibrated whole filled)
unfolding row_of key
drop_calibrated-Dropped_example = drop_calibrated-Dropped whole same_text filled (refl, (refl, tt))

rebuild-latest_raw_example :
    latest_raw whole same_text (write whole hash_of corrected (drop_calibrated whole filled).1).1
    ≡ latest_raw whole same_text filled
unfolding is_calibrated
rebuild-latest_raw_example = rebuild-latest_raw whole same_text hash_of corrected filled (refl, tt)

abbrev since_t0 : Query
since_t0 = record {
  parameter = some "temp_c";
  node_id = none;
  calibration = none;
  since = some "t0";
  until = none;
}

read-Answered_example :
    Answered whole same_text since_t0 (some "t0") none filled (read whole same_text since_t0 filled)
unfolding bound row_of row_to_obs construct
read-Answered_example =
    read-Answered whole same_text since_t0 (some "t0") none filled refl refl (refl, (refl, tt))

abbrev is_ascii_digit : Char → Bool
is_ascii_digit c = leb 48 (code c) && leb (code c) 57

-- A table from before sources: an OpenAQ node, and a model value beside a native one.
abbrev legacy : Database is_ascii_digit whole
legacy = record {
  columns = "node_id" ∷ "timestamp" ∷ "parameter" ∷ "value" ∷ "unit" ∷ "calibration" ∷ [];
  primary_key = "node_id" ∷ "timestamp" ∷ "parameter" ∷ "calibration" ∷ [];
  has_stale_table = false;
  table = record {
    rows =
        row_of whole hash_of (record (observed "t1" "raw" none) { node_id = "oaq-7" })
        ∷ row_of whole hash_of (observed "t1" "raw" none)
        ∷ row_of whole hash_of (observed "t1" "copernicus-cams" (some (pos 1)))
        ∷ [];
    changes = 3;
  };
}

abbrev row_count : Table whole → Option ℕ
row_count t = some (length t.rows)

migrate_with_chain-IsAtomic_example :
    IsAtomic is_ascii_digit whole hash_of row_count true none legacy
      (some 0)
      (migrate_with_chain is_ascii_digit whole hash_of row_count true none legacy (some 0))
migrate_with_chain-IsAtomic_example =
    migrate_with_chain-IsAtomic is_ascii_digit whole hash_of row_count true none legacy (some 0)

-- All three rows are kept, under the sources of their nodes.
migrated_sources :
    map
      (λ (r : Row whole). r.stored.source)
      (migrate_with_chain is_ascii_digit whole hash_of row_count true none legacy
        (some 0)).1.table.rows
    ≡ "openaq" ∷ "native" ∷ "openmeteo" ∷ []
unfolding migrate_with_chain migrate migrate_rows migrate_row identity matches_node
    migration_required insert_strictly is_refused row_of construct key
migrated_sources = refl
