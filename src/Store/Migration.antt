-- ===== src/Store/Migration.antt =====
-- src/swelter/store.py: the migration of an older table to keys with a source.
-- A failure is `none`: the transaction is rolled back then. `\d` of the patterns is a parameter.
pub mod Atomic
use Prim.Native.Char.{Char}
use Prim.Native.Char.{code}
use swelter.Prelude.{
  ℕ, ◌+◌, ◌≡◌, String, List, [], ◌∷◌, ◌++◌, map, length, any_of, Bool, true, false, not, ◌&&◌, ◌||◌,
  if◌then◌else◌, Option, none, some, str_eq, ◌==◌,
}
use swelter.Float.{Float}
use swelter.Models.{Observation, construct, raw, source_native}
use swelter.Store.{Row, Table, is_refused, row_of}

abbrev source_openaq : String
source_openaq = "openaq"

abbrev source_openmeteo : String
source_openmeteo = "openmeteo"

abbrev source_sensor_community : String
source_sensor_community = "sensor-community"

abbrev legacy_marker : String
legacy_marker = "copernicus-cams"

-- `_EXPECTED_PRIMARY_KEY`
abbrev pub expected_primary_key : List String
expected_primary_key = "node_id" ∷ "timestamp" ∷ "parameter" ∷ "source" ∷ "calibration" ∷ []

abbrev pub names_eq : List String → List String → Bool
names_eq [] [] = true
names_eq [] (t ∷ ts) = false
names_eq (s ∷ ss) [] = false
names_eq (s ∷ ss) (t ∷ ts) = str_eq s t && names_eq ss ts

module _ (is_digit : Char → Bool) where
  abbrev digits_only : String → Bool
  digits_only String.[] = true
  digits_only (String.◌∷◌ c s) = is_digit c && digits_only s

  -- A full match of the prefix and one digit or more.
  unfoldable pub matches_node : String → String → Bool
  matches_node String.[] String.[] = false
  matches_node String.[] (String.◌∷◌ c s) = is_digit c && digits_only s
  matches_node (String.◌∷◌ p ps) String.[] = false
  matches_node (String.◌∷◌ p ps) (String.◌∷◌ c s) = (code p == code c) && matches_node ps s

  module _ (float : Float) where
    open float use {is_nan}

    -- The table of observations with its columns and its primary key, and whether a table of an
    -- earlier migration is left. Without a source column the source of a row is not read.
    pub record Database : Type 0 where
      pub columns : List String
      pub primary_key : List String
      pub has_stale_table : Bool
      pub table : Table float

    abbrev pub has_source : Database → Bool
    has_source db = any_of (str_eq "source") db.columns

    unfoldable pub migration_required : Database → Bool
    migration_required db =
        not (has_source db) || not (names_eq db.primary_key expected_primary_key)

    -- The source and the calibration of a row.
    unfoldable pub identity : Bool → Observation float → Option (String × String)
    unfolding matches_node
    identity known o =
        let source = if known then o.source else source_native in
        if str_eq o.calibration legacy_marker
        then if not known || (str_eq source source_native || str_eq source source_openmeteo)
          then some (source_openmeteo, raw)
          else none
        else if not known && matches_node "oaq-" o.node_id
        then some (source_openaq, o.calibration)
        else if not known && matches_node "sc-" o.node_id
        then some (source_sensor_community, o.calibration)
        else some (source, o.calibration)

    unfoldable pub migrate_row : Bool → Observation float → Option (Observation float)
    unfolding identity construct
    migrate_row known o = elim (identity known o) [
      | none ↦ none
      | some (source, calibration) ↦
          construct float (record o { source = source; calibration = calibration })
    ]

    unfoldable pub migrate_rows : Bool → List (Row float) → Option (List (Observation float))
    unfolding migrate_row
    migrate_rows known [] = some []
    migrate_rows known (r ∷ rs) =
        let rest = migrate_rows known rs in
        elim (migrate_row known r.stored) [
          | none ↦ none
          | some o ↦ elim rest [ none ↦ none | some os ↦ some (o ∷ os) ]
        ]

    -- The database with the new table in place of the old one.
    abbrev pub rebuilt : Database → List (Row float) → Database
    rebuilt db rows = record {
      columns =
          "node_id" ∷ "timestamp" ∷ "parameter" ∷ "value" ∷ "unit" ∷ "source" ∷ "calibration" ∷ "qc"
          ∷ "uncertainty" ∷ "content_hash" ∷ [];
      primary_key = expected_primary_key;
      has_stale_table = false;
      table = record { rows = rows; changes = db.table.changes + length rows };
    }

    module _ (content_hash : Observation float → String) where
      -- `INSERT` without `OR IGNORE`: a row that violates a constraint fails.
      unfoldable pub insert_strictly :
          List (Observation float) → List (Row float) → Option (List (Row float))
      unfolding is_refused row_of
      insert_strictly [] rows = some rows
      insert_strictly (o ∷ os) rows =
          let r = row_of float content_hash o in
          let rest = insert_strictly os (rows ++ r ∷ []) in
          if is_refused float r rows then none else rest

      -- `_migrate_source_identity` where a migration is required.
      unfoldable pub migrate : Database → Option Database
      unfolding migrate_rows insert_strictly
      migrate db = elim (migrate_rows (has_source db) db.table.rows) [
        | none ↦ none
        | some os ↦ if db.has_stale_table then none else elim (insert_strictly os []) [
          | none ↦ none
          | some rows ↦
              if not (length rows == length db.table.rows) then none else some (rebuilt db rows)
        ]
      ]

      -- `_migrate_source_identity_with_integrity_chain`: the database and the digest file, with
      -- whether it failed. Parameters are the new digests, none if they cannot be written; whether
      -- the commit succeeds; and what a failing `write_bytes` leaves of the digest file that it was
      -- to restore, none if it does not fail.
      module _ {ℓ} {File : Type ℓ} (new_digests : Table float → Option File) (commits : Bool)
          (left_behind : Option File) where
        abbrev pub restored : File → File
        restored old = elim left_behind [ none ↦ old | some damaged ↦ damaged ]

        unfoldable pub migrate_with_chain : Database → Option File → Bool × Database × Option File
        unfolding migrate migration_required
        migrate_with_chain db file =
            if not (migration_required db) then (false, db, file) else elim (migrate db) [
              | none ↦ (true, db, file)
              | some new ↦ elim file [
                | none ↦ if commits then (false, new, none) else (true, db, none)
                | some old ↦ elim (new_digests new.table) [
                  | none ↦ (true, db, some (restored old))
                  | some digests ↦
                      if commits
                      then (false, new, some digests)
                      else (true, db, some (restored old))
                ]
              ]
            ]
