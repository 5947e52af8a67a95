-- ===== src/Store.antt =====
-- src/swelter/store.py: the table of observations, its writes and its reads. A table is the list of
-- its rows in the order of their insertion. SQLite stores a float that is not a number as NULL: the
-- column `value` refuses it, so that INSERT OR IGNORE skips the row.
pub mod Keys
pub mod Replay
pub mod Rebuild
pub mod Wanted
pub mod Reads
pub mod Migration
mod Examples
use swelter.Prelude.{
  ℕ, suc, ◌+◌, ◌-◌, ◌≡◌, String, List, [], ◌∷◌, ◌++◌, map, length, keep_if, any_of, Bool, true,
  false, ◌&&◌, ◌||◌, not, if◌then◌else◌, Option, none, some, str_eq,
}
use swelter.Prelude.Text.{text_lt, first_chars}
use swelter.Prelude.Sort.{sort_by}
use swelter.Float.{Float}
use swelter.Models.{Observation, Key, key, construct, raw}

pub record WriteResult : Type 0 where
  pub written : ℕ
  pub duplicates : ℕ

abbrev pub total : WriteResult → ℕ
total r = r.written + r.duplicates

-- The filters of `read`.
pub record Query : Type 0 where
  pub parameter : Option String
  pub node_id : Option String
  pub calibration : Option String
  pub since : Option String
  pub until : Option String

abbrev pub key_eq : Key → Key → Bool
key_eq (a, b, c, d, e) (v, w, x, y, z) =
    str_eq a v && (str_eq b w && (str_eq c x && (str_eq d y && str_eq e z)))

abbrev pub wants : Option String → String → Bool
wants none s = true
wants (some t) s = str_eq s t

-- `SELECT DISTINCT`
abbrev pub distinct : List String → List String
distinct [] = []
distinct (s ∷ ss) = if any_of (str_eq s) ss then distinct ss else s ∷ distinct ss

module _ (float : Float) where
  open float use {F, is_nan}

  pub record Row : Type 0 where
    pub stored : Observation float
    pub content_hash : String

  -- The rows and the connection's count of changed rows.
  pub record Table : Type 0 where
    pub rows : List Row
    pub changes : ℕ

  abbrev pub row_key : Row → Key
  row_key r = key float r.stored

  abbrev pub has_key : Key → List Row → Bool
  has_key k rows = any_of (λ r. key_eq (row_key r) k) rows

  -- What a REAL column holds of a float.
  abbrev pub nullable : Option F → Option F
  nullable none = none
  nullable (some x) = if is_nan x then none else some x

  -- A value that is not a number violates NOT NULL, a key that is there the primary key.
  unfoldable pub is_refused : Row → List Row → Bool
  is_refused r rows = is_nan r.stored.value || has_key (row_key r) rows

  -- `INSERT OR IGNORE` of one row.
  unfoldable pub insert_or_ignore : Row → Table → Table
  unfolding is_refused
  insert_or_ignore r t =
      if is_refused r t.rows then t else record { rows = t.rows ++ r ∷ []; changes = suc t.changes }

  unfoldable pub insert_all : List Row → Table → Table
  unfolding insert_or_ignore
  insert_all [] t = t
  insert_all (r ∷ rs) t = insert_all rs (insert_or_ignore r t)

  -- The order `node_id, parameter, timestamp`; SQLite compares texts by their code points.
  abbrev pub by_name : Row → Row → Bool
  by_name a b =
      text_lt a.stored.node_id b.stored.node_id
      || (str_eq a.stored.node_id b.stored.node_id
          && (text_lt a.stored.parameter b.stored.parameter
              || (str_eq a.stored.parameter b.stored.parameter
                  && not (text_lt b.stored.timestamp a.stored.timestamp))))

  -- `_row_to_obs`: it raises on a calibrated row that has no sigma.
  unfoldable pub row_to_obs : Row → Option (Observation float)
  row_to_obs r = construct float r.stored

  unfoldable pub rows_to_obs : List Row → Option (List (Observation float))
  unfolding row_to_obs
  rows_to_obs [] = some []
  rows_to_obs (r ∷ rs) =
      let rest = rows_to_obs rs in
      elim (row_to_obs r) [
        | none ↦ none
        | some o ↦ elim rest [ none ↦ none | some os ↦ some (o ∷ os) ]
      ]

  -- `all`
  unfoldable pub read_all : Table → Option (List (Observation float))
  unfolding rows_to_obs
  read_all t = rows_to_obs (sort_by by_name t.rows)

  -- `ORDER BY substr(timestamp, 1, 10), node_id, parameter, timestamp`
  abbrev pub by_day : Row → Row → Bool
  by_day a b =
      let day = first_chars 10 a.stored.timestamp in
      let other = first_chars 10 b.stored.timestamp in
      text_lt day other || (str_eq day other && by_name a b)

  -- Each row with the hash that is stored.
  unfoldable pub hashed_rows : List Row → Option (List (Observation float × String))
  unfolding row_to_obs
  hashed_rows [] = some []
  hashed_rows (r ∷ rs) =
      let rest = hashed_rows rs in
      elim (row_to_obs r) [
        | none ↦ none
        | some o ↦ elim rest [ none ↦ none | some os ↦ some ((o, r.content_hash) ∷ os) ]
      ]

  unfoldable pub iter_rows : Table → Option (List (Observation float × String))
  unfolding hashed_rows
  iter_rows t = hashed_rows (sort_by by_day t.rows)

  unfoldable pub count : Table → ℕ
  count t = length t.rows

  unfoldable pub node_ids : Table → List String
  node_ids t = sort_by (λ a b. not (text_lt b a)) (distinct (map (λ r. r.stored.node_id) t.rows))

  abbrev pub is_raw : Row → Bool
  is_raw r = str_eq r.stored.calibration raw

  -- `DELETE FROM observations WHERE calibration != 'raw'`, with the number of rows that it deletes.
  unfoldable pub drop_calibrated : Table → ℕ × Table
  drop_calibrated t =
      let kept = keep_if is_raw t.rows in
      let after = t.changes + (length t.rows - length kept) in
      (after - t.changes, record { rows = kept; changes = after })

  -- The hash of an observation is a parameter: SHA-256 of its JSON.
  module _ (content_hash : Observation float → String) where
    unfoldable pub row_of : Observation float → Row
    row_of o = record {
      stored = record o { uncertainty = nullable o.uncertainty };
      content_hash = content_hash o;
    }

    unfoldable pub write : List (Observation float) → Table → WriteResult × Table
    unfolding insert_all row_of
    write [] t = (record { written = 0; duplicates = 0 }, t)
    write (o ∷ os) t =
        let rows = map row_of (o ∷ os) in
        let after = insert_all rows t in
        let written = after.changes - t.changes in
        (record { written = written; duplicates = length rows - written }, after)

  -- `format_timestamp(parse_timestamp(bound))` is a parameter: none if the bound does not parse.
  module _ (canonical : String → Option String) where
    -- A bound that is not given stays so.
    unfoldable pub bound : Option String → Option (Option String)
    bound none = some none
    bound (some s) = elim (canonical s) [ none ↦ none | some c ↦ some (some c) ]

    abbrev pub at_least : Option String → String → Bool
    at_least none s = true
    at_least (some low) s = not (text_lt s low)

    abbrev pub at_most : Option String → String → Bool
    at_most none s = true
    at_most (some high) s = not (text_lt high s)

    -- The WHERE clause.
    unfoldable pub matches : Query → Option String → Option String → Row → Bool
    matches q since until r =
        wants q.parameter r.stored.parameter
        && (wants q.node_id r.stored.node_id
            && (wants q.calibration r.stored.calibration
                && (at_least since r.stored.timestamp && at_most until r.stored.timestamp)))

    unfoldable pub read : Query → Table → Option (List (Observation float))
    unfolding bound matches rows_to_obs
    read q t = elim (bound q.since) [
      | none ↦ none
      | some since ↦ elim (bound q.until) [
        | none ↦ none
        | some until ↦ rows_to_obs (sort_by by_name (keep_if (matches q since until) t.rows))
      ]
    ]

    unfoldable pub latest_raw : Table → Option (List (Observation float))
    unfolding read
    latest_raw t =
        read
          (record {
            parameter = none;
            node_id = none;
            calibration = some raw;
            since = none;
            until = none;
          })
          t
