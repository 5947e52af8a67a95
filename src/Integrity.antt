-- ===== src/Integrity.antt =====
-- src/swelter/integrity.py: the check of stored hashes and the chain of daily digests.
-- SHA-256, JSON text and the day of a timestamp are parameters.
pub mod Evidence
pub mod Rows
pub mod File
mod Examples
use swelter.Prelude.{
  ℕ, ◌≡◌, String, List, [], ◌∷◌, ◌++◌, map, length, keep_if, Bool, true, false, not, if◌then◌else◌,
  Option, none, some, str_eq,
}
use swelter.Prelude.Text.{text_lt, join}
use swelter.Prelude.Sort.{sort_by}
use swelter.Prelude.Group.{group_from, gather}
use swelter.Float.{Float}
use swelter.Models.{Observation}
use swelter.Store.{Table, iter_rows}

pub record DayDigest : Type 0 where
  pub date : String
  pub row_count : ℕ
  pub digest : String
  pub chain : String

pub record Mismatch : Type 0 where
  pub node_id : String
  pub timestamp : String
  pub parameter : String
  pub calibration : String
  pub expected : String
  pub actual : String

-- A line of digests.jsonl.
pub data Line : Type 0 where
  day_line : DayDigest → Line
  head_line : (head : String) (days : ℕ) (last_day : Option String) → Line

abbrev pub text_le : String → String → Bool
text_le s t = not (text_lt t s)

-- The last entry, or the given one.
abbrev pub last_or {ℓ} : {A : Type ℓ} → A → List A → A
last_or d [] = d
last_or d (x ∷ xs) = last_or x xs

abbrev pub map_option {ℓ κ} : {A : Type ℓ} {B : Type κ} → (A → B) → Option A → Option B
map_option f none = none
map_option f (some a) = some (f a)

module _ (float : Float) (content_hash : Observation float → String) where
  unfoldable pub mismatches : List (Observation float × String) → List Mismatch
  mismatches [] = []
  mismatches ((obs, stored_hash) ∷ rest) =
      let actual = content_hash obs in
      let found = mismatches rest in
      if str_eq actual stored_hash
      then found
      else (record {
        node_id = obs.node_id;
        timestamp = obs.timestamp;
        parameter = obs.parameter;
        calibration = obs.calibration;
        expected = stored_hash;
        actual = actual;
      })
        ∷ found

  unfoldable pub verify_rows : Table float → Option (List Mismatch)
  unfolding mismatches
  verify_rows t = map_option mismatches (iter_rows float t)

-- The hashes of the rows under their days.
module _ (float : Float) (day_of : String → String) where
  unfoldable pub by_day :
      List (String × List String) → List (Observation float × String) → List (String × List String)
  by_day days [] = days
  by_day days ((obs, stored_hash) ∷ rest) =
      by_day (gather str_eq (day_of obs.timestamp) stored_hash days) rest

  abbrev day_le : String × List String → String × List String → Bool
  day_le a b = text_le a.0 b.0

  -- The days in their order, each with its hashes in theirs.
  unfoldable pub history : List (Observation float × String) → List (String × List String)
  unfolding by_day
  history rows = map (λ d. (d.0, sort_by text_le d.1)) (sort_by day_le (by_day [] rows))

module _ (sha256 : String → String) (canonical : List String → String) where
  -- The loop over the days, from the chain so far.
  unfoldable pub digests_from : String → List (String × List String) → List DayDigest
  digests_from chain [] = []
  digests_from chain ((day, hashes) ∷ days) =
      let digest = sha256 (canonical hashes) in
      let next = sha256 (join (join chain day) digest) in
      (record { date = day; row_count = length hashes; digest = digest; chain = next })
      ∷ digests_from next days

  module _ (float : Float) (day_of : String → String) where
    unfoldable pub daily_digests : Table float → Option (List DayDigest)
    unfolding history digests_from
    daily_digests t =
        map_option (λ rows. digests_from "" (history float day_of rows)) (iter_rows float t)

-- `digests[-1].chain if digests else ""`
unfoldable pub head : List DayDigest → String
head [] = ""
head (d ∷ ds) = (last_or d ds).chain

-- `digests[-1].date if digests else None`
unfoldable pub last_day : List DayDigest → Option String
last_day [] = none
last_day (d ∷ ds) = some (last_or d ds).date

module _ (dumps : Line → String) (loads : String → Option Line) (is_blank : String → Bool) where
  -- The lines of digests.jsonl.
  unfoldable pub write_digests : List DayDigest → List String
  unfolding head last_day
  write_digests digests =
      map (λ d. dumps (day_line d)) digests
      ++ dumps (head_line (head digests) (length digests) (last_day digests)) ∷ []

  -- A file that is missing or that does not parse has no head; the last line that is not blank is
  -- read otherwise.
  unfoldable pub read_head : Option (List String) → Option Line
  read_head none = none
  read_head (some lines) = elim (keep_if (λ l. not (is_blank l)) lines) [
    | [] ↦ none
    | l ∷ ls ↦ loads (last_or l ls)
  ]
