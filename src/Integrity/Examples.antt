-- ===== src/Integrity/Examples.antt =====
-- The integrity checks at a small table.
use swelter.Prelude.{
  ℕ, zero, suc, arith, ◌≡◌, ◌↔◌, refl, String, List, [], ◌∷◌, All, Option, none, some, str_eq, true,
  false,
}
use swelter.Prelude.Text.{chars, join, text_lt, first_chars}
use swelter.Prelude.Text.Join.{chars-join}
use swelter.Prelude.Int.{ℤ, pos}
use swelter.Float.Whole.{whole}
use swelter.Models.{Observation, ok, construct}
use swelter.Store.{Table, Row, iter_rows, row_to_obs, hashed_rows}
use swelter.Prelude.Sort.{sort_by, insert_by}
use swelter.Integrity.{
  DayDigest, Line, day_line, head_line, daily_digests, head, last_day, history, verify_rows,
}
use swelter.Integrity.Evidence.{Evident, head-Evident}
use swelter.Integrity.Rows.{IsIntact, verify_rows-IsIntact}

abbrev stored : String → ℤ → String → Row whole
stored time value hash = record {
  stored = record {
    node_id = "n1";
    timestamp = time;
    parameter = "temp_c";
    value = value;
    unit = "degC";
    source = "native";
    calibration = "raw";
    qc = ok;
    uncertainty = none;
  };
  content_hash = hash;
}

abbrev hash_of : Observation whole → String
hash_of o = o.timestamp

-- The second row was changed in place.
abbrev archive : Table whole
archive = record { rows = stored "t1" (pos 20) "t1" ∷ stored "t2" (pos 21) "t9" ∷ []; changes = 2 }

-- A text cut or padded to a number of characters.
padded : ℕ → String → String
padded zero s = ""
padded (suc n) String.[] = join "0" (padded n "")
padded (suc n) (String.◌∷◌ c s) = String.◌∷◌ c (padded n s)

chars-padded : (n : ℕ) (s : String) → chars (padded n s) ≡ n
unfolding padded chars
chars-padded zero s = refl
chars-padded (suc n) String.[] = omega (arith, chars-join "0" (padded n ""), chars-padded n "")
chars-padded (suc n) (String.◌∷◌ c s) = omega (arith, chars-padded n s)

joined : List String → String
joined [] = "]"
joined (s ∷ ss) = join s (join "," (joined ss))

-- The same rows, written in the other order.
abbrev other : Table whole
other = record { rows = stored "t2" (pos 21) "t9" ∷ stored "t1" (pos 20) "t1" ∷ []; changes = 2 }

abbrev archive_rows : List (Observation whole × String)
archive_rows =
    ((stored "t1" (pos 20) "t1").stored, "t1") ∷ ((stored "t2" (pos 21) "t9").stored, "t9") ∷ []

head-Evident_example :
    Evident
      (padded 64)
      joined
      (history whole (padded 10) archive_rows)
      (history whole (padded 10) archive_rows)
unfolding iter_rows hashed_rows row_to_obs construct sort_by insert_by first_chars text_lt
    daily_digests
head-Evident_example =
    head-Evident (padded 64) joined (chars-padded 64) whole (padded 10) (chars-padded 10) archive
      other archive_rows archive_rows refl refl refl

verify_rows-IsIntact_example :
    (verify_rows whole hash_of archive ≡ some []) ↔ All (IsIntact whole hash_of) archive.rows
unfolding row_to_obs construct
verify_rows-IsIntact_example = verify_rows-IsIntact whole hash_of archive (refl, (refl, tt))

abbrev two_days : List DayDigest
two_days =
    record { date = "2026-07-01"; row_count = 2; digest = "a"; chain = "b" }
    ∷ record { date = "2026-07-02"; row_count = 1; digest = "c"; chain = "d" }
    ∷ []

abbrev line_text : Line → String
line_text (day_line d) = d.chain
line_text (head_line head days last_day) = "head"

abbrev parse_line : String → Option Line
parse_line s = elim (str_eq s "head") [
  | true ↦ some (head_line "d" 2 (some "2026-07-02"))
  | false ↦ none
]
