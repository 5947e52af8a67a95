-- ===== src/Integrity/File.antt =====
-- The head record of digests.jsonl: what `read_head` reads of what `write_digests` wrote.
use swelter.Prelude.{
  ◌≡◌, refl, ap, ◌∙◌, String, List, [], ◌∷◌, ◌++◌, map, length, keep_if, keep_if-append, Bool,
  false, not, Option, none, some,
}
use swelter.Integrity.{
  DayDigest, Line, day_line, head_line, last_or, head, last_day, write_digests, read_head,
}

-- `lines[-1]` of the lines that are not blank.
read_last : (String → Option Line) → List String → Option Line
read_last loads [] = none
read_last loads (l ∷ ls) = loads (last_or l ls)

last_or-append : (x : String) (xs : List String) (y : String) → last_or x (xs ++ y ∷ []) ≡ y
last_or-append x [] y = refl
last_or-append x (z ∷ zs) y = last_or-append z zs y

read_last-append :
    (loads : String → Option Line) (xs : List String) (y : String)
    → read_last loads (xs ++ y ∷ []) ≡ loads y
unfolding read_last
read_last-append loads [] y = refl
read_last-append loads (x ∷ xs) y = ap loads (last_or-append x xs y)

-- The record at the end of the file.
abbrev pub head_record : List DayDigest → Line
head_record digests = head_line (head digests) (length digests) (last_day digests)

module _ (dumps : Line → String) (loads : String → Option Line) (is_blank : String → Bool) where
  read_head_last :
      (lines : List String)
      → read_head dumps loads is_blank (some lines)
        ≡ read_last loads (keep_if (λ l. not (is_blank l)) lines)
  unfolding read_head read_last
  read_head_last lines = by_cases (keep_if (λ l. not (is_blank l)) lines)
    where
      by_cases :
          (ls : List String)
          → ◌≡◌ {A = Option Line}
              (elim ls [ [] ↦ none | l ∷ rest ↦ loads (last_or l rest) ])
              (read_last loads ls)
      by_cases [] = refl
      by_cases (l ∷ rest) = refl

  -- The hypotheses are that the last record parses as what was written and that its text is not
  -- blank. After any digests are written, `read_head` finds the chain of the last day, the number
  -- of days and the last day.
  pub read_head-write_digests :
      (digests : List DayDigest)
      → loads (dumps (head_record digests)) ≡ some (head_record digests)
      → is_blank (dumps (head_record digests)) ≡ false
      → read_head dumps loads is_blank (some (write_digests dumps loads is_blank digests))
        ≡ some (head_record digests)
  unfolding write_digests
  read_head-write_digests digests back solid =
      let days = map (λ d. dumps (day_line d)) digests in
      let last = dumps (head_record digests) in
      let kept : keep_if (λ l. not (is_blank l)) (last ∷ []) ≡ last ∷ [] =
        rw (keep_if, solid) refl in
      read_head_last (days ++ last ∷ [])
      ∙ ap (read_last loads) (
          keep_if-append (λ l. not (is_blank l)) days (last ∷ [])
          ∙ ap (λ ls. keep_if (λ l. not (is_blank l)) days ++ ls) kept)
      ∙ read_last-append loads (keep_if (λ l. not (is_blank l)) days) last
      ∙ back
