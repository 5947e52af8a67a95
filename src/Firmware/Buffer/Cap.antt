-- ===== src/Firmware/Buffer/Cap.antt =====
-- `append` and the cap on the number of records.
use swelter.Prelude.{
  ℕ, ◌-◌, ◌≤◌, ◌<◌, ◌≡◌, ◌⊎◌, refl, sym, ap, ◌∙◌, List, [], ◌∷◌, ◌++◌, Bool, true, false, ◌||◌,
  ◌==◌, ltb, Option, none, some, length, length-append, length-drop, take, take-append-drop, arith,
  Bool-cases, inl, inr, append-nil,
}
use swelter.Firmware.Buffer.{
  World, Buffer, read_lines, pending, last, keep_count, enforce_cap, append, write_line,
}
use swelter.Firmware.Buffer.Lines.{
  TextLaws, IsCounted, read_lines-append, read_lines-clean, read_lines_suffix,
}

module _ (w : World) where
  open w use {Line, dumps}

  last_suffix :
      (keep : ℕ) (records : List Line)
      → (dropped : List Line) × (records ≡ dropped ++ last w keep records)
  unfolding last
  last_suffix keep records = elim (Bool-cases (keep == 0)) [
    | inl none_kept ↦ (records, rw (none_kept, last) (sym (append-nil records)))
    | inr some_kept ↦ (
      take (length records - keep) records,
      rw (some_kept, last) (sym (take-append-drop (length records - keep) records)),
    )
  ]

  length-last : (keep : ℕ) (records : List Line) → length (last w keep records) ≤ keep
  unfolding last
  length-last keep records = elim (Bool-cases (keep == 0)) [
    | inl none_kept ↦ rw (none_kept, last) (omega arith)
    | inr some_kept ↦
        rw (some_kept, last) (omega (arith, length-drop (length records - keep) records))
  ]

  -- No cap is set, or the cached count is below it.
  abbrev pub has_room : Buffer w → Bool
  has_room b = b.set_up.max_records == 0 || ltb b.count b.set_up.max_records

  -- The buffer after `_enforce_cap`: a suffix of the lines, counted, with room for one more.
  record IsTrimmed (b b' : Buffer w) : Type 0 where
    dropped : List Line
    split : read_lines w b.file ≡ dropped ++ read_lines w b'.file
    counted : IsCounted w b'
    is_ended : b'.is_ended ≡ true
    room : (b.set_up.max_records ≡ 0) ⊎ (b'.count < b.set_up.max_records)
    none_dropped : (has_room b ≡ false) ⊎ (dropped ≡ [])

  untrimmed : (b : Buffer w) → b.is_ended ≡ true → IsCounted w b → has_room b ≡ true → IsTrimmed b b
  untrimmed b e h r = record {
    dropped = [];
    split = refl;
    counted = h;
    is_ended = e;
    room = ground arith;
    none_dropped = inr refl;
  }

  trimmed_to : Buffer w → Buffer w
  trimmed_to b =
      let lines = last w (keep_count b.set_up.max_records) (read_lines w b.file) in
      record b { file = lines; is_ended = true; count = length lines }

  enforce_cap_room : (b : Buffer w) → has_room b ≡ true → enforce_cap w b ≡ b
  unfolding enforce_cap
  enforce_cap_room b room = rw (room, enforce_cap) refl

  enforce_cap_full : (b : Buffer w) → has_room b ≡ false → enforce_cap w b ≡ trimmed_to b
  unfolding enforce_cap trimmed_to
  enforce_cap_full b full = rw (full, enforce_cap) refl

  pub max_records-append :
      (b : Buffer w) (payload : Option w.Payload)
      → (append w b payload).set_up.max_records ≡ b.set_up.max_records
  unfolding append trimmed_to
  max_records-append b none = refl
  max_records-append b (some p) = elim (Bool-cases (has_room b)) [
    | inl room ↦ ap (λ (c : Buffer w). c.set_up.max_records) (enforce_cap_room b room)
    | inr full ↦ ap (λ (c : Buffer w). c.set_up.max_records) (enforce_cap_full b full)
  ]

  module _ (laws : TextLaws w) where
    trimmed_to-IsTrimmed : (b : Buffer w) → has_room b ≡ false → IsTrimmed b (trimmed_to b)
    unfolding trimmed_to pending
    trimmed_to-IsTrimmed b full =
        let keep = keep_count b.set_up.max_records in
        let lines = last w keep (read_lines w b.file) in
        let (dropped, split) = last_suffix keep (read_lines w b.file) in
        let same = read_lines_suffix w laws b.file dropped lines split in
        record {
          dropped = dropped;
          split = split ∙ ap (λ l. dropped ++ l) (sym same);
          counted = ap length (sym same);
          is_ended = refl;
          room = omega (arith, length-last keep (read_lines w b.file));
          none_dropped = inl full;
        }

    enforce_cap-IsTrimmed :
        (b : Buffer w) → b.is_ended ≡ true → IsCounted w b → IsTrimmed b (enforce_cap w b)
    enforce_cap-IsTrimmed b e h = elim (Bool-cases (has_room b)) [
      | inl room ↦ rw (enforce_cap_room b room) (untrimmed b e h room)
      | inr full ↦ rw (enforce_cap_full b full) (trimmed_to-IsTrimmed b full)
    ]

    -- What `append` did: the lines before are some that were dropped and some that were kept, and
    -- the lines after are those that were kept and the new one.
    pub record Appended (b b' : Buffer w) (line : Line) : Type 0 where
      pub dropped : List Line
      pub kept : List Line
      pub before : read_lines w b.file ≡ dropped ++ kept
      pub after : read_lines w b'.file ≡ kept ++ line ∷ []
      pub counted : IsCounted w b'
      pub is_ended : b'.is_ended ≡ true
      pub bounded : (b.set_up.max_records ≡ 0) ⊎ (b'.count ≤ b.set_up.max_records)
      pub none_dropped : (has_room b ≡ false) ⊎ (dropped ≡ [])

    -- An `append` to a buffer whose file ends with a newline, and whose cached count is right, adds
    -- the payload's line at the tail and drops lines at the head only, none of them while the count
    -- is below the cap or no cap is set. It leaves the cached count right and, under a cap, at most
    -- the cap.
    pub append-Appended :
        (b : Buffer w) (payload : w.Payload)
        → b.is_ended ≡ true
        → IsCounted w b
        → Appended b (append w b (some payload)) (dumps payload)
    append-Appended b payload e h =
        unfold append write_line pending in
        let t = enforce_cap-IsTrimmed b e h in
        let line = dumps payload ∷ [] in
        let clean =
          read_lines-clean w line ((laws.strip_dumps payload, laws.dumps_full payload), tt) in
        let lines =
          ap (λ f. read_lines w (write_line w f (enforce_cap w b).file (dumps payload))) t.is_ended
          ∙ read_lines-append w (enforce_cap w b).file line
          ∙ ap (λ l. read_lines w (enforce_cap w b).file ++ l) clean in
        record {
          dropped = t.dropped;
          kept = read_lines w (enforce_cap w b).file;
          before = t.split;
          after = lines;
          is_ended = refl;
          counted = omega (
            arith,
            t.counted,
            ap length lines,
            length-append (read_lines w (enforce_cap w b).file) line,
          );
          bounded = omega (arith, t.room);
          none_dropped = t.none_dropped;
        }
