-- ===== src/Firmware/Buffer/Lines.antt =====
-- The lines of the file, and the invariant of the buffer object.
use swelter.Prelude.{
  ◌≡◌, refl, ap, ◌∙◌, List, [], ◌∷◌, ◌++◌, false, keep_if, All, Bool-cases, inl, inr,
}
use swelter.Firmware.Buffer.{World, Buffer, read_lines, pending}

-- What the buffer relies on: the text of a payload has nothing to strip and is not empty, and
-- stripping twice is stripping once.
pub record TextLaws (w : World) : Type 0 where
  pub strip_idem : (l : w.Line) → w.strip (w.strip l) ≡ w.strip l
  pub strip_dumps : (p : w.Payload) → w.strip (w.dumps p) ≡ w.dumps p
  pub dumps_full : (p : w.Payload) → w.is_blank (w.dumps p) ≡ false

-- The cached count is the number of lines that a scan of the file finds.
abbrev pub IsCounted : (w : World) → Buffer w → Type 0
IsCounted w b = b.count ≡ pending w b

module _ (w : World) where
  open w use {Line, strip, is_blank}

  abbrev pub IsClean : Line → Type 0
  IsClean l = (strip l ≡ l) × (is_blank l ≡ false)

  pub read_lines-append :
      (xs ys : List Line) → read_lines w (xs ++ ys) ≡ read_lines w xs ++ read_lines w ys
  unfolding read_lines
  read_lines-append [] ys = refl
  read_lines-append (x ∷ xs) ys = elim (Bool-cases (is_blank (strip x))) [
    | inl blank ↦ rw (blank, keep_if) (read_lines-append xs ys)
    | inr full ↦ rw (full, keep_if) (ap (λ l. strip x ∷ l) (read_lines-append xs ys))
  ]

  pub read_lines-clean : (xs : List Line) → All IsClean xs → read_lines w xs ≡ xs
  unfolding read_lines
  read_lines-clean [] h = refl
  read_lines-clean (x ∷ xs) h =
      let full : is_blank (strip x) ≡ false = ap is_blank h.0.0 ∙ h.0.1 in
      rw (full, keep_if) (ap (λ l. strip x ∷ l) (read_lines-clean xs h.1) ∙ ap (λ y. y ∷ xs) h.0.0)

  pub read_lines-IsClean : (laws : TextLaws w) (xs : List Line) → All IsClean (read_lines w xs)
  unfolding read_lines
  read_lines-IsClean laws [] = tt
  read_lines-IsClean laws (x ∷ xs) = elim (Bool-cases (is_blank (strip x))) [
    | inl blank ↦ rw (blank, keep_if) (read_lines-IsClean laws xs)
    | inr full ↦ rw (full, keep_if) ((laws.strip_idem x, full), read_lines-IsClean laws xs)
  ]

  pub IsClean-append_right : (xs ys : List Line) → All IsClean (xs ++ ys) → All IsClean ys
  IsClean-append_right [] ys h = h
  IsClean-append_right (x ∷ xs) ys h = IsClean-append_right xs ys h.1

  -- A suffix of the lines of a file is read back as it was written.
  pub read_lines_suffix :
      (laws : TextLaws w) (file xs ys : List Line)
      → read_lines w file ≡ xs ++ ys
      → read_lines w ys ≡ ys
  read_lines_suffix laws file xs ys e =
      read_lines-clean ys (IsClean-append_right xs ys (rw e at (read_lines-IsClean laws file)))
