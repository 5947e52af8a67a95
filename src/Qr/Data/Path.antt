-- ===== src/Qr/Data/Path.antt =====
-- src/swelter/qr.py: the zigzag of `_place_data` stays inside the symbol and visits no place twice.
use swelter.Prelude.{
  ◌≢◌, ℕ, zero, suc, ◌+◌, ◌-◌, ◌≤◌, ◌<◌, ◌≡◌, refl, sym, subst, ◌∙◌, List, [], ◌∷◌, ◌++◌, All,
  All-append, All-weaken, leb, leb→le, ◌==◌, ==→eq, Bool-cases, inl, inr, arith,
}
use Prim.Native.Nat.{bit_and}
use swelter.Qr.Data.{skip_timing}
use swelter.Qr.Data.Read.{Place, row_of, pair_path, zigzag}

abbrev pub Differs : Place → Place → Type 0
Differs (r, c) (y, x) = y ≡ r → x ≢ c

-- No place comes twice.
unfoldable pub IsSimple : List Place → Type 0
IsSimple [] = Unit
IsSimple (p ∷ path) = All (Differs p) path × IsSimple path

IsSimple-append :
    (ps qs : List Place)
    → IsSimple ps
    → IsSimple qs
    → All (λ p. All (Differs p) qs) ps
    → IsSimple (ps ++ qs)
unfolding IsSimple
IsSimple-append [] qs h k l = k
IsSimple-append (p ∷ ps) qs h k l =
    (All-append (Differs p) ps qs h.0 l.0, IsSimple-append ps qs h.1 k l.1)

row_of_inj :
    (size right v w : ℕ) → v < size → w < size → row_of size right v ≡ row_of size right w → v ≡ w
row_of_inj size right v w h k = elim (Bool-cases (bit_and (right + 1) 2 == 0)) [
  | inl e ↦ rw e (λ same. omega arith)
  | inr e ↦ rw e (λ same. same)
]

row_of_low : (size right v : ℕ) → v < size → row_of size right v < size
row_of_low size right v h = elim (Bool-cases (bit_and (right + 1) 2 == 0)) [
  | inl e ↦ rw e (omega arith)
  | inr e ↦ rw e h
]

-- A place of the two columns, in a row that is visited at `first` or later.
InPair : ℕ → ℕ → ℕ → Place → Type 0
InPair size right first (y, x) =
    (v : ℕ) × (first ≤ v) × (v < size) × (y ≡ row_of size right v) × (right ≤ x + 1) × (x ≤ right)

pair_path-InPair :
    (size right rows vert : ℕ)
    → vert + rows ≡ size
    → All (InPair size right vert) (pair_path size right rows vert)
unfolding pair_path InPair
pair_path-InPair size right zero vert h = tt
pair_path-InPair size right (suc rows) vert h = (
  (vert, omega arith, omega arith, refl, omega arith, omega arith),
  (
    (vert, omega arith, omega arith, refl, omega arith, omega arith),
    All-weaken (InPair size right (vert + 1)) (InPair size right vert)
        (λ p (v, low, high, row, near, left). (v, omega arith, high, row, near, left))
        (pair_path size right rows (vert + 1))
        (pair_path-InPair size right rows (vert + 1) (omega arith)),
  ),
)

-- A place in the row of `vert` differs from those in later rows.
Differs-later :
    (size right vert c : ℕ) (q : Place)
    → vert < size
    → InPair size right (vert + 1) q
    → Differs (row_of size right vert, c) q
unfolding InPair
Differs-later size right vert c (y, x) h (v, low, high, row, near, left) =
    λ e. let same = row_of_inj size right v vert high h (sym row ∙ e) in absurd (omega arith)

pair_path-IsSimple :
    (size right rows vert : ℕ)
    → 1 ≤ right
    → vert + rows ≡ size
    → IsSimple (pair_path size right rows vert)
unfolding pair_path IsSimple
pair_path-IsSimple size right zero vert h k = tt
pair_path-IsSimple size right (suc rows) vert h k =
    let later : (c : ℕ)
        → All (Differs (row_of size right vert, c)) (pair_path size right rows (vert + 1)) =
      λ c.
        All-weaken (InPair size right (vert + 1)) (Differs (row_of size right vert, c))
          (λ q. Differs-later size right vert c q (omega arith))
          (pair_path size right rows (vert + 1))
          (pair_path-InPair size right rows (vert + 1) (omega arith)) in
    (
      ((λ e same. let left : right - 1 ≡ right = same in omega arith), later right),
      (later (right - 1), pair_path-IsSimple size right rows (vert + 1) h (omega arith)),
    )

-- A place of the columns up to `right`, none of which is left where that is 0.
unfoldable pub Below : ℕ → ℕ → Place → Type 0
Below size right (y, x) = (y < size) × (x ≤ right) × (1 ≤ right)

skip_timing_low : (right : ℕ) → 1 ≤ right → (1 ≤ skip_timing right) × (skip_timing right ≤ right)
skip_timing_low right h = elim (Bool-cases (right == 6)) [
  | inl e ↦ rw e (omega arith, (let six = ==→eq right 6 e in omega arith))
  | inr e ↦ rw e (h, omega arith)
]

pub zigzag-Below : (size rounds right : ℕ) → All (Below size right) (zigzag size rounds right)
unfolding zigzag Below InPair
zigzag-Below size zero right = tt
zigzag-Below size (suc rounds) right = elim (Bool-cases (leb 1 right)) [
  | inl e ↦
      let (low, high) = skip_timing_low right (leb→le 1 right e) in
      rw e (
        All-append (Below size right) (pair_path size (skip_timing right) size 0) _
          (All-weaken (InPair size (skip_timing right) 0) (Below size right)
            (λ (y, x) (v, first, last, row, near, left). (
              subst (λ r. r < size) (sym row) (row_of_low size (skip_timing right) v last),
              omega arith,
              omega arith,
            ))
            (pair_path size (skip_timing right) size 0)
            (pair_path-InPair size (skip_timing right) size 0 (omega arith)))
          (All-weaken (Below size (skip_timing right - 2)) (Below size right)
            (λ (y, x) (row, left, more). (row, omega arith, omega arith))
            (zigzag size rounds (skip_timing right - 2))
            (zigzag-Below size rounds (skip_timing right - 2))))
  | inr e ↦ rw e tt
]

pair_left :
    (size column : ℕ) (p : Place)
    → InPair size column 0 p
    → (q : Place) → Below size (column - 2) q
    → Differs p q
unfolding InPair Below
pair_left size column (r, c) (v, first, last, row, near, _) (y, x) (inside, left, more) =
    λ same_row same_column. absurd (omega arith)

pub zigzag-IsSimple : (size rounds right : ℕ) → IsSimple (zigzag size rounds right)
unfolding zigzag IsSimple
zigzag-IsSimple size zero right = tt
zigzag-IsSimple size (suc rounds) right = elim (Bool-cases (leb 1 right)) [
  | inl e ↦
      let column = skip_timing right in
      let (low, high) = skip_timing_low right (leb→le 1 right e) in
      rw e (
        IsSimple-append (pair_path size column size 0) (zigzag size rounds (column - 2))
          (pair_path-IsSimple size column size 0 low (omega arith))
          (zigzag-IsSimple size rounds (column - 2))
          (All-weaken (InPair size column 0)
            (λ p. All (Differs p) (zigzag size rounds (column - 2)))
            (λ p inside.
              All-weaken (Below size (column - 2)) (Differs p) (pair_left size column p inside)
                (zigzag size rounds (column - 2)) (zigzag-Below size rounds (column - 2)))
            (pair_path size column size 0) (pair_path-InPair size column size 0 (omega arith))))
  | inr e ↦ rw e tt
]
