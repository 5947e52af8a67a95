-- ===== src/Qr/Svg/Painted.antt =====
-- src/swelter/qr.py: the rectangles of `qr_svg` cover the dark modules.
use swelter.Prelude.{
  ℕ, zero, suc, ◌+◌, ◌-◌, ◌≤◌, ◌<◌, ◌≡◌, refl, ap, subst, ◌∙◌, List, [], ◌∷◌, ◌++◌, Option, none,
  some, Bool, true, false, ◌&&◌, if◌then◌else◌, leb, ltb, ◌==◌, get_or, Bool-cases, inl, inr, arith,
}
use swelter.Qr.Mask.{module_at}
use swelter.Qr.Svg.{dark_runs, Rect, rects_of_row, rects_from}

abbrev one_if : Bool → ℕ
one_if b = if b then 1 else 0

-- How many of the runs cover a column.
unfoldable pub covering : List (ℕ × ℕ) → ℕ → ℕ
covering [] j = 0
covering ((start, width) ∷ runs) j = one_if (leb start j && ltb j (start + width)) + covering runs j

-- Whether a module is dark, as a number.
abbrev pub darkness : ℕ → ℕ
darkness v = if v == 0 then 0 else 1

-- The run that is not ended started before the column.
IsOpen : Option ℕ → ℕ → Type 0
IsOpen none c = Unit
IsOpen (some start) c = start < c

abbrev covered_by_open : Option ℕ → ℕ → ℕ
covered_by_open none j = 0
covered_by_open (some start) j = one_if (leb start j)

-- A run that is ended at a column covers the columns from its start up to there.
ended_before :
    (start c j : ℕ)
    → start < c
    → j < c
    → one_if (leb start j && ltb j (start + (c - start))) ≡ covered_by_open (some start) j
ended_before start c j h k =
    let e : ltb j (start + (c - start)) ≡ true = ground arith in rw e (either (leb start j))
  where
    either : (b : Bool) → one_if (b && true) ≡ one_if b
    either true = refl
    either false = refl

ended_behind :
    (start c j : ℕ) → start < c → c ≤ j → one_if (leb start j && ltb j (start + (c - start))) ≡ 0
ended_behind start c j h k =
    let e : ltb j (start + (c - start)) ≡ false = ground arith in rw e (neither (leb start j))
  where
    neither : (b : Bool) → one_if (b && false) ≡ 0
    neither true = refl
    neither false = refl

covering_before :
    (o : Option ℕ) (c j : ℕ) (row : List ℕ)
    → IsOpen o c
    → j < c
    → covering (dark_runs o c row) j ≡ covered_by_open o j
unfolding dark_runs covering IsOpen
covering_before none c j [] h k = refl
covering_before none c j (v ∷ row) h k = elim (Bool-cases (v == 0)) [
  | inl e ↦ rw e (covering_before none (suc c) j row h (omega arith))
  | inr e ↦
      let early : leb c j ≡ false = ground arith in
      rw e (covering_before (some c) (suc c) j row (omega arith) (omega arith) ∙ rw early refl)
]
covering_before (some start) c j [] h k = ap (λ n. n + 0) (ended_before start c j h k) ∙ omega arith
covering_before (some start) c j (v ∷ row) h k = elim (Bool-cases (v == 0)) [
  | inl e ↦
      let rest = covering_before none (suc c) j row tt (omega arith) in
      rw e (
        ap (λ n. n + covering (dark_runs none (suc c) row) j) (ended_before start c j h k)
        ∙ ap (λ n. covered_by_open (some start) j + n) rest
        ∙ omega arith)
  | inr e ↦ rw e (covering_before (some start) (suc c) j row (omega arith) (omega arith))
]

covering_at :
    (o : Option ℕ) (c k : ℕ) (row : List ℕ)
    → IsOpen o c
    → covering (dark_runs o c row) (c + k) ≡ darkness (get_or row k 0)
unfolding dark_runs covering IsOpen
covering_at none c k [] h = refl
covering_at none c zero (v ∷ row) h = elim (Bool-cases (v == 0)) [
  | inl e ↦ rw e (covering_before none (suc c) (c + 0) row tt (omega arith))
  | inr e ↦
      let started : leb c (c + 0) ≡ true = ground arith in
      rw e
        (covering_before (some c) (suc c) (c + 0) row (omega arith) (omega arith) ∙ rw started refl)
]
covering_at none c (suc k) (v ∷ row) h =
    let next : c + suc k ≡ suc c + k = omega arith in
    elim (Bool-cases (v == 0)) [
      | inl e ↦ rw (e, next) (covering_at none (suc c) k row tt)
      | inr e ↦ rw (e, next) (covering_at (some c) (suc c) k row (omega arith))
    ]
covering_at (some start) c k [] h =
    ap (λ n. n + 0) (ended_behind start c (c + k) h (omega arith)) ∙ omega arith
covering_at (some start) c zero (v ∷ row) h = elim (Bool-cases (v == 0)) [
  | inl e ↦ rw e (
      ap (λ n. n + covering (dark_runs none (suc c) row) (c + 0))
        (ended_behind start c (c + 0) h (omega arith))
      ∙ ap (λ n. 0 + n) (covering_before none (suc c) (c + 0) row tt (omega arith)))
  | inr e ↦
      let started : leb start (c + 0) ≡ true = ground arith in
      rw e (
        covering_before (some start) (suc c) (c + 0) row (omega arith) (omega arith)
        ∙ rw started refl)
]
covering_at (some start) c (suc k) (v ∷ row) h =
    let next : c + suc k ≡ suc c + k = omega arith in
    elim (Bool-cases (v == 0)) [
      | inl e ↦ rw e (
          ap (λ n. n + covering (dark_runs none (suc c) row) (c + suc k))
            (ended_behind start c (c + suc k) h (omega arith))
          ∙ ap (λ j. 0 + covering (dark_runs none (suc c) row) j) next
          ∙ ap (λ n. 0 + n) (covering_at none (suc c) k row tt)
          ∙ omega arith)
      | inr e ↦ rw (e, next) (covering_at (some start) (suc c) k row (omega arith))
    ]

-- How many of the rectangles cover a module.
unfoldable pub painted : List Rect → ℕ → ℕ → ℕ
painted [] r c = 0
painted ((row, start, width) ∷ rects) r c =
    one_if ((row == r) && leb start c && ltb c (start + width)) + painted rects r c

painted-append :
    (xs ys : List Rect) (r c : ℕ) → painted (xs ++ ys) r c ≡ painted xs r c + painted ys r c
unfolding painted
painted-append [] ys r c = omega arith
painted-append ((row, start, width) ∷ xs) ys r c =
    let here = one_if ((row == r) && leb start c && ltb c (start + width)) in
    ap (λ n. here + n) (painted-append xs ys r c) ∙ omega arith

painted-own_row :
    (r c : ℕ) (runs : List (ℕ × ℕ)) → painted (rects_of_row r runs) r c ≡ covering runs c
unfolding painted covering
painted-own_row r c [] = refl
painted-own_row r c ((start, width) ∷ runs) =
    let same : (r == r) ≡ true = ground arith in
    rw same (ap (λ n. one_if (leb start c && ltb c (start + width)) + n) (painted-own_row r c runs))

painted-other_row :
    (s r c : ℕ) (runs : List (ℕ × ℕ)) → (s == r) ≡ false → painted (rects_of_row s runs) r c ≡ 0
unfolding painted
painted-other_row s r c [] h = refl
painted-other_row s r c ((start, width) ∷ runs) h =
    rw h (ap (λ n. 0 + n) (painted-other_row s r c runs h) ∙ omega arith)

painted-earlier : (s r c : ℕ) (rows : List (List ℕ)) → r < s → painted (rects_from s rows) r c ≡ 0
unfolding rects_from painted
painted-earlier s r c [] h = refl
painted-earlier s r c (row ∷ rows) h =
    painted-append (rects_of_row s (dark_runs none 0 row)) (rects_from (suc s) rows) r c
    ∙ ap (λ n. n + painted (rects_from (suc s) rows) r c)
        (painted-other_row s r c (dark_runs none 0 row) (ground arith))
    ∙ ap (λ n. 0 + n) (painted-earlier (suc s) r c rows (omega arith))
    ∙ omega arith

painted-from :
    (s k c : ℕ) (rows : List (List ℕ))
    → painted (rects_from s rows) (s + k) c ≡ darkness (module_at rows k c)
unfolding rects_from painted IsOpen
painted-from s k c [] = refl
painted-from s zero c (row ∷ rows) =
    let here : s + 0 ≡ s = omega arith in
    ap (λ r. painted (rects_from s (row ∷ rows)) r c) here
    ∙ painted-append (rects_of_row s (dark_runs none 0 row)) (rects_from (suc s) rows) s c
    ∙ ap (λ n. n + painted (rects_from (suc s) rows) s c)
        (painted-own_row s c (dark_runs none 0 row) ∙ own_row)
    ∙ ap (λ n. darkness (get_or row c 0) + n) (painted-earlier (suc s) s c rows (omega arith))
    ∙ omega arith
  where
    own_row : covering (dark_runs none 0 row) c ≡ darkness (get_or row c 0)
    own_row =
        let start : 0 + c ≡ c = omega arith in
        subst (λ j. covering (dark_runs none 0 row) j ≡ darkness (get_or row c 0)) start
          (covering_at none 0 c row tt)
painted-from s (suc k) c (row ∷ rows) =
    let next : s + suc k ≡ suc s + k = omega arith in
    ap (λ r. painted (rects_from s (row ∷ rows)) r c) next
    ∙ painted-append (rects_of_row s (dark_runs none 0 row)) (rects_from (suc s) rows) (suc s + k) c
    ∙ ap (λ n. n + painted (rects_from (suc s) rows) (suc s + k) c)
        (painted-other_row s (suc s + k) c (dark_runs none 0 row) (ground arith))
    ∙ ap (λ n. 0 + n) (painted-from (suc s) k c rows)
    ∙ omega arith

-- For any matrix, row and column: the rectangles of the image cover a module exactly once if it is
-- dark, and not at all if it is light or outside of the matrix.
pub rects_from-darkness :
    (matrix : List (List ℕ)) (r c : ℕ)
    → painted (rects_from 0 matrix) r c ≡ darkness (module_at matrix r c)
rects_from-darkness matrix r c =
    let start : 0 + r ≡ r = omega arith in
    subst (λ i. painted (rects_from 0 matrix) i c ≡ darkness (module_at matrix r c)) start
      (painted-from 0 r c matrix)
