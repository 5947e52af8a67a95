-- ===== src/Qr/Interleave/Complete.antt =====
-- src/swelter/qr.py: `_interleave` loses no codeword and adds none.
use mathlib.Core.List.{Perm, perm_append_comm}
use mathlib.Core.List.Perm
use swelter.Prelude.{
  ℕ, zero, suc, ◌-◌, ◌*◌, ◌+◌, ◌≤◌, ◌<◌, ◌≡◌, refl, sym, ap, subst, ◌∙◌, List, [], ◌∷◌, ◌++◌,
  append_assoc, map, length, get_or, take, drop, ltb, ltb→lt, ltb-false→le, Bool-cases, inl, inr,
  arith,
}
use swelter.Qr.{data_sum, Blocks, rs_blocks, data_codewords}
use swelter.Qr.Interleave.{
  split_count, split_blocks, longest, column, columns, read_columns, interleave,
}

-- All entries, list after list.
abbrev pub concat : List (List ℕ) → List ℕ
concat [] = []
concat (g ∷ groups) = g ++ concat groups

drop_short : (i : ℕ) (g : List ℕ) → length g ≤ i → drop i g ≡ []
drop_short zero [] h = refl
drop_short zero (x ∷ g) h = absurd (omega arith)
drop_short (suc i) [] h = refl
drop_short (suc i) (x ∷ g) h = drop_short i g (omega arith)

drop_next : (i : ℕ) (g : List ℕ) → i < length g → drop i g ≡ get_or g i 0 ∷ drop (suc i) g
drop_next i [] h = absurd (omega arith)
drop_next zero (x ∷ g) h = refl
drop_next (suc i) (x ∷ g) h = drop_next i g (omega arith)

-- What is left of the groups from place i on.
rest_from : ℕ → List (List ℕ) → List ℕ
rest_from i groups = concat (map (drop i) groups)

perm_front : (xs ys zs : List ℕ) → Perm (xs ++ (ys ++ zs)) (ys ++ (xs ++ zs))
perm_front xs ys zs =
    subst (λ l. Perm l (ys ++ (xs ++ zs))) (append_assoc xs ys zs)
      (subst (Perm ((xs ++ ys) ++ zs)) (append_assoc ys xs zs)
        (Perm.append_right zs (perm_append_comm xs ys)))

column_perm :
    (i : ℕ) (groups : List (List ℕ))
    → Perm (rest_from i groups) (column i groups ++ rest_from (suc i) groups)
unfolding rest_from column
column_perm i [] = Perm.refl []
column_perm i (g ∷ groups) =
    let later =
      Perm.trans (Perm.append_left (drop (suc i) g) (column_perm i groups))
        (perm_front (drop (suc i) g) (column i groups) (rest_from (suc i) groups)) in
    elim (Bool-cases (ltb i (length g))) [
      | inl e ↦ rw (e, drop_next i g (ltb→lt i (length g) e)) (Perm.cons (get_or g i 0) later)
      | inr e ↦
          let ended : length g ≤ i = ltb-false→le i (length g) e in
          let short = drop_short i g ended in
          let shorter : drop (suc i) g ≡ [] = drop_short (suc i) g (omega arith) in
          rw (e, short, shorter) (column_perm i groups)
    ]

rest_from-nil : (i : ℕ) (groups : List (List ℕ)) → longest groups ≤ i → rest_from i groups ≡ []
unfolding rest_from
rest_from-nil i [] h = refl
rest_from-nil i (g ∷ groups) h =
    ap (λ l. l ++ rest_from i groups) (drop_short i g (ground arith))
    ∙ rest_from-nil i groups (ground arith)

columns_perm :
    (rounds i : ℕ) (groups : List (List ℕ))
    → longest groups ≤ i + rounds
    → Perm (columns rounds i groups) (rest_from i groups)
unfolding columns
columns_perm zero i groups h = rw (rest_from-nil i groups (omega arith)) (Perm.refl [])
columns_perm (suc rounds) i groups h =
    Perm.trans
      (Perm.append_left (column i groups) (columns_perm rounds (suc i) groups (omega arith)))
      (Perm.symm (column_perm i groups))

read_columns_perm : (groups : List (List ℕ)) → Perm (read_columns groups) (concat groups)
unfolding read_columns rest_from
read_columns_perm groups =
    subst (Perm (read_columns groups)) (rest_from_start groups)
      (columns_perm (longest groups) 0 groups (omega arith))
  where
    rest_from_start : (groups : List (List ℕ)) → rest_from 0 groups ≡ concat groups
    rest_from_start [] = refl
    rest_from_start (g ∷ groups) = ap (λ l. g ++ l) (rest_from_start groups)

pub concat-append : (xs ys : List (List ℕ)) → concat (xs ++ ys) ≡ concat xs ++ concat ys
concat-append [] ys = refl
concat-append (g ∷ xs) ys =
    ap (λ l. g ++ l) (concat-append xs ys) ∙ sym (append_assoc g (concat xs) (concat ys))

take-drop : (n : ℕ) (l : List ℕ) → take n l ++ drop n l ≡ l
take-drop zero l = refl
take-drop (suc n) [] = refl
take-drop (suc n) (x ∷ l) = ap (λ r. x ∷ r) (take-drop n l)

length-drop : (n : ℕ) (l : List ℕ) → length (drop n l) ≡ length l - n
length-drop zero l = omega arith
length-drop (suc n) [] = omega arith
length-drop (suc n) (x ∷ l) = length-drop n l ∙ omega arith

split_count-concat :
    (count size : ℕ) (l : List ℕ)
    → concat (split_count count size l).0 ++ (split_count count size l).1 ≡ l
unfolding split_count
split_count-concat zero size l = refl
split_count-concat (suc count) size l =
    append_assoc (take size l) _ _
    ∙ ap (λ r. take size l ++ r) (split_count-concat count size (drop size l))
    ∙ take-drop size l

length-split_count :
    (count size : ℕ) (l : List ℕ) → length (split_count count size l).1 ≡ length l - count * size
unfolding split_count
length-split_count zero size l = omega arith
length-split_count (suc count) size l =
    length-split_count count size (drop size l) ∙ grind (arith, length-drop size l)

split_blocks-concat :
    (blocks : List Blocks) (l : List ℕ)
    → length l ≤ data_sum blocks
    → concat (split_blocks blocks l).0 ≡ l
unfolding split_blocks
split_blocks-concat [] [] h = refl
split_blocks-concat [] (x ∷ l) h = absurd (omega arith)
split_blocks-concat ((count, total, size) ∷ blocks) l h =
    let own = split_count count size l in
    concat-append own.0 (split_blocks blocks own.1).0
    ∙ ap (λ r. concat own.0 ++ r)
        (split_blocks-concat blocks own.1 (omega (arith, length-split_count count size l)))
    ∙ split_count-concat count size l

-- The hypothesis is that there are no more codewords than the version has for data. Then the
-- interleaved codewords are, in some order, the data codewords and those of the error correction
-- of the blocks that the data is split into.
pub interleave_perm :
    (version : ℕ) (codewords : List ℕ)
    → length codewords ≤ data_codewords version
    → Perm
        (interleave version codewords)
        (codewords ++ concat (split_blocks (get_or rs_blocks (version - 1) []) codewords).1)
unfolding interleave data_codewords
interleave_perm version codewords h =
    let groups = split_blocks (get_or rs_blocks (version - 1) []) codewords in
    subst (λ l. Perm (interleave version codewords) (l ++ concat groups.1))
      (split_blocks-concat (get_or rs_blocks (version - 1) []) codewords h)
      (Perm.append (read_columns_perm groups.0) (read_columns_perm groups.1))
