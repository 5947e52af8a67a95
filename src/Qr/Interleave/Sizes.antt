-- ===== src/Qr/Interleave/Sizes.antt =====
-- src/swelter/qr.py: how many codewords a symbol has.
use mathlib.Core.Nat as LibraryNat
use mathlib.Core.List.{Perm, length as library_length}
use mathlib.Core.List.Perm
use swelter.Prelude.{
  ℕ, zero, suc, ◌+◌, ◌-◌, ◌*◌, ◌≡◌, refl, sym, ap, ◌∙◌, List, [], ◌∷◌, ◌++◌, length, length-append,
  length-replicate, replicate, map, get_or, drop, ◌==◌, Bool-cases, inl, inr, arith,
}
use swelter.Qr.{Blocks, rs_blocks, data_codewords}
use swelter.Qr.Field.{cancel, divide, rs_encode, rs_generator_poly}
use swelter.Qr.Interleave.{split_count, split_blocks, interleave}
use swelter.Qr.Interleave.Complete.{concat, concat-append, interleave_perm}

length-cancel : (coef : ℕ) (gs buf : List ℕ) → length (cancel coef gs buf) ≡ length buf
unfolding cancel
length-cancel coef [] buf = refl
length-cancel coef (g ∷ gs) [] = refl
length-cancel coef (g ∷ gs) (b ∷ buf) = ap suc (length-cancel coef gs buf)

length-drop_one : (l : List ℕ) → length (drop 1 l) ≡ length l - 1
length-drop_one [] = omega arith
length-drop_one (x ∷ l) = omega arith

length-divide :
    (rounds : ℕ) (generator buf : List ℕ)
    → length (divide rounds generator buf) ≡ length buf - rounds
unfolding divide
length-divide zero generator buf = omega arith
length-divide (suc rounds) generator [] = omega arith
length-divide (suc rounds) generator (coef ∷ buf) = elim (Bool-cases (coef == 0)) [
  | inl e ↦ rw e (length-divide rounds generator buf ∙ omega arith)
  | inr e ↦
      let rest = drop 1 (cancel coef generator (coef ∷ buf)) in
      rw e (
        length-divide rounds generator rest
        ∙ omega (
          arith,
          length-drop_one (cancel coef generator (coef ∷ buf)),
          length-cancel coef generator (coef ∷ buf),
        ))
]

length-rs_encode : (codewords : List ℕ) (n : ℕ) → length (rs_encode codewords n) ≡ n
unfolding rs_encode
length-rs_encode codewords n =
    length-divide (length codewords) (rs_generator_poly n) (codewords ++ replicate n 0)
    ∙ omega (arith, length-append codewords (replicate n 0), length-replicate {A = ℕ} n 0)

-- The codewords of the error correction.
abbrev pub ecc_sum : List Blocks → ℕ
ecc_sum [] = 0
ecc_sum ((n, total, codewords) ∷ blocks) = n * (total - codewords) + ecc_sum blocks

length-split_count_blocks :
    (count size : ℕ) (l : List ℕ) → length (split_count count size l).0 ≡ count
unfolding split_count
length-split_count_blocks zero size l = refl
length-split_count_blocks (suc count) size l =
    ap suc (length-split_count_blocks count size (drop size l))

length-concat_ecc :
    (n : ℕ) (groups : List (List ℕ))
    → length (concat (map (λ block. rs_encode block n) groups)) ≡ length groups * n
length-concat_ecc n [] = omega arith
length-concat_ecc n (g ∷ groups) =
    length-append (rs_encode g n) _
    ∙ grind (arith, length-rs_encode g n, length-concat_ecc n groups)

length-split_blocks :
    (blocks : List Blocks) (l : List ℕ) → length (concat (split_blocks blocks l).1) ≡ ecc_sum blocks
unfolding split_blocks
length-split_blocks [] l = refl
length-split_blocks ((count, total, size) ∷ blocks) l =
    let own = split_count count size l in
    let ecc = map (λ block. rs_encode block (total - size)) own.0 in
    let rest = length-split_blocks blocks own.1 in
    ap length (concat-append ecc (split_blocks blocks own.1).1)
    ∙ length-append (concat ecc) (concat (split_blocks blocks own.1).1)
    ∙ ap (λ n. n + length (concat (split_blocks blocks own.1).1))
        (length-concat_ecc (total - size) own.0
          ∙ ap (λ n. n * (total - size)) (length-split_count_blocks count size l))
    ∙ ap (λ n. count * (total - size) + n) rest

-- The library's length counts in another type of numbers.
abbrev counted : LibraryNat.ℕ → ℕ
counted LibraryNat.zero = 0
counted (LibraryNat.suc n) = suc (counted n)

counted-length : (l : List ℕ) → counted (library_length l) ≡ length l
counted-length [] = refl
counted-length (x ∷ l) = ap suc (counted-length l)

length-perm : {l k : List ℕ} → Perm l k → length l ≡ length k
length-perm {l} {k} p = sym (counted-length l) ∙ ap counted (Perm.length-eq p) ∙ counted-length k

pub length-interleave :
    (version : ℕ) (codewords : List ℕ)
    → length codewords ≡ data_codewords version
    → length (interleave version codewords)
      ≡ data_codewords version + ecc_sum (get_or rs_blocks (version - 1) [])
length-interleave version codewords h =
    let blocks = get_or rs_blocks (version - 1) [] in
    length-perm (interleave_perm version codewords (omega (arith, h)))
    ∙ length-append codewords _
    ∙ ap (λ n. n + length (concat (split_blocks blocks codewords).1)) h
    ∙ ap (λ n. data_codewords version + n) (length-split_blocks blocks codewords)
