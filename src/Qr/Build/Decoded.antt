-- ===== src/Qr/Build/Decoded.antt =====
-- src/swelter/qr.py: a reader of the finished matrix gets the bits of the codewords back.
use mathlib.Core.Bool.{true≢false}
use swelter.Prelude.{
  ℕ, zero, suc, ◌+◌, ◌-◌, ◌*◌, ◌≤◌, ◌<◌, ◌≡◌, refl, sym, ap, ◌∙◌, List, [], ◌∷◌, length,
  length-append, replicate, length-replicate, get_or, Bool, true, false, ◌||◌, ltb, Bool-cases, inl,
  inr, arith,
}
use swelter.Qr.{rs_blocks, data_codewords, encode_codewords, put_all}
use swelter.Qr.Capacity.{Fits, length-put_all, length-encode_codewords}
use swelter.Qr.Interleave.{interleave}
use swelter.Qr.Interleave.Sizes.{ecc_sum, length-interleave}
use swelter.Qr.Mask.{reserved_at, apply_mask}
use swelter.Qr.Mask.Involution.{apply_mask_twice}
use swelter.Qr.Mask.Alike.{Agree, apply_mask-Agree}
use swelter.Qr.Matrix.{write_format_bits, write_version_bits}
use swelter.Qr.Data.{place_data}
use swelter.Qr.Data.Read.{Place, zigzag, read_path}
use swelter.Qr.Data.Back.{count_free, padded, place_data-read}
use swelter.Qr.Build.{size_of, function_patterns, symbol_bits, remainder_bits}
use swelter.Qr.Build.Square.{function_patterns-IsSquare}
use swelter.Qr.Build.Written.{format_is_reserved, version_is_reserved, written-Alike}

-- The zigzag of a version.
abbrev pub zigzag_of : ℕ → List Place
zigzag_of version = zigzag (size_of version) (size_of version) (size_of version - 1)

-- The bits that a version has room for.
abbrev room : ℕ → ℕ
room version =
    8 * (data_codewords version + ecc_sum (get_or rs_blocks (version - 1) []))
    + get_or remainder_bits (version - 1) 0

-- In the function patterns the modules of the format and of the version are reserved, and the bits
-- have exactly the modules that are left.
IsDrawn : ℕ → Type 0
IsDrawn version =
    (format_is_reserved (size_of version) (function_patterns version).1 15 0 ≡ true)
    × (ltb version 7 || version_is_reserved (size_of version) (function_patterns version).1 18 0
        ≡ true)
    × (count_free (function_patterns version).1 (zigzag_of version) ≡ room version)

function_patterns-IsDrawn : (version : ℕ) → 1 ≤ version → version < 11 → IsDrawn version
unfolding IsDrawn function_patterns format_is_reserved version_is_reserved count_free zigzag
    data_codewords
function_patterns-IsDrawn zero h k = absurd (omega arith)
function_patterns-IsDrawn (suc zero) h k = (refl, refl, refl)
function_patterns-IsDrawn (suc (suc zero)) h k = (refl, refl, refl)
function_patterns-IsDrawn (suc (suc (suc zero))) h k = (refl, refl, refl)
function_patterns-IsDrawn (suc (suc (suc (suc zero)))) h k = (refl, refl, refl)
function_patterns-IsDrawn (suc (suc (suc (suc (suc zero))))) h k = (refl, refl, refl)
function_patterns-IsDrawn (suc (suc (suc (suc (suc (suc zero)))))) h k = (refl, refl, refl)
function_patterns-IsDrawn (suc (suc (suc (suc (suc (suc (suc zero))))))) h k = (refl, refl, refl)
function_patterns-IsDrawn (suc (suc (suc (suc (suc (suc (suc (suc zero)))))))) h k =
    (refl, refl, refl)
function_patterns-IsDrawn (suc (suc (suc (suc (suc (suc (suc (suc (suc zero))))))))) h k =
    (refl, refl, refl)
function_patterns-IsDrawn (suc (suc (suc (suc (suc (suc (suc (suc (suc (suc zero)))))))))) h k =
    (refl, refl, refl)
function_patterns-IsDrawn (suc (suc (suc (suc (suc (suc (suc (suc (suc (suc (suc version)))))))))))
      h k =
    absurd (omega arith)

or_else : (a b : Bool) → a || b ≡ true → a ≡ false → b ≡ true
or_else true b h e = absurd (true≢false e)
or_else false b h e = h

length-symbol_bits :
    (bytes : List ℕ) (version : ℕ)
    → Fits version (length bytes)
    → length (symbol_bits bytes version) ≡ room version
unfolding symbol_bits
length-symbol_bits bytes version h =
    let codewords = encode_codewords bytes version in
    let filler = get_or remainder_bits (version - 1) 0 in
    length-append (put_all (interleave version codewords)) (replicate filler 0)
    ∙ omega (
      arith,
      length-put_all (interleave version codewords),
      length-interleave version codewords (length-encode_codewords bytes version h),
      length-replicate {A = ℕ} filler 0,
    )

padded_lem : (n : ℕ) (bits : List ℕ) → n ≡ length bits → padded n bits ≡ bits
unfolding padded
padded_lem zero [] h = refl
padded_lem zero (b ∷ bits) h = absurd (omega arith)
padded_lem (suc n) [] h = absurd (omega arith)
padded_lem (suc n) (b ∷ bits) h = ap (λ l. b ∷ l) (padded_lem n bits (omega arith))

read_path-Agree :
    (reserved : List (List Bool)) (m1 m2 : List (List ℕ)) (path : List Place)
    → Agree reserved m1 m2
    → read_path reserved m1 path ≡ read_path reserved m2 path
unfolding read_path
read_path-Agree reserved m1 m2 [] h = refl
read_path-Agree reserved m1 m2 ((y, x) ∷ path) h = elim (Bool-cases (reserved_at reserved y x)) [
  | inl e ↦ rw e (read_path-Agree reserved m1 m2 path h)
  | inr e ↦ let rest = read_path-Agree reserved m1 m2 path h in rw e (λ i. h y x e i ∷ rest i)
]

-- What a reader makes of a matrix whose version and mask it knows.
unfoldable pub read_symbol : ℕ → ℕ → List (List ℕ) → List ℕ
read_symbol version pattern matrix =
    read_path (function_patterns version).1
      (apply_mask matrix (function_patterns version).1 pattern) (zigzag_of version)

pub read_symbol-masked :
    (bytes : List ℕ) (version pattern : ℕ) (filled : List (List ℕ))
    → 1 ≤ version
    → version < 11
    → Fits version (length bytes)
    → filled
      ≡ place_data
          (size_of version)
          (function_patterns version).0
          (function_patterns version).1
          (symbol_bits bytes version)
    → read_symbol version pattern (apply_mask filled (function_patterns version).1 pattern)
      ≡ symbol_bits bytes version
unfolding read_symbol IsDrawn
read_symbol-masked bytes version pattern filled low high fits e =
    let reserved = (function_patterns version).1 in
    ap (λ m. read_path reserved m (zigzag_of version))
      ((apply_mask_twice filled reserved pattern 0 0).0 ∙ e)
    ∙ place_data-read (size_of version) (function_patterns version).0 reserved
        (symbol_bits bytes version) (function_patterns-IsSquare version)
    ∙ padded_lem _ (symbol_bits bytes version) (
        (function_patterns-IsDrawn version low high).2
        ∙ sym (length-symbol_bits bytes version fits))

pub read_symbol-written :
    (version pattern : ℕ) (matrix : List (List ℕ))
    → 1 ≤ version
    → version < 11
    → read_symbol version pattern (
        write_version_bits
          (size_of version)
          version
          (write_format_bits (size_of version) pattern matrix))
      ≡ read_symbol version pattern matrix
unfolding read_symbol IsDrawn
read_symbol-written version pattern matrix low high =
    let reserved = (function_patterns version).1 in
    let (format, versions, count) = function_patterns-IsDrawn version low high in
    let (shaped, same) =
      written-Alike (size_of version) reserved version pattern matrix format
        (or_else (ltb version 7) (version_is_reserved (size_of version) reserved 18 0) versions) in
    read_path-Agree reserved _ _ (zigzag_of version)
      (apply_mask-Agree _ matrix reserved pattern shaped same)
