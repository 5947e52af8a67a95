-- ===== src/Qr/Capacity.antt =====
-- The version that is chosen is the least that holds the data, and its codewords are filled
-- exactly.
use mathlib.Core.Bool.{true≢false}
use swelter.Prelude.{
  ◌≢◌, ℕ, zero, suc, ◌+◌, ◌-◌, ◌*◌, ◌/◌, ◌%◌, ◌≤◌, ◌<◌, ◌≡◌, refl, sym, ap, subst, ◌∙◌, List, [],
  ◌∷◌, ◌++◌, length, length-append, min, true, false, Option, none, some, leb, leb→le, leb-false→lt,
  ◌==◌, ==→eq, arith, Bool-cases, inl, inr,
}
use swelter.Qr.{
  data_codewords, count_bits, needed_bits, choose_from, choose_version, max_version, put, put_all,
  fill_byte, chunks, pads, stream, encode_codewords,
}

-- The data fits into a version.
abbrev pub Fits : ℕ → ℕ → Type 0
Fits version byte_len = needed_bits version byte_len ≤ data_codewords version * 8

-- The answer is the least version from the first on that holds the data, or none of them does.
unfoldable pub IsLeast : ℕ → ℕ → ℕ → Option ℕ → Type 0
IsLeast left first byte_len none =
    (v : ℕ) → first ≤ v → v < first + left → data_codewords v * 8 < needed_bits v byte_len
IsLeast left first byte_len (some version) =
    (first ≤ version)
    × (version < first + left)
    × Fits version byte_len
    × ((v : ℕ) → first ≤ v → v < version → data_codewords v * 8 < needed_bits v byte_len)

IsLeast-later :
    (left first byte_len : ℕ) (o : Option ℕ)
    → data_codewords first * 8 < needed_bits first byte_len
    → IsLeast left (suc first) byte_len o
    → IsLeast (suc left) first byte_len o
unfolding IsLeast
IsLeast-later left first byte_len none h none_fits = λ v low high. elim (Bool-cases (v == first)) [
  | inl e ↦ rw (==→eq v first e) h
  | inr e ↦ none_fits v (ground arith) (omega arith)
]
IsLeast-later left first byte_len (some version) h (low, high, fits, least) = (
  omega arith,
  omega arith,
  fits,
  λ v above below. elim (Bool-cases (v == first)) [
    | inl e ↦ rw (==→eq v first e) h
    | inr e ↦ least v (ground arith) below
  ],
)

choose_from-IsLeast :
    (left first byte_len : ℕ) → IsLeast left first byte_len (choose_from left first byte_len)
unfolding choose_from IsLeast
choose_from-IsLeast zero first byte_len = none_left first byte_len
  where
    none_left : (first byte_len : ℕ) → IsLeast zero first byte_len none
    none_left first byte_len = λ v h k. absurd (omega arith)
choose_from-IsLeast (suc left) first byte_len =
    elim (Bool-cases (leb (needed_bits first byte_len) (data_codewords first * 8))) [
      | inl e ↦
          subst (IsLeast (suc left) first byte_len) (sym (found e))
            (omega arith, omega arith, leb→le _ _ e, (λ v h k. absurd (omega arith)))
      | inr e ↦ subst (IsLeast (suc left) first byte_len) (sym (later e)) (
          IsLeast-later left first byte_len _ (leb-false→lt _ _ e)
            (choose_from-IsLeast left (suc first) byte_len))
    ]
  where
    found :
        leb (needed_bits first byte_len) (data_codewords first * 8) ≡ true
        → choose_from (suc left) first byte_len ≡ some first
    found e = rw (choose_from, e) refl

    later :
        leb (needed_bits first byte_len) (data_codewords first * 8) ≡ false
        → choose_from (suc left) first byte_len ≡ choose_from left (suc first) byte_len
    later e = rw (choose_from, e) refl

-- For any number of bytes: if a version is chosen, it is one of 1 to 10, holds the header and the
-- bytes, and no smaller version does; if none is, no version of 1 to 10 does.
pub choose_version-IsLeast :
    (byte_len : ℕ) → IsLeast max_version 1 byte_len (choose_version byte_len)
unfolding choose_version
choose_version-IsLeast byte_len = choose_from-IsLeast max_version 1 byte_len

length-put : (value n : ℕ) → length (put value n) ≡ n
unfolding put
length-put value zero = refl
length-put value (suc n) = ap suc (length-put value n)

pub length-put_all : (bytes : List ℕ) → length (put_all bytes) ≡ 8 * length bytes
unfolding put_all
length-put_all [] = refl
length-put_all (b ∷ bytes) =
    length-append (put b 8) (put_all bytes) ∙ omega (arith, length-put b 8, length-put_all bytes)

length-chunks : (steps : ℕ) (bits : List ℕ) → length (chunks steps bits) ≡ steps
unfolding chunks
length-chunks zero bits = refl
length-chunks (suc steps) bits = ap suc (length-chunks steps _)

length-pads : (left i : ℕ) → length (pads left i) ≡ left
unfolding pads
length-pads zero i = refl
length-pads (suc left) i = ap suc (length-pads left (i + 1))

-- The bits that are missing to a whole number of bytes.
abbrev missing : ℕ → ℕ
missing n = (8 - n % 8) % 8

length-fill_byte :
    (left : ℕ) (bits : List ℕ)
    → missing (length bits) ≤ left
    → length (fill_byte left bits) ≡ length bits + missing (length bits)
unfolding fill_byte
length-fill_byte zero bits h = omega arith
length-fill_byte (suc left) bits h = elim (Bool-cases (length bits % 8 == 0)) [
  | inl e ↦ ap length (whole_bytes e) ∙ (let z : length bits % 8 ≡ 0 = ==→eq _ _ e in omega arith)
  | inr e ↦
      let one : length (bits ++ 0 ∷ []) ≡ length bits + 1 = length-append bits (0 ∷ []) in
      let odd : length bits % 8 ≢ 0 = λ z. true≢false (sym (rw z refl) ∙ e) in
      ap length (one_more e) ∙ length-fill_byte left (bits ++ 0 ∷ []) (omega arith) ∙ omega arith
]
  where
    whole_bytes : (length bits % 8 == 0) ≡ true → fill_byte (suc left) bits ≡ bits
    whole_bytes e = rw (fill_byte, e) refl

    one_more :
        (length bits % 8 == 0) ≡ false → fill_byte (suc left) bits ≡ fill_byte left (bits ++ 0 ∷ [])
    one_more e = rw (fill_byte, e) refl

length-stream :
    (bytes : List ℕ) (version : ℕ)
    → length (stream bytes version)
      ≡ needed_bits version (length bytes)
        + min 4 (data_codewords version * 8 - needed_bits version (length bytes))
unfolding stream
length-stream bytes version =
    let header : length (put 4 4 ++ put (length bytes) (count_bits version) ++ put_all bytes)
        ≡ needed_bits version (length bytes) =
      length-append (put 4 4) (put (length bytes) (count_bits version) ++ put_all bytes)
      ∙ omega (
        arith,
        length-put 4 4,
        length-append (put (length bytes) (count_bits version)) (put_all bytes),
        length-put (length bytes) (count_bits version),
        length-put_all bytes,
      ) in
    length-append (put 4 4 ++ put (length bytes) (count_bits version) ++ put_all bytes) _
    ∙ omega (
      arith,
      header,
      length-put 0 (
          min 4 (
            data_codewords version * 8
            - length (put 4 4 ++ put (length bytes) (count_bits version) ++ put_all bytes))),
    )

-- The hypothesis is that the data fits into the version. Then there are exactly as many codewords
-- as the version has for data.
pub length-encode_codewords :
    (bytes : List ℕ) (version : ℕ)
    → Fits version (length bytes)
    → length (encode_codewords bytes version) ≡ data_codewords version
unfolding encode_codewords
length-encode_codewords bytes version h =
    let bits = fill_byte 7 (stream bytes version) in
    let codewords = chunks ((length bits + 7) / 8) bits in
    length-append codewords (pads (data_codewords version - length codewords) 0)
    ∙ omega (
      arith,
      h,
      length-pads (data_codewords version - length codewords) 0,
      length-chunks ((length bits + 7) / 8) bits,
      length-fill_byte 7 (stream bytes version) (omega arith),
      length-stream bytes version,
    )
