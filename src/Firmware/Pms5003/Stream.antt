-- ===== src/Firmware/Pms5003/Stream.antt =====
-- The search for a frame in the stream of the UART.
use swelter.Prelude.{
  ℕ, zero, suc, ◌+◌, ◌≤◌, ◌≡◌, ◌≢◌, ◌⊎◌, refl, ap, List, [], ◌∷◌, ◌++◌, Bool, true, false, ◌&&◌,
  ◌==◌, Option, none, some, length, get_or, take, drop, arith, Bool-cases, Option-cases, inl, inr,
  ==→eq,
}
use swelter.Firmware.Pms5003.{
  Result, ok, err, wrong_length, bad_start, Uart, Fields, is_start, read_rest, read_frame, read,
  parse_frame, ◌>>=◌, Pms5003Error,
}

pub record IsFramed (frame : List ℕ) : Type 0 where
  pub full : length frame ≡ 32
  pub start_1 : get_or frame 0 0 ≡ 0x42
  pub start_2 : get_or frame 1 0 ≡ 0x4D

answer-cases :
    (a : Option (List ℕ))
    → (a ≡ none) ⊎ ((a ≡ some []) ⊎ ((b : ℕ) × (r : List ℕ) × (a ≡ some (b ∷ r))))
answer-cases none = inl refl
answer-cases (some []) = inr (inl refl)
answer-cases (some (b ∷ r)) = inr (inr (b, r, refl))

-- A frame with its length and start bytes, or a failure that is not of `parse_frame`'s first tests.
abbrev IsSynced : Result (List ℕ) → Type 0
IsSynced (ok frame) = IsFramed frame
IsSynced (err wrong_length) = ⊥
IsSynced (err bad_start) = ⊥
IsSynced (err _) = Unit

parse_synced :
    (r : Result (List ℕ))
    → IsSynced r
    → let result : Result Fields = r >>= parse_frame in
      (result ≢ err wrong_length) × (result ≢ err bad_start)
unfolding parse_frame
parse_synced (ok frame) s = (λ e. ground (arith, s.full), λ e. ground (arith, s.start_1, s.start_2))
parse_synced (err wrong_length) s = absurd s
parse_synced (err bad_start) s = absurd s
parse_synced (err _) s = (λ e. cc, λ e. cc)

module _ (uart : Uart) where
  open uart use {Port, read_bytes}

  read_rest-IsSynced : (port : Port) → IsSynced (read_rest uart port)
  unfolding read_rest
  read_rest-IsSynced port = elim (Option-cases (read_bytes port 30).0) [
    | inl e ↦ rw (e, read_rest) tt
    | inr (rest, e) ↦ elim (Bool-cases (length rest == 30)) [
      | inl full ↦
          rw (e, full, read_rest)
            (record {
              full = omega (arith, ==→eq (length rest) 30 full);
              start_1 = refl;
              start_2 = refl;
            })
      | inr short ↦ rw (e, short, read_rest) tt
    ]
  ]

  read_frame-IsSynced :
      (attempts : ℕ) (prev : Option ℕ) (port : Port) → IsSynced (read_frame uart attempts prev port)
  unfolding read_frame
  read_frame-IsSynced zero prev port = tt
  read_frame-IsSynced (suc n) prev port =
      let port' = (read_bytes port 1).1 in
      elim (answer-cases (read_bytes port 1).0) [
        | inl e ↦ rw (e, read_frame) tt
        | inr (inl e) ↦ rw (e, read_frame) (read_frame-IsSynced n prev port')
        | inr (inr (b, r, e)) ↦ elim (Bool-cases (is_start prev && (b == 0x4D))) [
          | inl found ↦ rw (e, found, read_frame) (read_rest-IsSynced port')
          | inr more ↦ rw (e, more, read_frame) (read_frame-IsSynced n (some b) port')
        ]
      ]

  -- Whatever the UART sends, `read` never fails by the first two tests of `parse_frame`: a frame
  -- that it hands on has its length and its start bytes.
  pub read_errors :
      (attempts : ℕ) (port : Port)
      → (read uart attempts port ≢ err wrong_length) × (read uart attempts port ≢ err bad_start)
  unfolding read
  read_errors attempts port =
      let r = read_frame uart attempts none port in
      let p = parse_synced r (read_frame-IsSynced attempts none port) in
      (λ e. p.0 (unbind r wrong_length e), λ e. p.1 (unbind r bad_start e))
    where
      unbind :
          (r : Result (List ℕ)) (x : Pms5003Error)
          → (let values : Result (ℕ × ℕ) = (do
            frame ← r
            fields ← parse_frame frame
            ok (fields.pm25_ugm3, fields.pm10_ugm3)) in
              values ≡ err x)
          → (r >>= parse_frame) ≡ err x
      unbind r x e = ground arith

-- A UART that holds the bytes still to come.
abbrev pub memory : Uart
memory = record { Port = List ℕ; read_bytes = λ port n. (some (take n port), drop n port) }

-- No two neighbours are the start bytes, the byte before included.
abbrev pub NoHeader : Option ℕ → List ℕ → Type 0
NoHeader prev [] = Unit
NoHeader prev (b ∷ bs) = ((is_start prev && (b == 0x4D)) ≡ false) × NoHeader (some b) bs

take_exact : (n : ℕ) (xs ys : List ℕ) → length xs ≡ n → take n (xs ++ ys) ≡ xs
take_exact zero [] ys h = refl
take_exact zero (x ∷ xs) ys h = absurd (omega arith)
take_exact (suc n) [] ys h = absurd (omega arith)
take_exact (suc n) (x ∷ xs) ys h = ap (λ l. x ∷ l) (take_exact n xs ys (omega arith))

and-false : (b : Bool) → (b && false) ≡ false
and-false true = refl
and-false false = refl

at_header :
    (n : ℕ) (prev : Option ℕ) (rest more : List ℕ)
    → length rest ≡ 30
    → (read_frame memory (suc (suc n)) prev (0x42 ∷ 0x4D ∷ rest ++ more) ≡ ok (0x42 ∷ 0x4D ∷ rest))
unfolding read_frame
at_header n prev rest more h =
    rw (and-false (is_start prev), read_frame) (rw (take_exact 30 rest more h, h, read_rest) refl)

-- Whatever bytes stand before it, as long as no two neighbours among them are the start bytes, the
-- next frame in the stream is found, if the attempts reach its header.
pub read_frame-skips :
    (n : ℕ) (prev : Option ℕ) (junk rest more : List ℕ)
    → NoHeader prev junk
    → length rest ≡ 30
    → length junk + 2 ≤ n
    → read_frame memory n prev (junk ++ 0x42 ∷ 0x4D ∷ rest ++ more) ≡ ok (0x42 ∷ 0x4D ∷ rest)
unfolding read_frame
read_frame-skips zero prev junk rest more clean len room = absurd (omega arith)
read_frame-skips (suc zero) prev junk rest more clean len room = absurd (omega arith)
read_frame-skips (suc (suc n)) prev [] rest more clean len room = at_header n prev rest more len
read_frame-skips (suc (suc n)) prev (b ∷ junk) rest more clean len room =
    rw (clean.0, read_frame)
      (read_frame-skips (suc n) (some b) junk rest more clean.1 len (omega arith))
