-- ===== src/Firmware/Sht31/Detection.antt =====
-- What the CRC of a data word catches, and that the driver reads what a sensor sends.
use Prim.Native.Nat.{bit_xor}
use swelter.Prelude.{
  ℕ, zero, suc, ◌+◌, ◌/◌, ◌%◌, ◌<◌, ◌≡◌, ◌≢◌, refl, sym, ap, ◌∙◌, List, [], ◌∷◌, ◌++◌, true,
  if◌then◌else◌, ◌==◌, ==→eq, ==_refl, ltb, ltb→lt, arith, Bool-cases, inl, inr,
}
use swelter.Prelude.Bits.{tabulated, look_up, bit_xor_left_cancel, bit_xor_comm, bit_xor-lt}
use swelter.Prelude.Masks.{bit_or_pack}
use swelter.Float.{Float}
use swelter.Firmware.Sht31.{
  crc_round, crc_rounds, crc8, word, crc_init, ok, err, crc_mismatch, parse_measurement,
  convert_raw,
}

-- The round backwards: the polynomial is odd, so the lowest digit says whether it was added.
undo_round : ℕ → ℕ
undo_round crc = if crc % 2 == 0 then crc / 2 else bit_xor crc 0x31 / 2 + 128

undo_table : tabulated (λ c. undo_round (crc_round c) == c) 256 ≡ true
unfolding tabulated crc_round undo_round
undo_table = refl

range_table : tabulated (λ c. ltb (crc_round c) 256) 256 ≡ true
unfolding tabulated crc_round
range_table = refl

crc_round-lt : (c : ℕ) → c < 256 → crc_round c < 256
crc_round-lt c h = ltb→lt _ _ (look_up _ 256 range_table c h)

undo_round-crc_round : (c : ℕ) → c < 256 → undo_round (crc_round c) ≡ c
undo_round-crc_round c h = ==→eq _ _ (look_up _ 256 undo_table c h)

crc_round_injective : (c d : ℕ) → c < 256 → d < 256 → crc_round c ≡ crc_round d → c ≡ d
crc_round_injective c d h k e =
    sym (undo_round-crc_round c h) ∙ ap undo_round e ∙ undo_round-crc_round d k

crc_rounds-lt : (n c : ℕ) → c < 256 → crc_rounds n c < 256
unfolding crc_rounds
crc_rounds-lt zero c h = h
crc_rounds-lt (suc n) c h = crc_rounds-lt n (crc_round c) (crc_round-lt c h)

crc_rounds_injective : (n c d : ℕ) → c < 256 → d < 256 → crc_rounds n c ≡ crc_rounds n d → c ≡ d
unfolding crc_rounds
crc_rounds_injective zero c d h k e = e
crc_rounds_injective (suc n) c d h k e =
    crc_round_injective c d h k (crc_rounds_injective n _ _ (crc_round-lt c h) (crc_round-lt d k) e)

-- One byte into the register.
absorb : ℕ → ℕ → ℕ
absorb crc byte = crc_rounds 8 (bit_xor crc byte)

absorb-lt : (crc byte : ℕ) → crc < 256 → byte < 256 → absorb crc byte < 256
unfolding absorb
absorb-lt crc byte h k = crc_rounds-lt 8 _ (bit_xor-lt 8 crc byte h k)

absorb_byte_injective :
    (crc a b : ℕ) → crc < 256 → a < 256 → b < 256 → absorb crc a ≡ absorb crc b → a ≡ b
unfolding absorb
absorb_byte_injective crc a b h k l e =
    bit_xor_left_cancel crc a b
      (crc_rounds_injective 8 _ _ (bit_xor-lt 8 crc a h k) (bit_xor-lt 8 crc b h l) e)

absorb_crc_injective :
    (c d byte : ℕ) → c < 256 → d < 256 → byte < 256 → absorb c byte ≡ absorb d byte → c ≡ d
unfolding absorb
absorb_crc_injective c d byte h k l e = bit_xor_left_cancel byte c d (
    bit_xor_comm byte c
    ∙ crc_rounds_injective 8 _ _ (bit_xor-lt 8 c byte h l) (bit_xor-lt 8 d byte k l) e
    ∙ bit_xor_comm d byte)

crc8-absorb : (a b : ℕ) → crc8 (a ∷ b ∷ []) ≡ absorb (absorb crc_init a) b
unfolding crc8 absorb
crc8-absorb a b = refl

crc8-lt : (a b : ℕ) → a < 256 → b < 256 → crc8 (a ∷ b ∷ []) < 256
crc8-lt a b h k = rw (crc8-absorb a b) (absorb-lt _ b (absorb-lt 255 a (omega arith) h) k)

-- Two data words of which exactly one byte differs have different check values.
crc8_one_byte :
    (a b c d : ℕ)
    → a < 256
    → b < 256
    → c < 256
    → d < 256
    → crc8 (a ∷ b ∷ []) ≡ crc8 (c ∷ d ∷ [])
    → ((a ≡ c → b ≡ d) × (b ≡ d → a ≡ c))
crc8_one_byte a b c d ha hb hc hd e = (
  λ same.
      absorb_byte_injective (absorb crc_init a) b d (absorb-lt 255 a (omega arith) ha) hb hd
        (let f = absorbed in rw (← same) at f),
  λ same. absorb_byte_injective crc_init a c (omega arith) ha hc (
      absorb_crc_injective _ _ b (absorb-lt 255 a (omega arith) ha)
        (absorb-lt 255 c (omega arith) hc) hb (let f = absorbed in rw (← same) at f)),
)
  where
    absorbed : absorb (absorb crc_init a) b ≡ absorb (absorb crc_init c) d
    absorbed = sym (crc8-absorb a b) ∙ e ∙ crc8-absorb c d

word-crc : (m l c w : ℕ) → word m l c ≡ ok w → crc8 (m ∷ l ∷ []) ≡ c
unfolding word
word-crc m l c w h = elim (Bool-cases (crc8 (m ∷ l ∷ []) == c)) [
  | inl e ↦ ==→eq _ _ e
  | inr e ↦ cc (rw e at h)
]

word_rejects : (m l c : ℕ) → crc8 (m ∷ l ∷ []) ≢ c → word m l c ≡ err crc_mismatch
unfolding word
word_rejects m l c n = elim (Bool-cases (crc8 (m ∷ l ∷ []) == c)) [
  | inl e ↦ absurd (n (==→eq _ _ e))
  | inr e ↦ rw e refl
]

-- If the driver accepts a data word, it rejects the three bytes with any one of them, and only
-- one, changed to another byte: no error within a single byte of a word goes unnoticed.
pub word_detects :
    (m l c w m' l' c' : ℕ)
    → m < 256
    → l < 256
    → m' < 256
    → l' < 256
    → word m l c ≡ ok w
    → m' ≢ m
    → l' ≢ l
    → c' ≢ c
    → (word m' l c ≡ err crc_mismatch)
      × (word m l' c ≡ err crc_mismatch)
      × (word m l c' ≡ err crc_mismatch)
word_detects m l c w m' l' c' hm hl hm' hl' h nm nl nc =
    let e = word-crc m l c w h in
    (
      word_rejects m' l c (λ f. nm ((crc8_one_byte m' l m l hm' hl hm hl (f ∙ sym e)).1 refl)),
      word_rejects m l' c (λ f. nl ((crc8_one_byte m l' m l hm hl' hm hl (f ∙ sym e)).0 refl)),
      word_rejects m l c' (λ f. nc (sym f ∙ e)),
    )

-- The three bytes in which the sensor sends a 16-bit count.
abbrev pub wire : ℕ → List ℕ
wire n = n / 256 ∷ n % 256 ∷ crc8 (n / 256 ∷ n % 256 ∷ []) ∷ []

word-wire : (n : ℕ) → word (n / 256) (n % 256) (crc8 (n / 256 ∷ n % 256 ∷ [])) ≡ ok n
unfolding word
word-wire n =
    rw (==_refl (crc8 (n / 256 ∷ n % 256 ∷ [])))
      (ap ok (bit_or_pack 8 (n / 256) (n % 256) (omega arith) ∙ omega arith))

module _ (float : Float) where
  -- From the six bytes in which the sensor sends any two counts the driver recovers exactly these
  -- counts, and returns their conversion.
  pub parse_measurement-wire :
      (raw_temp raw_humidity : ℕ)
      → parse_measurement float (wire raw_temp ++ wire raw_humidity)
        ≡ ok (convert_raw float raw_temp raw_humidity)
  unfolding parse_measurement
  parse_measurement-wire t h = rw (word-wire t, word-wire h)
