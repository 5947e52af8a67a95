-- ===== src/Firmware/Sht31.antt =====
-- firmware/src/drivers/sht31.py: the CRC-8 of the sensor's words, the datasheet conversion and the
-- reading over the I2C bus. A `bytes` value is a list of numbers below 256.
pub mod Detection
use Prim.Native.Nat.{bit_and, bit_or, bit_xor}
use swelter.Prelude.{
  ℕ, zero, suc, ◌*◌, ◌<◌, ◌^◌, ◌≡◌, List, [], ◌∷◌, Bool, if◌then◌else◌, ◌==◌, Option, none, some,
}
use swelter.Prelude.Int.{negsuc}
use swelter.Float.{Float}

abbrev pub crc_polynomial : ℕ
crc_polynomial = 0x31

abbrev pub crc_init : ℕ
crc_init = 0xFF

-- One round of the inner loop of `crc8`.
unfoldable pub crc_round : ℕ → ℕ
crc_round crc =
    if bit_and crc 0x80 == 0
    then bit_and (crc * 2) 0xFF
    else bit_and (bit_xor (crc * 2) crc_polynomial) 0xFF

-- `for _ in range(8)`
unfoldable pub crc_rounds : ℕ → ℕ → ℕ
unfolding crc_round
crc_rounds zero crc = crc
crc_rounds (suc n) crc = crc_rounds n (crc_round crc)

-- `for byte in data`
unfoldable pub crc_bytes : ℕ → List ℕ → ℕ
unfolding crc_rounds
crc_bytes crc [] = crc
crc_bytes crc (byte ∷ data') = crc_bytes (crc_rounds 8 (bit_xor crc byte)) data'

unfoldable pub crc8 : List ℕ → ℕ
unfolding crc_bytes
crc8 bytes = crc_bytes crc_init bytes

-- What a read raises; the last two wrap what the bus raised.
pub data Sht31Error : Type 0 where
  crc_mismatch wrong_length transfer_failed : Sht31Error

pub data Result {ℓ} (A : Type ℓ) : Type ℓ where
  ok : A → Result A
  err : Sht31Error → Result A

infixl 5 ◌>>=◌
abbrev pub ◌>>=◌ {ℓ κ} : {A : Type ℓ} {B : Type κ} → Result A → (A → Result B) → Result B
ok a >>= f = f a
err e >>= f = err e

unfoldable pub word : ℕ → ℕ → ℕ → Result ℕ
word msb lsb crc =
    if crc8 (msb ∷ lsb ∷ []) == crc then ok (bit_or (msb * 2 ^ 8) lsb) else err crc_mismatch

module _ (float : Float) where
  open float use {F, of_nat, decimal, add, mul, div, lt}

  -- `max(0.0, x)` and `min(100.0, x)` keep their first argument unless the second passes it.
  abbrev pub clamp_pct : F → F
  clamp_pct x =
      let low = if lt (of_nat 0) x then x else of_nat 0 in
      if lt low (of_nat 100) then low else of_nat 100

  unfoldable pub convert_raw : ℕ → ℕ → F × F
  convert_raw raw_temp raw_humidity = (
    add (decimal (negsuc 44) 0) (div (mul (of_nat 175) (of_nat raw_temp)) (of_nat 65535)),
    clamp_pct (div (mul (of_nat 100) (of_nat raw_humidity)) (of_nat 65535)),
  )

  unfoldable pub parse_measurement : List ℕ → Result (F × F)
  parse_measurement (b0 ∷ b1 ∷ b2 ∷ b3 ∷ b4 ∷ b5 ∷ []) = do
    raw_temp ← word b0 b1 b2
    raw_humidity ← word b3 b4 b5
    ok (convert_raw raw_temp raw_humidity)
  parse_measurement _ = err wrong_length

  -- A bus: what it answers to the measurement command and to a request of n bytes; `none` is an
  -- exception that the bus raised. The wait between the two has no effect on the result.
  pub record I2c : Type 1 where
    pub Bus : Type 0
    pub writeto : Bus → ℕ → List ℕ → Option Bus
    pub readfrom : Bus → ℕ → ℕ → Option (List ℕ)

  -- `Sht31.read`
  unfoldable pub read : (i2c : I2c) → i2c.Bus → ℕ → Result (F × F)
  read i2c bus address = elim (i2c.writeto bus address (0x2C ∷ 0x06 ∷ [])) [
    | none ↦ err transfer_failed
    | some bus' ↦ elim (i2c.readfrom bus' address 6) [
      | none ↦ err transfer_failed
      | some buf ↦ parse_measurement buf
    ]
  ]
