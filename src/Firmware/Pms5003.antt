-- ===== src/Firmware/Pms5003.antt =====
-- firmware/src/drivers/pms5003.py: the particulate sensor's 32-byte frame, its checksum, and the
-- search for a frame's header in the UART stream. A `bytes` value is a list of numbers below 256.
pub mod Checksum
pub mod Stream
use Prim.Native.Nat.{bit_and, bit_or}
use swelter.Prelude.{
  ℕ, zero, suc, ◌+◌, ◌*◌, ◌-◌, ◌^◌, List, [], ◌∷◌, ◌++◌, Bool, true, false, not, ◌&&◌, ◌||◌,
  if◌then◌else◌, ◌==◌, Option, none, some, length, get_or, take,
}

abbrev pub start_byte_1 : ℕ
start_byte_1 = 0x42

abbrev pub start_byte_2 : ℕ
start_byte_2 = 0x4D

abbrev pub frame_length : ℕ
frame_length = 32

abbrev pub checksum_offset : ℕ
checksum_offset = 30

-- The ways in which a read fails.
pub data Pms5003Error : Type 0 where
  wrong_length bad_start checksum_mismatch short_frame header_not_found uart_failed : Pms5003Error

pub data Result {ℓ} (A : Type ℓ) : Type ℓ where
  ok : A → Result A
  err : Pms5003Error → Result A

infixl 5 ◌>>=◌
abbrev pub ◌>>=◌ {ℓ κ} : {A : Type ℓ} {B : Type κ} → Result A → (A → Result B) → Result B
ok a >>= f = f a
err e >>= f = err e

-- The dictionary that `parse_frame` returns.
pub record Fields : Type 0 where
  pub frame_length_field : ℕ
  pub pm1_0_cf1 : ℕ
  pub pm2_5_cf1 : ℕ
  pub pm10_cf1 : ℕ
  pub pm1_0_ugm3 : ℕ
  pub pm25_ugm3 : ℕ
  pub pm10_ugm3 : ℕ
  pub particles_0_3um : ℕ
  pub particles_0_5um : ℕ
  pub particles_1_0um : ℕ
  pub particles_2_5um : ℕ
  pub particles_5_0um : ℕ
  pub particles_10um : ℕ
  pub version : ℕ
  pub error_code : ℕ
  pub checksum : ℕ

unfoldable pub u16 : List ℕ → ℕ → ℕ
u16 buf offset = bit_or (get_or buf offset 0 * 2 ^ 8) (get_or buf (offset + 1) 0)

unfoldable pub sum : List ℕ → ℕ
sum [] = 0
sum (x ∷ xs) = x + sum xs

-- The sum over the first 30 bytes, to 16 bits.
unfoldable pub computed : List ℕ → ℕ
computed buf = bit_and (sum (take checksum_offset buf)) 0xFFFF

unfoldable pub decoded : List ℕ → Fields
unfolding u16
decoded buf = record {
  frame_length_field = u16 buf 2;
  pm1_0_cf1 = u16 buf 4;
  pm2_5_cf1 = u16 buf 6;
  pm10_cf1 = u16 buf 8;
  pm1_0_ugm3 = u16 buf 10;
  pm25_ugm3 = u16 buf 12;
  pm10_ugm3 = u16 buf 14;
  particles_0_3um = u16 buf 16;
  particles_0_5um = u16 buf 18;
  particles_1_0um = u16 buf 20;
  particles_2_5um = u16 buf 22;
  particles_5_0um = u16 buf 24;
  particles_10um = u16 buf 26;
  version = get_or buf 28 0;
  error_code = get_or buf 29 0;
  checksum = u16 buf checksum_offset;
}

unfoldable pub parse_frame : List ℕ → Result Fields
parse_frame buf =
    if not (length buf == frame_length)
    then err wrong_length
    else if not (get_or buf 0 0 == start_byte_1) || not (get_or buf 1 0 == start_byte_2)
    then err bad_start
    else if not (computed buf == u16 buf checksum_offset)
    then err checksum_mismatch
    else ok (decoded buf)

-- A UART: what it answers to a request of n bytes, and the port after that. `none` is an exception
-- that the port raised; Python's `None` and an empty answer are both the empty list, which the
-- driver does not tell apart.
pub record Uart : Type 1 where
  pub Port : Type 0
  pub read_bytes : Port → ℕ → Option (List ℕ) × Port

-- `prev == START_BYTE_1`, where `none` stands for the initial -1.
abbrev pub is_start : Option ℕ → Bool
is_start none = false
is_start (some byte) = byte == start_byte_1

module _ (uart : Uart) where
  open uart use {Port, read_bytes}

  -- After the header: the other 30 bytes.
  unfoldable pub read_rest : Port → Result (List ℕ)
  read_rest port = elim (read_bytes port (frame_length - 2)).0 [
    | none ↦ err uart_failed
    | some rest ↦
        if length rest == frame_length - 2
        then ok (start_byte_1 ∷ start_byte_2 ∷ rest)
        else err short_frame
  ]

  -- `_read_frame`, with the attempts that are left and the byte read before.
  unfoldable pub read_frame : ℕ → Option ℕ → Port → Result (List ℕ)
  unfolding read_rest
  read_frame zero prev port = err header_not_found
  read_frame (suc attempts) prev port =
      let (answer, port') = read_bytes port 1 in
      elim answer [
        | none ↦ err uart_failed
        | some [] ↦ read_frame attempts prev port'
        | some (byte ∷ _) ↦ elim (is_start prev && (byte == start_byte_2)) [
          | true ↦ read_rest port'
          | false ↦ read_frame attempts (some byte) port'
        ]
      ]

  -- `Pms5003.read`: the concentrations of PM2.5 and PM10.
  unfoldable pub read : ℕ → Port → Result (ℕ × ℕ)
  read read_attempts port = do
    frame ← read_frame read_attempts none port
    fields ← parse_frame frame
    ok (fields.pm25_ugm3, fields.pm10_ugm3)
