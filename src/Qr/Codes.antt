-- ===== src/Qr/Codes.antt =====
-- src/swelter/qr.py: the codes of the format and of the version.
pub mod Standard
use Prim.Native.Nat.{bit_or, bit_xor}
use swelter.Prelude.{ℕ, zero, suc, ◌-◌, ◌*◌, ◌/◌, ◌^◌, if◌then◌else◌, ltb, ◌==◌}

-- `value.bit_length()`, with as many rounds as are enough.
unfoldable pub bit_length_in : ℕ → ℕ → ℕ
bit_length_in zero value = 0
bit_length_in (suc rounds) value =
    let more = suc (bit_length_in rounds (value / 2)) in if value == 0 then 0 else more

unfoldable pub bit_length : ℕ → ℕ
unfolding bit_length_in
bit_length value = bit_length_in value value

abbrev pub format_generator : ℕ
format_generator = 0b10100110111

abbrev pub format_mask : ℕ
format_mask = 0b101010000010010

abbrev pub version_generator : ℕ
version_generator = 0b1111100100101

-- Each round of the loop shortens the value, so that its length is enough of them.
unfoldable pub bch_rounds : ℕ → ℕ → ℕ → ℕ
unfolding bit_length
bch_rounds zero value generator = value
bch_rounds (suc rounds) value generator =
    let shorter =
      bch_rounds rounds (bit_xor value (generator * 2 ^ (bit_length value - bit_length generator)))
        generator in
    if ltb (bit_length value) (bit_length generator) then value else shorter

unfoldable pub bch_remainder : ℕ → ℕ → ℕ
unfolding bch_rounds bit_length
bch_remainder value generator = bch_rounds (bit_length value) value generator

unfoldable pub format_bits : ℕ → ℕ
unfolding bch_remainder
format_bits mask =
    let code = bit_or (0 * 2 ^ 3) mask in
    bit_xor (bit_or (code * 2 ^ 10) (bch_remainder (code * 2 ^ 10) format_generator)) format_mask

unfoldable pub version_bits : ℕ → ℕ
unfolding bch_remainder
version_bits version =
    bit_or (version * 2 ^ 12) (bch_remainder (version * 2 ^ 12) version_generator)
