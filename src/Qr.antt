-- ===== src/Qr.antt =====
-- src/swelter/qr.py: the data codewords of a QR code at error-correction level M.
-- Bytes and bits are numbers; `>> i` and `& 1` are a division by 2 ** i and a remainder.
pub mod Capacity
pub mod Mask
pub mod Field
pub mod Codes
pub mod Interleave
pub mod Matrix
pub mod Data
pub mod Penalty
pub mod Build
pub mod Svg
mod Examples
use swelter.Prelude.{
  ℕ, zero, suc, ◌+◌, ◌-◌, ◌*◌, ◌/◌, ◌%◌, ◌^◌, ◌≡◌, List, [], ◌∷◌, ◌++◌, length, take, drop, get_or,
  min, Bool, true, false, if◌then◌else◌, Option, none, some, leb, ltb, ◌==◌,
}

-- A number of blocks with their codewords and data codewords.
abbrev pub Blocks : Type 0
Blocks = ℕ × ℕ × ℕ

-- `_RS_BLOCKS`, from version 1 on.
abbrev pub rs_blocks : List (List Blocks)
rs_blocks =
    ((1, 26, 16) ∷ [])
    ∷ ((1, 44, 28) ∷ [])
    ∷ ((1, 70, 44) ∷ [])
    ∷ ((2, 50, 32) ∷ [])
    ∷ ((2, 67, 43) ∷ [])
    ∷ ((4, 43, 27) ∷ [])
    ∷ ((4, 49, 31) ∷ [])
    ∷ ((2, 60, 38) ∷ (2, 61, 39) ∷ [])
    ∷ ((3, 58, 36) ∷ (2, 59, 37) ∷ [])
    ∷ ((4, 69, 43) ∷ (1, 70, 44) ∷ [])
    ∷ []

abbrev pub max_version : ℕ
max_version = 10

abbrev pub data_sum : List Blocks → ℕ
data_sum [] = 0
data_sum ((n, total, codewords) ∷ blocks) = n * codewords + data_sum blocks

-- `_data_codewords`; there are no blocks outside the versions of the table.
unfoldable pub data_codewords : ℕ → ℕ
data_codewords version = data_sum (get_or rs_blocks (version - 1) [])

abbrev pub count_bits : ℕ → ℕ
count_bits version = if leb version 9 then 8 else 16

-- `needed`
abbrev pub needed_bits : ℕ → ℕ → ℕ
needed_bits version byte_len = 4 + count_bits version + 8 * byte_len

-- The loop of `_choose_version`, with the versions that are left; none is QRTooLargeError.
unfoldable pub choose_from : ℕ → ℕ → ℕ → Option ℕ
unfolding data_codewords
choose_from zero version byte_len = none
choose_from (suc left) version byte_len =
    let later = choose_from left (suc version) byte_len in
    if leb (needed_bits version byte_len) (data_codewords version * 8) then some version else later

unfoldable pub choose_version : ℕ → Option ℕ
unfolding choose_from
choose_version byte_len = choose_from max_version 1 byte_len

-- `_BitBuffer.put`: the bits that it appends.
unfoldable pub put : ℕ → ℕ → List ℕ
put value zero = []
put value (suc i) = value / 2 ^ i % 2 ∷ put value i

unfoldable pub put_all : List ℕ → List ℕ
unfolding put
put_all [] = []
put_all (byte ∷ bytes) = put byte 8 ++ put_all bytes

-- `while len(buf) % 8 != 0: buf.put(0, 1)`, with the rounds that are left.
unfoldable pub fill_byte : ℕ → List ℕ → List ℕ
fill_byte zero bits = bits
fill_byte (suc left) bits =
    let more = fill_byte left (bits ++ 0 ∷ []) in if length bits % 8 == 0 then bits else more

-- `int(..., 2)` of the digits, from the value so far.
unfoldable pub from_digits : ℕ → List ℕ → ℕ
from_digits value [] = value
from_digits value (b ∷ bits) = from_digits (value * 2 + b) bits

-- The codewords of the bits, for `range(0, len(buf), 8)` with as many steps.
unfoldable pub chunks : ℕ → List ℕ → List ℕ
unfolding from_digits
chunks zero bits = []
chunks (suc steps) bits = from_digits 0 (take 8 bits) ∷ chunks steps (drop 8 bits)

-- The loop over `pad`, with the rounds that are left.
unfoldable pub pads : ℕ → ℕ → List ℕ
pads zero i = []
pads (suc left) i = (if i % 2 == 0 then 0xec else 0x11) ∷ pads left (i + 1)

-- The bits before the filling of the last byte.
unfoldable pub stream : List ℕ → ℕ → List ℕ
unfolding put put_all
stream bytes version =
    let bits = put 4 4 ++ put (length bytes) (count_bits version) ++ put_all bytes in
    bits ++ put 0 (min 4 (data_codewords version * 8 - length bits))

unfoldable pub encode_codewords : List ℕ → ℕ → List ℕ
unfolding stream fill_byte chunks pads
encode_codewords bytes version =
    let bits = fill_byte 7 (stream bytes version) in
    let codewords = chunks ((length bits + 7) / 8) bits in
    codewords ++ pads (data_codewords version - length codewords) 0
