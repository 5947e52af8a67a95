-- ===== src/Qr/Data.antt =====
-- src/swelter/qr.py: `_place_data`, the zigzag over the modules that are not reserved.
pub mod Kept
pub mod Read
pub mod Path
pub mod Back
use Prim.Native.Nat.{bit_and}
use swelter.Prelude.{ℕ, zero, suc, ◌+◌, ◌-◌, List, [], ◌∷◌, Bool, if◌then◌else◌, leb, ◌==◌}
use swelter.Qr.Mask.{reserved_at}
use swelter.Qr.Matrix.{write_at}

-- The matrix with the bits that are left; beyond the last bit a module is 0.
abbrev pub Placing : Type 0
Placing = List (List ℕ) × List ℕ

abbrev pub bit_or_zero : List ℕ → ℕ
bit_or_zero [] = 0
bit_or_zero (b ∷ bits) = b

abbrev pub next_bits : List ℕ → List ℕ
next_bits [] = []
next_bits (b ∷ bits) = bits

unfoldable pub place_bit : List (List Bool) → ℕ → ℕ → Placing → Placing
unfolding write_at
place_bit reserved y x (matrix, bits) =
    if reserved_at reserved y x
    then (matrix, bits)
    else (write_at y x (bit_or_zero bits) matrix, next_bits bits)

-- The two columns to the left of `right`, with the rows that are left.
unfoldable pub place_pair : ℕ → List (List Bool) → ℕ → ℕ → ℕ → Placing → Placing
unfolding place_bit
place_pair size reserved right zero vert placing = placing
place_pair size reserved right (suc rows) vert placing =
    let y = if bit_and (right + 1) 2 == 0 then size - 1 - vert else vert in
    place_pair size reserved right rows (vert + 1)
      (place_bit reserved y (right - 1) (place_bit reserved y right placing))

-- `if right == 6: right = 5`
abbrev pub skip_timing : ℕ → ℕ
skip_timing right = if right == 6 then 5 else right

-- `right` falls in each round, so that the size is enough of them.
unfoldable pub place_pairs : ℕ → List (List Bool) → ℕ → ℕ → Placing → Placing
unfolding place_pair
place_pairs size reserved zero right placing = placing
place_pairs size reserved (suc rounds) right placing =
    let column = skip_timing right in
    let more =
      place_pairs size reserved rounds (column - 2)
        (place_pair size reserved column size 0 placing) in
    if leb 1 right then more else placing

unfoldable pub place_data : ℕ → List (List ℕ) → List (List Bool) → List ℕ → List (List ℕ)
unfolding place_pairs
place_data size matrix reserved bits = (place_pairs size reserved size (size - 1) (matrix, bits)).0
