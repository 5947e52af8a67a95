-- ===== src/Qr/Mask.antt =====
-- src/swelter/qr.py: the masks of the matrix. A matrix is the list of its rows; the matrix and the
-- grid of its reserved modules are squares of one size.
pub mod Involution
pub mod Alike
use Prim.Native.Nat.{bit_xor}
use swelter.Prelude.{
  ℕ, zero, suc, ◌+◌, ◌*◌, ◌/◌, ◌%◌, ◌≡◌, List, [], ◌∷◌, Bool, true, false, not, ◌&&◌, if◌then◌else◌,
  ◌==◌, get_or,
}

-- `_mask_fn(pattern)`, for the patterns 0 to 7.
unfoldable pub mask_fn : ℕ → ℕ → ℕ → Bool
mask_fn zero r c = (r + c) % 2 == 0
mask_fn (suc zero) r c = r % 2 == 0
mask_fn (suc (suc zero)) r c = c % 3 == 0
mask_fn (suc (suc (suc zero))) r c = (r + c) % 3 == 0
mask_fn (suc (suc (suc (suc zero)))) r c = (r / 2 + c / 3) % 2 == 0
mask_fn (suc (suc (suc (suc (suc zero))))) r c = r * c % 2 + r * c % 3 == 0
mask_fn (suc (suc (suc (suc (suc (suc zero)))))) r c = (r * c % 2 + r * c % 3) % 2 == 0
mask_fn (suc (suc (suc (suc (suc (suc (suc pattern))))))) r c = ((r + c) % 2 + r * c % 3) % 2 == 0

-- The inner loop of `_apply_mask`, from column c on.
unfoldable pub mask_row : (ℕ → ℕ → Bool) → ℕ → ℕ → List ℕ → List Bool → List ℕ
mask_row fn r c [] reserved = []
mask_row fn r c (x ∷ xs) [] = x ∷ xs
mask_row fn r c (x ∷ xs) (kept ∷ reserved) =
    (if not kept && fn r c then bit_xor x 1 else x) ∷ mask_row fn r (suc c) xs reserved

-- The outer loop, from row r on.
unfoldable pub mask_rows : (ℕ → ℕ → Bool) → ℕ → List (List ℕ) → List (List Bool) → List (List ℕ)
unfolding mask_row
mask_rows fn r [] reserved = []
mask_rows fn r (row ∷ rows) [] = row ∷ rows
mask_rows fn r (row ∷ rows) (kept ∷ reserved) =
    mask_row fn r 0 row kept ∷ mask_rows fn (suc r) rows reserved

unfoldable pub apply_mask : List (List ℕ) → List (List Bool) → ℕ → List (List ℕ)
unfolding mask_rows mask_fn
apply_mask matrix reserved pattern = mask_rows (mask_fn pattern) 0 matrix reserved

-- A module of a matrix, and whether it is reserved.
abbrev pub module_at : List (List ℕ) → ℕ → ℕ → ℕ
module_at matrix r c = get_or (get_or matrix r []) c 0

abbrev pub reserved_at : List (List Bool) → ℕ → ℕ → Bool
reserved_at reserved r c = get_or (get_or reserved r []) c false
