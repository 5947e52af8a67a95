-- ===== src/Qr/Mask/Involution.antt =====
-- A mask that is applied twice is undone, and it leaves the reserved modules alone.
use Prim.Native.Nat.{bit_xor}
use swelter.Prelude.{
  ℕ, zero, suc, ◌≡◌, refl, List, [], ◌∷◌, Bool, true, false, not, ◌&&◌, if◌then◌else◌, get_or,
  Bool-cases, ◌⊎◌, inl, inr,
}
use swelter.Prelude.Bits.{bit_xor_cancel}
use swelter.Qr.Mask.{mask_fn, mask_row, mask_rows, apply_mask, module_at, reserved_at}

flip_twice :
    (b : Bool) (x : ℕ)
    → (if b then bit_xor (if b then bit_xor x 1 else x) 1 else (if b then bit_xor x 1 else x)) ≡ x
flip_twice true x = bit_xor_cancel x 1
flip_twice false x = refl

mask_row_twice :
    (fn : ℕ → ℕ → Bool) (r c : ℕ) (xs : List ℕ) (reserved : List Bool)
    → mask_row fn r c (mask_row fn r c xs reserved) reserved ≡ xs
unfolding mask_row
mask_row_twice fn r c [] reserved = refl
mask_row_twice fn r c (x ∷ xs) [] = refl
mask_row_twice fn r c (x ∷ xs) (kept ∷ reserved) =
    λ i. flip_twice (not kept && fn r c) x i ∷ mask_row_twice fn r (suc c) xs reserved i

mask_rows_twice :
    (fn : ℕ → ℕ → Bool) (r : ℕ) (rows : List (List ℕ)) (reserved : List (List Bool))
    → mask_rows fn r (mask_rows fn r rows reserved) reserved ≡ rows
unfolding mask_rows
mask_rows_twice fn r [] reserved = refl
mask_rows_twice fn r (row ∷ rows) [] = refl
mask_rows_twice fn r (row ∷ rows) (kept ∷ reserved) =
    λ i. mask_row_twice fn r 0 row kept i ∷ mask_rows_twice fn (suc r) rows reserved i

mask_row_kept :
    (fn : ℕ → ℕ → Bool) (r c : ℕ) (xs : List ℕ) (reserved : List Bool) (j : ℕ)
    → get_or reserved j false ≡ true
    → get_or (mask_row fn r c xs reserved) j 0 ≡ get_or xs j 0
unfolding mask_row
mask_row_kept fn r c [] reserved j h = refl
mask_row_kept fn r c (x ∷ xs) [] j h = refl
mask_row_kept fn r c (x ∷ xs) (kept ∷ reserved) zero h = rw h refl
mask_row_kept fn r c (x ∷ xs) (kept ∷ reserved) (suc j) h =
    mask_row_kept fn r (suc c) xs reserved j h

mask_rows_kept :
    (fn : ℕ → ℕ → Bool) (r : ℕ) (rows : List (List ℕ)) (reserved : List (List Bool)) (i j : ℕ)
    → reserved_at reserved i j ≡ true
    → module_at (mask_rows fn r rows reserved) i j ≡ module_at rows i j
unfolding mask_rows
mask_rows_kept fn r [] reserved i j h = refl
mask_rows_kept fn r (row ∷ rows) [] i j h = refl
mask_rows_kept fn r (row ∷ rows) (kept ∷ reserved) zero j h = mask_row_kept fn r 0 row kept j h
mask_rows_kept fn r (row ∷ rows) (kept ∷ reserved) (suc i) j h =
    mask_rows_kept fn (suc r) rows reserved i j h

-- For any matrix, reserved grid and pattern, a mask that is applied twice gives the matrix back;
-- and at every reserved module the masked matrix is as it was.
pub apply_mask_twice :
    (matrix : List (List ℕ)) (reserved : List (List Bool)) (pattern i j : ℕ)
    → (apply_mask (apply_mask matrix reserved pattern) reserved pattern ≡ matrix)
      × ((reserved_at reserved i j ≡ false)
          ⊎ (module_at (apply_mask matrix reserved pattern) i j ≡ module_at matrix i j))
unfolding apply_mask
apply_mask_twice matrix reserved pattern i j = (
  mask_rows_twice (mask_fn pattern) 0 matrix reserved,
  elim (Bool-cases (reserved_at reserved i j)) [
    | inl e ↦ inr (mask_rows_kept (mask_fn pattern) 0 matrix reserved i j e)
    | inr e ↦ inl e
  ],
)
