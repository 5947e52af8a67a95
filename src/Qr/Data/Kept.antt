-- ===== src/Qr/Data/Kept.antt =====
-- src/swelter/qr.py: `_place_data` writes to no reserved module.
use mathlib.Core.Bool.{true≢false}
use swelter.Prelude.{
  ◌≢◌, ℕ, zero, suc, ◌+◌, ◌-◌, ◌≡◌, refl, sym, ap, ◌∙◌, List, [], ◌∷◌, Bool, true, false,
  get_or-set_ne, leb, Bool-cases, inl, inr,
}
use swelter.Qr.Mask.{module_at, reserved_at}
use swelter.Qr.Matrix.{write_at}
use swelter.Qr.Data.{Placing, place_bit, place_pair, place_pairs, place_data, skip_timing}

-- A write changes no other module.
pub module_at-write_at :
    (matrix : List (List ℕ)) (r c v i j : ℕ)
    → (r ≡ i → c ≢ j)
    → module_at (write_at r c v matrix) i j ≡ module_at matrix i j
unfolding write_at
module_at-write_at [] r c v i j h = refl
module_at-write_at (row ∷ rows) zero c v zero j h = get_or-set_ne row c j v 0 (h refl)
module_at-write_at (row ∷ rows) zero c v (suc i) j h = refl
module_at-write_at (row ∷ rows) (suc r) c v zero j h = refl
module_at-write_at (row ∷ rows) (suc r) c v (suc i) j h =
    module_at-write_at rows r c v i j (λ e. h (ap suc e))

pub free_elsewhere :
    (reserved : List (List Bool)) (y x r c : ℕ)
    → reserved_at reserved y x ≡ false
    → reserved_at reserved r c ≡ true
    → y ≡ r
    → x ≢ c
free_elsewhere reserved y x r c free kept e k = true≢false (
    sym kept
    ∙ ap (λ i. reserved_at reserved i c) (sym e)
    ∙ ap (reserved_at reserved y) (sym k)
    ∙ free)

place_bit-kept :
    (reserved : List (List Bool)) (y x : ℕ) (placing : Placing) (r c : ℕ)
    → reserved_at reserved r c ≡ true
    → module_at (place_bit reserved y x placing).0 r c ≡ module_at placing.0 r c
unfolding place_bit
place_bit-kept reserved y x (matrix, bits) r c h = elim (Bool-cases (reserved_at reserved y x)) [
  | inl e ↦ rw e refl
  | inr e ↦ rw e (module_at-write_at matrix y x _ r c (free_elsewhere reserved y x r c e h))
]

place_pair-kept :
    (size : ℕ) (reserved : List (List Bool)) (right rows vert : ℕ) (placing : Placing) (r c : ℕ)
    → reserved_at reserved r c ≡ true
    → module_at (place_pair size reserved right rows vert placing).0 r c ≡ module_at placing.0 r c
unfolding place_pair
place_pair-kept size reserved right zero vert placing r c h = refl
place_pair-kept size reserved right (suc rows) vert placing r c h =
    place_pair-kept size reserved right rows (vert + 1) _ r c h
    ∙ place_bit-kept reserved _ (right - 1) _ r c h
    ∙ place_bit-kept reserved _ right placing r c h

place_pairs-kept :
    (size : ℕ) (reserved : List (List Bool)) (rounds right : ℕ) (placing : Placing) (r c : ℕ)
    → reserved_at reserved r c ≡ true
    → module_at (place_pairs size reserved rounds right placing).0 r c ≡ module_at placing.0 r c
unfolding place_pairs
place_pairs-kept size reserved zero right placing r c h = refl
place_pairs-kept size reserved (suc rounds) right placing r c h = elim (Bool-cases (leb 1 right)) [
  | inl e ↦ rw e (
      place_pairs-kept size reserved rounds (skip_timing right - 2) _ r c h
      ∙ place_pair-kept size reserved (skip_timing right) size 0 placing r c h)
  | inr e ↦ rw e refl
]

pub place_data-kept :
    (size : ℕ) (matrix : List (List ℕ)) (reserved : List (List Bool)) (bits : List ℕ) (r c : ℕ)
    → reserved_at reserved r c ≡ true
    → module_at (place_data size matrix reserved bits) r c ≡ module_at matrix r c
unfolding place_data
place_data-kept size matrix reserved bits r c h =
    place_pairs-kept size reserved size (size - 1) (matrix, bits) r c h
