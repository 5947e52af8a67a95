-- ===== src/Qr/Mask/Alike.antt =====
-- src/swelter/qr.py: matrices that agree where nothing is reserved still do so under a mask.
use Prim.Native.Nat.{bit_xor}
use swelter.Prelude.{
  ℕ, zero, suc, ◌≡◌, refl, ap, List, [], ◌∷◌, length, get_or, Bool, false, not, ◌&&◌, if◌then◌else◌,
  arith,
}
use swelter.Qr.Mask.{mask_fn, mask_row, mask_rows, apply_mask, module_at, reserved_at}

-- The rows are as long in both.
unfoldable pub AreShaped : List (List ℕ) → List (List ℕ) → Type 0
AreShaped [] [] = Unit
AreShaped [] (y ∷ ys) = ⊥
AreShaped (x ∷ xs) [] = ⊥
AreShaped (x ∷ xs) (y ∷ ys) = (length x ≡ length y) × AreShaped xs ys

abbrev pub Agree : List (List Bool) → List (List ℕ) → List (List ℕ) → Type 0
Agree reserved m1 m2 =
    (r c : ℕ) → reserved_at reserved r c ≡ false → module_at m1 r c ≡ module_at m2 r c

mask_row-Agree :
    (fn : ℕ → ℕ → Bool) (r c : ℕ) (xs ys : List ℕ) (kept : List Bool)
    → length xs ≡ length ys
    → ((j : ℕ) → get_or kept j false ≡ false → get_or xs j 0 ≡ get_or ys j 0)
    → (j : ℕ) → get_or kept j false ≡ false
    → get_or (mask_row fn r c xs kept) j 0 ≡ get_or (mask_row fn r c ys kept) j 0
unfolding mask_row
mask_row-Agree fn r c [] [] kept e f j h = refl
mask_row-Agree fn r c [] (y ∷ ys) kept e f j h = absurd (omega arith)
mask_row-Agree fn r c (x ∷ xs) [] kept e f j h = absurd (omega arith)
mask_row-Agree fn r c (x ∷ xs) (y ∷ ys) [] e f j h = f j h
mask_row-Agree fn r c (x ∷ xs) (y ∷ ys) (k ∷ kept) e f zero h =
    ap (λ v. if not k && fn r c then bit_xor v 1 else v) (f 0 h)
mask_row-Agree fn r c (x ∷ xs) (y ∷ ys) (k ∷ kept) e f (suc j) h =
    mask_row-Agree fn r (suc c) xs ys kept (omega arith) (λ i. f (suc i)) j h

mask_rows-Agree :
    (fn : ℕ → ℕ → Bool) (r : ℕ) (xs ys : List (List ℕ)) (reserved : List (List Bool))
    → AreShaped xs ys
    → Agree reserved xs ys
    → Agree reserved (mask_rows fn r xs reserved) (mask_rows fn r ys reserved)
unfolding mask_rows AreShaped
mask_rows-Agree fn r [] [] reserved e f i j h = refl
mask_rows-Agree fn r [] (y ∷ ys) reserved e f i j h = absurd e
mask_rows-Agree fn r (x ∷ xs) [] reserved e f i j h = absurd e
mask_rows-Agree fn r (x ∷ xs) (y ∷ ys) [] e f i j h = f i j h
mask_rows-Agree fn r (x ∷ xs) (y ∷ ys) (k ∷ reserved) e f zero j h =
    mask_row-Agree fn r 0 x y k e.0 (f 0) j h
mask_rows-Agree fn r (x ∷ xs) (y ∷ ys) (k ∷ reserved) e f (suc i) j h =
    mask_rows-Agree fn (suc r) xs ys reserved e.1 (λ a. f (suc a)) i j h

pub apply_mask-Agree :
    (m1 m2 : List (List ℕ)) (reserved : List (List Bool)) (pattern : ℕ)
    → AreShaped m1 m2
    → Agree reserved m1 m2
    → Agree reserved (apply_mask m1 reserved pattern) (apply_mask m2 reserved pattern)
unfolding apply_mask
apply_mask-Agree m1 m2 reserved pattern e f = mask_rows-Agree (mask_fn pattern) 0 m1 m2 reserved e f
