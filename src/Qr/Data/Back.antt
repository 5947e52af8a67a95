-- ===== src/Qr/Data/Back.antt =====
-- src/swelter/qr.py: the bits that `_place_data` writes are read back.
use swelter.Prelude.{
  ◌≢◌, ℕ, zero, suc, ◌-◌, ◌<◌, ◌≡◌, refl, sym, ap, ◌∙◌, List, [], ◌∷◌, length, set, length-set,
  Bool, true, false, All, All-weaken, if◌then◌else◌, ◌==◌, ==→eq, get_or, get_or-set_self,
  get_or-set_ne, Bool-cases, inl, inr, arith,
}
use swelter.Qr.Mask.{module_at, reserved_at}
use swelter.Qr.Matrix.{write_at}
use swelter.Qr.Data.{Placing, place_bit, place_data, bit_or_zero, next_bits}
use swelter.Qr.Data.Kept.{module_at-write_at}
use swelter.Qr.Data.Read.{Place, zigzag, read_path, write_path, place_pairs_lem}
use swelter.Qr.Data.Path.{Differs, IsSimple, zigzag-IsSimple, Below, zigzag-Below}

-- The first bits, with zeros where there are too few.
unfoldable pub padded : ℕ → List ℕ → List ℕ
padded zero bits = []
padded (suc n) bits = bit_or_zero bits ∷ padded n (next_bits bits)

-- The places of a path that are not reserved.
unfoldable pub count_free : List (List Bool) → List Place → ℕ
count_free reserved [] = 0
count_free reserved ((y, x) ∷ path) =
    let rest = count_free reserved path in if reserved_at reserved y x then rest else suc rest

-- There are `size` rows of `size` modules.
unfoldable pub IsSquare : ℕ → List (List ℕ) → Type 0
IsSquare size matrix =
    (length matrix ≡ size) × ((r : ℕ) → r < size → length (get_or matrix r []) ≡ size)

pub write_at-IsSquare :
    (size : ℕ) (matrix : List (List ℕ)) (r c v : ℕ)
    → IsSquare size matrix
    → IsSquare size (write_at r c v matrix)
unfolding IsSquare write_at
write_at-IsSquare size matrix r c v (rows, columns) = (
  length-set matrix r _ ∙ rows,
  λ i h. elim (Bool-cases (r == i)) [
    | inl e ↦
        let same = ==→eq r i e in
        ap length (
          ap (λ k. get_or (set matrix r (set (get_or matrix r []) c v)) k []) (sym same)
          ∙ get_or-set_self matrix r _ [] (omega arith))
        ∙ length-set (get_or matrix r []) c v
        ∙ columns r (omega arith)
    | inr e ↦
        let other : r ≢ i = λ same. ground arith in
        ap length (get_or-set_ne matrix r i _ [] other) ∙ columns i h
  ],
)

write_at_self :
    (size : ℕ) (matrix : List (List ℕ)) (r c v : ℕ)
    → IsSquare size matrix
    → r < size
    → c < size
    → module_at (write_at r c v matrix) r c ≡ v
unfolding IsSquare write_at
write_at_self size matrix r c v (rows, columns) h k =
    ap (λ row. get_or row c 0) (get_or-set_self matrix r _ [] (omega arith))
    ∙ get_or-set_self (get_or matrix r []) c v 0 (omega (arith, columns r h))

place_bit_taken :
    (reserved : List (List Bool)) (y x : ℕ) (placing : Placing)
    → reserved_at reserved y x ≡ true
    → place_bit reserved y x placing ≡ placing
unfolding place_bit
place_bit_taken reserved y x (matrix, bits) e = rw (place_bit, e) refl

place_bit_free :
    (reserved : List (List Bool)) (y x : ℕ) (matrix : List (List ℕ)) (bits : List ℕ)
    → reserved_at reserved y x ≡ false
    → place_bit reserved y x (matrix, bits)
      ≡ (write_at y x (bit_or_zero bits) matrix, next_bits bits)
unfolding place_bit write_at
place_bit_free reserved y x matrix bits e = rw (place_bit, e) refl

place_bit_elsewhere :
    (reserved : List (List Bool)) (y x : ℕ) (placing : Placing) (r c : ℕ)
    → Differs (r, c) (y, x)
    → module_at (place_bit reserved y x placing).0 r c ≡ module_at placing.0 r c
place_bit_elsewhere reserved y x (matrix, bits) r c h =
    elim (Bool-cases (reserved_at reserved y x)) [
      | inl e ↦ ap (λ p. module_at p.0 r c) (place_bit_taken reserved y x (matrix, bits) e)
      | inr e ↦
          ap (λ p. module_at p.0 r c) (place_bit_free reserved y x matrix bits e)
          ∙ module_at-write_at matrix y x _ r c h
    ]

write_path_elsewhere :
    (reserved : List (List Bool)) (path : List Place) (placing : Placing) (r c : ℕ)
    → All (Differs (r, c)) path
    → module_at (write_path reserved path placing).0 r c ≡ module_at placing.0 r c
unfolding write_path
write_path_elsewhere reserved [] placing r c h = refl
write_path_elsewhere reserved ((y, x) ∷ path) placing r c h =
    write_path_elsewhere reserved path _ r c h.1 ∙ place_bit_elsewhere reserved y x placing r c h.0

abbrev pub Within : ℕ → Place → Type 0
Within size (y, x) = (y < size) × (x < size)

write_path_back :
    (size : ℕ) (reserved : List (List Bool)) (path : List Place) (matrix : List (List ℕ))
    (bits : List ℕ)
    → IsSquare size matrix
    → All (Within size) path
    → IsSimple path
    → read_path reserved (write_path reserved path (matrix, bits)).0 path
      ≡ padded (count_free reserved path) bits
unfolding write_path read_path count_free padded IsSimple
write_path_back size reserved [] matrix bits square inside simple = refl
write_path_back size reserved ((y, x) ∷ path) matrix bits square inside simple =
    elim (Bool-cases (reserved_at reserved y x)) [
      | inl e ↦ rw e (
          ap (λ p. read_path reserved (write_path reserved path p).0 path)
            (place_bit_taken reserved y x (matrix, bits) e)
          ∙ write_path_back size reserved path matrix bits square inside.1 simple.1)
      | inr e ↦
          let drawn = write_at y x (bit_or_zero bits) matrix in
          let own : module_at (write_path reserved path (drawn, next_bits bits)).0 y x
              ≡ bit_or_zero bits =
            write_path_elsewhere reserved path (drawn, next_bits bits) y x simple.0
            ∙ write_at_self size matrix y x (bit_or_zero bits) square inside.0.0 inside.0.1 in
          let rest =
            write_path_back size reserved path drawn (next_bits bits)
              (write_at-IsSquare size matrix y x _ square) inside.1 simple.1 in
          rw e (
            ap
              (λ p.
                module_at (write_path reserved path p).0 y x
                ∷ read_path reserved (write_path reserved path p).0 path)
              (place_bit_free reserved y x matrix bits e)
            ∙ (λ i. own i ∷ rest i))
    ]

pub place_data-read :
    (size : ℕ) (matrix : List (List ℕ)) (reserved : List (List Bool)) (bits : List ℕ)
    → IsSquare size matrix
    → read_path reserved (place_data size matrix reserved bits) (zigzag size size (size - 1))
      ≡ padded (count_free reserved (zigzag size size (size - 1))) bits
unfolding place_data Below
place_data-read size matrix reserved bits square =
    ap (λ p. read_path reserved p.0 (zigzag size size (size - 1)))
      (place_pairs_lem size reserved size (size - 1) (matrix, bits))
    ∙ write_path_back size reserved (zigzag size size (size - 1)) matrix bits square
        (All-weaken (Below size (size - 1)) (Within size)
          (λ (y, x) (row, left, more). (row, omega arith)) (zigzag size size (size - 1))
          (zigzag-Below size size (size - 1)))
        (zigzag-IsSimple size size (size - 1))
