-- ===== src/Qr/Data/Read.antt =====
-- src/swelter/qr.py: a reader that follows the zigzag of `_place_data` gets the bits back.
use swelter.Prelude.{
  ℕ, zero, suc, ◌+◌, ◌-◌, ◌≡◌, refl, List, [], ◌∷◌, ◌++◌, Bool, if◌then◌else◌, leb, ◌==◌,
  Bool-cases, inl, inr,
}
use Prim.Native.Nat.{bit_and}
use swelter.Qr.Mask.{module_at, reserved_at}
use swelter.Qr.Data.{Placing, place_bit, place_pair, place_pairs, skip_timing}

-- A row and a column.
abbrev pub Place : Type 0
Place = ℕ × ℕ

abbrev pub row_of : ℕ → ℕ → ℕ → ℕ
row_of size right vert = if bit_and (right + 1) 2 == 0 then size - 1 - vert else vert

-- The places in the order of the zigzag.
unfoldable pub pair_path : ℕ → ℕ → ℕ → ℕ → List Place
pair_path size right zero vert = []
pair_path size right (suc rows) vert =
    (row_of size right vert, right)
    ∷ (row_of size right vert, right - 1)
    ∷ pair_path size right rows (vert + 1)

unfoldable pub zigzag : ℕ → ℕ → ℕ → List Place
unfolding pair_path
zigzag size zero right = []
zigzag size (suc rounds) right =
    let column = skip_timing right in
    let more = pair_path size column size 0 ++ zigzag size rounds (column - 2) in
    if leb 1 right then more else []

-- What a reader takes from the free places of a path.
unfoldable pub read_path : List (List Bool) → List (List ℕ) → List Place → List ℕ
read_path reserved matrix [] = []
read_path reserved matrix ((y, x) ∷ path) =
    let rest = read_path reserved matrix path in
    if reserved_at reserved y x then rest else module_at matrix y x ∷ rest

unfoldable pub write_path : List (List Bool) → List Place → Placing → Placing
unfolding place_bit
write_path reserved [] placing = placing
write_path reserved ((y, x) ∷ path) placing =
    write_path reserved path (place_bit reserved y x placing)

write_path-append :
    (reserved : List (List Bool)) (ps qs : List Place) (placing : Placing)
    → write_path reserved (ps ++ qs) placing
      ≡ write_path reserved qs (write_path reserved ps placing)
unfolding write_path
write_path-append reserved [] qs placing = refl
write_path-append reserved ((y, x) ∷ ps) qs placing = write_path-append reserved ps qs _

place_pair_lem :
    (size : ℕ) (reserved : List (List Bool)) (right rows vert : ℕ) (placing : Placing)
    → place_pair size reserved right rows vert placing
      ≡ write_path reserved (pair_path size right rows vert) placing
unfolding place_pair write_path pair_path
place_pair_lem size reserved right zero vert placing = refl
place_pair_lem size reserved right (suc rows) vert placing =
    place_pair_lem size reserved right rows (vert + 1) _

pub place_pairs_lem :
    (size : ℕ) (reserved : List (List Bool)) (rounds right : ℕ) (placing : Placing)
    → place_pairs size reserved rounds right placing
      ≡ write_path reserved (zigzag size rounds right) placing
unfolding place_pairs zigzag write_path
place_pairs_lem size reserved zero right placing = refl
place_pairs_lem size reserved (suc rounds) right placing = elim (Bool-cases (leb 1 right)) [
  | inl e ↦
      rw
        (
          e,
          place_pair_lem size reserved (skip_timing right) size 0 placing,
          write_path-append reserved (pair_path size (skip_timing right) size 0)
              (zigzag size rounds (skip_timing right - 2)) placing,
        )
        (place_pairs_lem size reserved rounds (skip_timing right - 2) _)
  | inr e ↦ rw e refl
]
