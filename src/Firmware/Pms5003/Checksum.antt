-- ===== src/Firmware/Pms5003/Checksum.antt =====
-- What the checksum of a frame catches, and that the driver reads what a sensor sends.
use Prim.Native.Nat.{bit_or}
use swelter.Prelude.{
  ℕ, zero, suc, ◌+◌, ◌*◌, ◌/◌, ◌%◌, ◌<◌, ◌≤◌, ◌≡◌, ◌≢◌, refl, sym, ap, ◌∙◌, List, [], ◌∷◌, arith,
  length, get_or, set, take, All, length-set, get_or-set_ne,
}
use swelter.Prelude.Masks.{bit_or_pack, bit_and_65535}
use swelter.Firmware.Pms5003.{
  Fields, ok, err, checksum_mismatch, u16, sum, computed, decoded, parse_frame,
}

abbrev pub IsByte : ℕ → Type 0
IsByte b = b < 256

sum-set : (xs : List ℕ) (i v : ℕ) → i < length xs → sum (set xs i v) + get_or xs i 0 ≡ sum xs + v
unfolding sum
sum-set [] i v h = elim h [ ]
sum-set (x ∷ xs) zero v h = omega arith
sum-set (x ∷ xs) (suc i) v h = omega (arith, sum-set xs i v (omega arith))

take-set : (n : ℕ) (xs : List ℕ) (i v : ℕ) → take n (set xs i v) ≡ set (take n xs) i v
take-set zero xs i v = refl
take-set (suc n) [] i v = refl
take-set (suc n) (x ∷ xs) zero v = refl
take-set (suc n) (x ∷ xs) (suc i) v = ap (λ l. x ∷ l) (take-set n xs i v)

get_or-take : (n : ℕ) (xs : List ℕ) (i : ℕ) → i < n → get_or (take n xs) i 0 ≡ get_or xs i 0
get_or-take zero xs i h = elim h [ ]
get_or-take (suc n) [] i h = refl
get_or-take (suc n) (x ∷ xs) zero h = refl
get_or-take (suc n) (x ∷ xs) (suc i) h = get_or-take n xs i (omega arith)

length-take_lt : (n : ℕ) (xs : List ℕ) (i : ℕ) → i < n → i < length xs → i < length (take n xs)
length-take_lt zero xs i h k = elim h [ ]
length-take_lt (suc n) [] i h k = elim k [ ]
length-take_lt (suc n) (x ∷ xs) zero h k = omega arith
length-take_lt (suc n) (x ∷ xs) (suc i) h k =
    omega (arith, length-take_lt n xs i (omega arith) (omega arith))

sum-le : (xs : List ℕ) → All IsByte xs → sum xs ≤ 255 * length xs
unfolding sum
sum-le [] h = omega arith
sum-le (x ∷ xs) h = omega (arith, sum-le xs h.1)

-- A frame that the driver accepts.
pub record IsAccepted (buf : List ℕ) : Type 0 where
  pub full : length buf ≡ 32
  pub start_1 : get_or buf 0 0 ≡ 0x42
  pub start_2 : get_or buf 1 0 ≡ 0x4D
  pub summed : computed buf ≡ u16 buf 30

-- The driver accepts exactly the frames of 32 bytes with the two start bytes and the checksum of
-- the first 30, and returns their decoded fields.
pub parse_frame-accepts : (buf : List ℕ) → IsAccepted buf → parse_frame buf ≡ ok (decoded buf)
unfolding parse_frame
parse_frame-accepts buf a = ground (arith, a.full, a.start_1, a.start_2, a.summed)

pub parse_frame-IsAccepted :
    (buf : List ℕ) {fields : Fields} → parse_frame buf ≡ ok fields → IsAccepted buf
unfolding parse_frame
parse_frame-IsAccepted buf h = ground arith

u16-set : (xs : List ℕ) (i v : ℕ) → i < 30 → u16 (set xs i v) 30 ≡ u16 xs 30
unfolding u16
u16-set xs i v h =
    rw (get_or-set_ne xs i 30 v 0 (omega arith), get_or-set_ne xs i 31 v 0 (omega arith))

computed-sum : (xs : List ℕ) → computed xs ≡ sum (take 30 xs) % 65536
unfolding computed
computed-sum xs = bit_and_65535 (sum (take 30 xs))

-- A change of one of the first 30 bytes changes the checksum.
computed-set :
    (xs : List ℕ) (i v : ℕ)
    → i < 30
    → i < length xs
    → v < 256
    → get_or xs i 0 < 256
    → v ≢ get_or xs i 0
    → computed (set xs i v) ≢ computed xs
computed-set xs i v h k lv lg n e = n (
    omega (
      arith,
      e,
      computed-sum xs,
      computed-sum (set xs i v),
      ap sum (take-set 30 xs i v),
      sum-set (take 30 xs) i v (length-take_lt 30 xs i h k),
      get_or-take 30 xs i h,
    ))

-- If the driver accepts a frame, it rejects the frame with any one of the bytes 2 to 29 changed to
-- another byte, by its checksum.
pub parse_frame_detects :
    (buf : List ℕ) (i v : ℕ) {fields : Fields}
    → parse_frame buf ≡ ok fields
    → 2 ≤ i
    → i < 30
    → v < 256
    → get_or buf i 0 < 256
    → v ≢ get_or buf i 0
    → parse_frame (set buf i v) ≡ err checksum_mismatch
unfolding parse_frame
parse_frame_detects buf i v h low high lv lg n =
    let a = parse_frame-IsAccepted buf h in
    let len : length (set buf i v) ≡ 32 = length-set buf i v ∙ a.full in
    let one : get_or (set buf i v) 0 0 ≡ 0x42 =
      get_or-set_ne buf i 0 v 0 (omega arith) ∙ a.start_1 in
    let two : get_or (set buf i v) 1 0 ≡ 0x4D =
      get_or-set_ne buf i 1 v 0 (omega arith) ∙ a.start_2 in
    let bad : computed (set buf i v) ≢ u16 (set buf i v) 30 = λ e.
      computed-set buf i v high (rw a.full (omega arith)) lv lg n
        (e ∙ u16-set buf i v high ∙ sym a.summed) in
    ground (arith, len, one, two, bad)

-- The two bytes of a 16-bit field, big-endian.
abbrev be16 : ℕ → List ℕ → List ℕ
be16 w rest = w / 256 ∷ w % 256 ∷ rest

-- The first 30 bytes of the frame in which the sensor sends the fields.
abbrev pub body : Fields → List ℕ → List ℕ
body f rest =
    0x42
    ∷ 0x4D
    ∷ be16 f.frame_length_field (
        be16 f.pm1_0_cf1 (
          be16 f.pm2_5_cf1 (
            be16 f.pm10_cf1 (
              be16 f.pm1_0_ugm3 (
                be16 f.pm25_ugm3 (
                  be16 f.pm10_ugm3 (
                    be16 f.particles_0_3um (
                      be16 f.particles_0_5um (
                        be16 f.particles_1_0um (
                          be16 f.particles_2_5um (
                            be16 f.particles_5_0um
                              (be16 f.particles_10um (f.version ∷ f.error_code ∷ rest)))))))))))))

abbrev pub wire : Fields → List ℕ
wire f = body f (be16 f.checksum [])

-- Fields that fit their bytes, with the checksum that the sensor computes.
pub record IsSent (f : Fields) : Type 0 where
  pub bytes : All IsByte (body f [])
  pub total : f.checksum ≡ sum (body f [])

pack16 : (w : ℕ) → bit_or (w / 256 * 256) (w % 256) ≡ w
pack16 w = bit_or_pack 8 (w / 256) (w % 256) (omega arith) ∙ omega arith

decoded-wire : (f : Fields) → decoded (wire f) ≡ f
unfolding decoded
decoded-wire f = simp pack16

computed-wire : (f : Fields) → IsSent f → computed (wire f) ≡ u16 (wire f) 30
unfolding u16
computed-wire f h =
    computed-sum (wire f)
    ∙ omega (arith, sum-le (body f []) h.bytes, h.total)
    ∙ sym (pack16 f.checksum)

-- From the 32 bytes in which the sensor sends any fields the driver decodes exactly these fields.
pub parse_frame-wire : (f : Fields) → IsSent f → parse_frame (wire f) ≡ ok f
parse_frame-wire f h =
    parse_frame-accepts (wire f)
      (record { full = refl; start_1 = refl; start_2 = refl; summed = computed-wire f h })
    ∙ ap ok (decoded-wire f)
