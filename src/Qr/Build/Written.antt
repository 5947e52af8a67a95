-- ===== src/Qr/Build/Written.antt =====
-- src/swelter/qr.py: the format and the version are written to reserved modules only.
use swelter.Prelude.{
  ℕ, zero, suc, ◌+◌, ◌-◌, ◌/◌, ◌%◌, ◌^◌, ◌≡◌, refl, sym, subst, ◌∙◌, List, [], ◌∷◌, length-set,
  Bool, true, false, ◌&&◌, if◌then◌else◌, ltb, ◌==◌, both_true, Bool-cases, inl, inr,
}
use swelter.Qr.Mask.{reserved_at}
use swelter.Qr.Mask.Alike.{AreShaped, Agree}
use swelter.Qr.Matrix.{
  write_at, write_format_bit, write_format_from, write_format_bits, write_version_from,
  write_version_bits,
}
use swelter.Qr.Codes.{format_bits, version_bits}
use swelter.Qr.Data.Kept.{module_at-write_at, free_elsewhere}

-- Two matrices of one shape that agree where nothing is reserved.
abbrev pub Alike : List (List Bool) → List (List ℕ) → List (List ℕ) → Type 0
Alike reserved m1 m2 = AreShaped m1 m2 × Agree reserved m1 m2

AreShaped-refl : (m : List (List ℕ)) → AreShaped m m
unfolding AreShaped
AreShaped-refl [] = tt
AreShaped-refl (x ∷ m) = (refl, AreShaped-refl m)

AreShaped-trans : (m1 m2 m3 : List (List ℕ)) → AreShaped m1 m2 → AreShaped m2 m3 → AreShaped m1 m3
unfolding AreShaped
AreShaped-trans [] [] [] h k = tt
AreShaped-trans [] [] (z ∷ zs) h k = k
AreShaped-trans [] (y ∷ ys) m3 h k = absurd h
AreShaped-trans (x ∷ xs) [] m3 h k = absurd h
AreShaped-trans (x ∷ xs) (y ∷ ys) [] h k = k
AreShaped-trans (x ∷ xs) (y ∷ ys) (z ∷ zs) h k = (h.0 ∙ k.0, AreShaped-trans xs ys zs h.1 k.1)

Alike-trans :
    (reserved : List (List Bool)) (m1 m2 m3 : List (List ℕ))
    → Alike reserved m1 m2
    → Alike reserved m2 m3
    → Alike reserved m1 m3
Alike-trans reserved m1 m2 m3 h k =
    (AreShaped-trans m1 m2 m3 h.0 k.0, λ r c free. h.1 r c free ∙ k.1 r c free)

AreShaped-write_at : (r c v : ℕ) (m : List (List ℕ)) → AreShaped (write_at r c v m) m
unfolding AreShaped write_at
AreShaped-write_at r c v [] = tt
AreShaped-write_at zero c v (x ∷ m) = (length-set x c v, AreShaped-refl m)
AreShaped-write_at (suc r) c v (x ∷ m) = (refl, AreShaped-write_at r c v m)

write_at-Alike :
    (reserved : List (List Bool)) (y x v : ℕ) (m : List (List ℕ))
    → reserved_at reserved y x ≡ true
    → Alike reserved (write_at y x v m) m
write_at-Alike reserved y x v m h = (
  AreShaped-write_at y x v m,
  λ r c free.
      module_at-write_at m y x v r c
        (λ e k. free_elsewhere reserved r c y x free h (sym e) (sym k)),
)

-- The two places of a bit of the format.
abbrev first_place : ℕ → ℕ × ℕ
first_place i =
    if ltb i 6
    then (i, 8)
    else if ltb i 8
    then (i + 1, 8)
    else if i == 8
    then (8, 7)
    else (8, 14 - i)

abbrev second_place : ℕ → ℕ → ℕ × ℕ
second_place size i = if ltb i 8 then (8, size - 1 - i) else (size + i - 15, 8)

write_format_bit_lem :
    (size i bit : ℕ) (m : List (List ℕ))
    → write_format_bit size i bit m
      ≡ write_at
          (second_place size i).0
          (second_place size i).1
          bit
          (write_at (first_place i).0 (first_place i).1 bit m)
unfolding write_format_bit
write_format_bit_lem size i bit m = elim (Bool-cases (ltb i 6)) [
  | inl e ↦ elim (Bool-cases (ltb i 8)) [
    | inl k ↦ rw (write_format_bit, e, k) refl
    | inr k ↦ rw (write_format_bit, e, k) refl
  ]
  | inr e ↦ elim (Bool-cases (ltb i 8)) [
    | inl k ↦ rw (write_format_bit, e, k) refl
    | inr k ↦ elim (Bool-cases (i == 8)) [
      | inl l ↦ rw (write_format_bit, e, k, l) refl
      | inr l ↦ rw (write_format_bit, e, k, l) refl
    ]
  ]
]

abbrev are_reserved : List (List Bool) → ℕ × ℕ → ℕ × ℕ → Bool
are_reserved reserved (y, x) (z, w) = reserved_at reserved y x && reserved_at reserved z w

abbrev version_place : ℕ → ℕ → ℕ × ℕ
version_place size i = (i / 3, size - 11 + i % 3)

abbrev other_place : ℕ → ℕ → ℕ × ℕ
other_place size i = (size - 11 + i % 3, i / 3)

-- The places of the bits from i on are reserved.
unfoldable pub format_is_reserved : ℕ → List (List Bool) → ℕ → ℕ → Bool
format_is_reserved size reserved zero i = reserved_at reserved (size - 8) 8
format_is_reserved size reserved (suc rounds) i =
    are_reserved reserved (first_place i) (second_place size i)
    && format_is_reserved size reserved rounds (i + 1)

unfoldable pub version_is_reserved : ℕ → List (List Bool) → ℕ → ℕ → Bool
version_is_reserved size reserved zero i = true
version_is_reserved size reserved (suc rounds) i =
    are_reserved reserved (version_place size i) (other_place size i)
    && version_is_reserved size reserved rounds (i + 1)

module _ (size : ℕ) (reserved : List (List Bool)) where
  twice-Alike :
      (p q : ℕ × ℕ) (bit : ℕ) (m : List (List ℕ))
      → are_reserved reserved p q ≡ true
      → Alike reserved (write_at q.0 q.1 bit (write_at p.0 p.1 bit m)) m
  twice-Alike (y, x) (z, w) bit m h =
      let (first, second) = both_true (reserved_at reserved y x) (reserved_at reserved z w) h in
      Alike-trans reserved _ (write_at y x bit m) m
        (write_at-Alike reserved z w bit (write_at y x bit m) second)
        (write_at-Alike reserved y x bit m first)

  write_format_from-Alike :
      (bits rounds i : ℕ) (m : List (List ℕ))
      → format_is_reserved size reserved rounds i ≡ true
      → Alike reserved (write_format_from size bits rounds i m) m
  unfolding write_format_from format_is_reserved
  write_format_from-Alike bits zero i m h = (AreShaped-refl m, λ r c free. refl)
  write_format_from-Alike bits (suc rounds) i m h =
      let bit = bits / 2 ^ i % 2 in
      let (own, rest) =
        both_true (are_reserved reserved (first_place i) (second_place size i))
          (format_is_reserved size reserved rounds (i + 1)) h in
      Alike-trans reserved _ (write_format_bit size i bit m) m
        (write_format_from-Alike bits rounds (i + 1) (write_format_bit size i bit m) rest)
        (subst (λ n. Alike reserved n m) (sym (write_format_bit_lem size i bit m))
          (twice-Alike (first_place i) (second_place size i) bit m own))

  write_version_from-Alike :
      (bits rounds i : ℕ) (m : List (List ℕ))
      → version_is_reserved size reserved rounds i ≡ true
      → Alike reserved (write_version_from size bits rounds i m) m
  unfolding write_version_from version_is_reserved
  write_version_from-Alike bits zero i m h = (AreShaped-refl m, λ r c free. refl)
  write_version_from-Alike bits (suc rounds) i m h =
      let bit = bits / 2 ^ i % 2 in
      let (own, rest) =
        both_true (are_reserved reserved (version_place size i) (other_place size i))
          (version_is_reserved size reserved rounds (i + 1)) h in
      Alike-trans reserved _ _ m (write_version_from-Alike bits rounds (i + 1) _ rest)
        (twice-Alike (version_place size i) (other_place size i) bit m own)

  format_last :
      (rounds i : ℕ)
      → format_is_reserved size reserved rounds i ≡ true
      → reserved_at reserved (size - 8) 8 ≡ true
  unfolding format_is_reserved
  format_last zero i h = h
  format_last (suc rounds) i h =
      format_last rounds (i + 1)
        (both_true (are_reserved reserved (first_place i) (second_place size i))
          (format_is_reserved size reserved rounds (i + 1)) h).1

  write_format_bits-Alike :
      (mask : ℕ) (m : List (List ℕ))
      → format_is_reserved size reserved 15 0 ≡ true
      → Alike reserved (write_format_bits size mask m) m
  unfolding write_format_bits
  write_format_bits-Alike mask m h =
      Alike-trans reserved _ _ m (write_at-Alike reserved (size - 8) 8 1 _ (format_last 15 0 h))
        (write_format_from-Alike (format_bits mask) 15 0 m h)

  -- What the format and the version change of a matrix is reserved.
  pub written-Alike :
      (version mask : ℕ) (m : List (List ℕ))
      → format_is_reserved size reserved 15 0 ≡ true
      → (ltb version 7 ≡ false → version_is_reserved size reserved 18 0 ≡ true)
      → Alike reserved (write_version_bits size version (write_format_bits size mask m)) m
  unfolding write_version_bits
  written-Alike version mask m h k = elim (Bool-cases (ltb version 7)) [
    | inl e ↦ rw e (write_format_bits-Alike mask m h)
    | inr e ↦ rw e (
        Alike-trans reserved _ (write_format_bits size mask m) m
          (write_version_from-Alike (version_bits version) 18 0 _ (k e))
          (write_format_bits-Alike mask m h))
  ]
