-- ===== src/Qr/Build/Best.antt =====
-- src/swelter/qr.py: the choice of the mask in `_build_matrix`.
use swelter.Prelude.{
  ℕ, zero, suc, ◌+◌, ◌≤◌, ◌<◌, ◌≡◌, refl, subst, List, Bool, none, some, ltb, ltb→lt, ltb-false→le,
  ◌==◌, ==→eq, Bool-cases, inl, inr, arith,
}
use swelter.Qr.Mask.{apply_mask}
use swelter.Qr.Penalty.{penalty}
use swelter.Qr.Build.{Choice, better, best_from, choose_mask}

-- The penalty of the matrix under a pattern.
unfoldable score_at : ℕ → List (List ℕ) → List (List Bool) → ℕ → ℕ
score_at size matrix reserved pattern = penalty size (apply_mask matrix reserved pattern)

-- Of the patterns below a number: the first one with the least penalty.
unfoldable pub IsBest : ℕ → List (List ℕ) → List (List Bool) → ℕ → Choice → Type 0
unfolding score_at
IsBest size matrix reserved patterns (score, pattern, best) =
    (pattern < patterns)
    × (best ≡ apply_mask matrix reserved pattern)
    × (score ≡ penalty size best)
    × ((p : ℕ) → p < patterns → score ≤ score_at size matrix reserved p)
    × ((p : ℕ) → p < pattern → score < score_at size matrix reserved p)

IsBest-first :
    (size : ℕ) (matrix : List (List ℕ)) (reserved : List (List Bool))
    → IsBest size matrix reserved 1
        (score_at size matrix reserved 0, 0, apply_mask matrix reserved 0)
unfolding IsBest score_at
IsBest-first size matrix reserved = (
  omega arith,
  refl,
  refl,
  (λ p h. let e : p ≡ 0 = omega arith in rw e (omega arith)),
  λ p h. absurd (omega arith),
)

-- Without a lower score at the next pattern the best so far stays the best, and with one it is the
-- next.
IsBest-kept :
    (size : ℕ) (matrix : List (List ℕ)) (reserved : List (List Bool)) (next : ℕ) (best : Choice)
    → best.0 ≤ score_at size matrix reserved next
    → IsBest size matrix reserved next best
    → IsBest size matrix reserved (suc next) best
unfolding IsBest
IsBest-kept size matrix reserved next (score, pattern, best) h (low, same, scored, least, first) = (
  omega arith,
  same,
  scored,
  (λ p k. elim (Bool-cases (p == next)) [
    | inl e ↦ rw (==→eq p next e) h
    | inr e ↦ least p (ground arith)
  ]),
  first,
)

IsBest-replaced :
    (size : ℕ) (matrix : List (List ℕ)) (reserved : List (List Bool)) (next : ℕ) (best : Choice)
    → score_at size matrix reserved next < best.0
    → IsBest size matrix reserved next best
    → IsBest size matrix reserved
        (suc next)
        (score_at size matrix reserved next, next, apply_mask matrix reserved next)
unfolding IsBest score_at
IsBest-replaced size matrix reserved next (score, pattern, best) h
      (low, same, scored, least, first) =
    let above : (p : ℕ)
        → p < next
        → score_at size matrix reserved next < score_at size matrix reserved p =
      λ p k. let before = least p k in omega arith in
    (
      omega arith,
      refl,
      refl,
      (λ p k. elim (Bool-cases (p == next)) [
        | inl e ↦ rw (==→eq p next e) (omega arith)
        | inr e ↦ let lower = above p (ground arith) in omega arith
      ]),
      above,
    )

IsBest-next :
    (size : ℕ) (matrix : List (List ℕ)) (reserved : List (List Bool)) (next : ℕ) (best : Choice)
    → IsBest size matrix reserved next best
    → IsBest size matrix reserved (suc next) (
        better
          (some best)
          (score_at size matrix reserved next, next, apply_mask matrix reserved next))
IsBest-next size matrix reserved next best h =
    elim (Bool-cases (ltb (score_at size matrix reserved next) best.0)) [
      | inl e ↦ rw e (IsBest-replaced size matrix reserved next best (ltb→lt _ _ e) h)
      | inr e ↦ rw e (IsBest-kept size matrix reserved next best (ltb-false→le _ _ e) h)
    ]

best_from-IsBest :
    (size left : ℕ) (matrix : List (List ℕ)) (reserved : List (List Bool)) (next patterns : ℕ)
    (best : Choice)
    → left + next ≡ patterns
    → IsBest size matrix reserved next best
    → (b : Choice) × (best_from size left matrix reserved next (some best) ≡ some b)
      × IsBest size matrix reserved patterns b
unfolding best_from score_at
best_from-IsBest size zero matrix reserved next patterns best e h =
    let all_seen : next ≡ patterns = omega arith in
    (best, refl, subst (λ n. IsBest size matrix reserved n best) all_seen h)
best_from-IsBest size (suc left) matrix reserved next patterns best e h =
    best_from-IsBest size left matrix reserved (suc next) patterns _ (omega arith)
      (IsBest-next size matrix reserved next best h)

best_from-none :
    (size left : ℕ) (matrix : List (List ℕ)) (reserved : List (List Bool))
    → (b : Choice) × (best_from size (suc left) matrix reserved 0 none ≡ some b)
      × IsBest size matrix reserved (suc left) b
unfolding best_from score_at
best_from-none size left matrix reserved =
    best_from-IsBest size left matrix reserved 1 (suc left) _ (omega arith)
      (IsBest-first size matrix reserved)

-- For any matrix and grid of reserved modules: a mask is chosen; what is chosen is one of the
-- patterns 0 to 7 with the matrix under it and the penalty of that; no pattern has a lower penalty,
-- and each pattern before it has a higher one.
pub choose_mask-IsBest :
    (size : ℕ) (matrix : List (List ℕ)) (reserved : List (List Bool))
    → (b : Choice) × (choose_mask size matrix reserved ≡ some b) × IsBest size matrix reserved 8 b
unfolding choose_mask
choose_mask-IsBest size matrix reserved = best_from-none size 7 matrix reserved
