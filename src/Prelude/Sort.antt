-- ===== src/Prelude/Sort.antt =====
-- `list.sort(key=...)`: a stable sort, as insertion of each entry before the first greater one.
use mathlib.Core.Logic.{◌⊎◌, inl, inr}
use mathlib.Core.Bool.{Bool, true, false}
use mathlib.Core.List.{List, [], ◌∷◌, Perm}
use mathlib.Core.List.Perm
use Prim.Native.Nat.{suc}
use mathlib.Core.Path.{◌≡◌, refl, ap, ◌∙◌}
use swelter.Prelude.Tests.{Bool-cases}
use swelter.Prelude.Lists.{All, Among, length}

-- `le a b` says that the key of `a` is at most the key of `b`.
module _ {ℓ} {A : Type ℓ} (le : A → A → Bool) where
  unfoldable pub insert_by : A → List A → List A
  insert_by a [] = a ∷ []
  insert_by a (x ∷ xs) = elim (le a x) [ true ↦ a ∷ x ∷ xs | false ↦ x ∷ insert_by a xs ]

  unfoldable pub sort_by : List A → List A
  unfolding insert_by
  sort_by [] = []
  sort_by (x ∷ xs) = insert_by x (sort_by xs)

  pub insert_by-perm : (a : A) (xs : List A) → Perm (insert_by a xs) (a ∷ xs)
  unfolding insert_by
  insert_by-perm a [] = Perm.refl _
  insert_by-perm a (x ∷ xs) = elim (Bool-cases (le a x)) [
    | inl e ↦ rw (e, insert_by) (Perm.refl _)
    | inr e ↦ rw (e, insert_by) (Perm.trans (Perm.cons x (insert_by-perm a xs)) (Perm.swap a x xs))
  ]

  pub sort_by-perm : (xs : List A) → Perm (sort_by xs) xs
  unfolding sort_by
  sort_by-perm [] = Perm.refl _
  sort_by-perm (x ∷ xs) = Perm.trans (insert_by-perm x (sort_by xs)) (Perm.cons x (sort_by-perm xs))

  length-insert_by : (a : A) (xs : List A) → length (insert_by a xs) ≡ suc (length xs)
  unfolding insert_by
  length-insert_by a [] = refl
  length-insert_by a (x ∷ xs) = elim (Bool-cases (le a x)) [
    | inl e ↦ rw (e, insert_by) refl
    | inr e ↦ rw (e, insert_by) (ap suc (length-insert_by a xs))
  ]

  pub length-sort_by : (xs : List A) → length (sort_by xs) ≡ length xs
  unfolding sort_by
  length-sort_by [] = refl
  length-sort_by (x ∷ xs) = length-insert_by x (sort_by xs) ∙ ap suc (length-sort_by xs)

  pub All-insert_by {κ} :
      (P : A → Type κ) (a : A) (xs : List A) → P a → All P xs → All P (insert_by a xs)
  unfolding insert_by
  All-insert_by P a [] h k = (h, tt)
  All-insert_by P a (x ∷ xs) h k = elim (Bool-cases (le a x)) [
    | inl e ↦ rw (e, insert_by) (h, k)
    | inr e ↦ rw (e, insert_by) (k.0, All-insert_by P a xs h k.1)
  ]

  -- A sort keeps what holds of every entry.
  pub All-sort_by {κ} : (P : A → Type κ) (xs : List A) → All P xs → All P (sort_by xs)
  unfolding sort_by
  All-sort_by P [] h = tt
  All-sort_by P (x ∷ xs) h = All-insert_by P x (sort_by xs) h.0 (All-sort_by P xs h.1)

  All-insert_by_back {κ} :
      (P : A → Type κ) (a : A) (xs : List A) → All P (insert_by a xs) → P a × All P xs
  unfolding insert_by
  All-insert_by_back P a [] h = h
  All-insert_by_back P a (x ∷ xs) h = elim (Bool-cases (le a x)) [
    | inl e ↦ (rw (insert_by, e) at h)
    | inr e ↦
        let parts : P x × All P (insert_by a xs) = (rw (insert_by, e) at h) in
        let back = All-insert_by_back P a xs parts.1 in (back.0, (parts.0, back.1))
  ]

  -- A sort has no entry that was not there.
  pub All-sort_by_back {κ} : (P : A → Type κ) (xs : List A) → All P (sort_by xs) → All P xs
  unfolding sort_by
  All-sort_by_back P [] h = tt
  All-sort_by_back P (x ∷ xs) h =
      let parts = All-insert_by_back P x (sort_by xs) h in (parts.0, All-sort_by_back P xs parts.1)

  -- Each entry is at most the next, by keys.
  abbrev pub IsSorted : List A → Type 0
  IsSorted [] = Unit
  IsSorted (x ∷ []) = Unit
  IsSorted (x ∷ y ∷ r) = (le x y ≡ true) × IsSorted (y ∷ r)

  module _ (total : (a b : A) → le a b ≡ false → le b a ≡ true) where
    insert_below :
        (a x : A) (xs : List A)
        → le x a ≡ true
        → IsSorted (x ∷ xs)
        → IsSorted (insert_by a xs)
        → IsSorted (x ∷ insert_by a xs)
    unfolding insert_by
    insert_below a x [] h k s = (h, tt)
    insert_below a x (y ∷ r) h k s = elim (Bool-cases (le a y)) [
      | inl e ↦ rw (e, insert_by) (h, (e, k.1))
      | inr e ↦ rw (e, insert_by) (k.0, (rw (e, insert_by) at s))
    ]

    tail-IsSorted : (x : A) (xs : List A) → IsSorted (x ∷ xs) → IsSorted xs
    tail-IsSorted x [] s = tt
    tail-IsSorted x (y ∷ r) s = s.1

    insert_by-IsSorted : (a : A) (xs : List A) → IsSorted xs → IsSorted (insert_by a xs)
    unfolding insert_by
    insert_by-IsSorted a [] s = tt
    insert_by-IsSorted a (x ∷ xs) s = elim (Bool-cases (le a x)) [
      | inl e ↦ rw (e, insert_by) (e, s)
      | inr e ↦
          rw (e, insert_by)
            (insert_below a x xs (total a x e) s (insert_by-IsSorted a xs (tail-IsSorted x xs s)))
    ]

    -- The result of a sort is in order, for keys of which one is always at most the other.
    pub sort_by-IsSorted : (xs : List A) → IsSorted (sort_by xs)
    unfolding sort_by
    sort_by-IsSorted [] = tt
    sort_by-IsSorted (x ∷ xs) = insert_by-IsSorted x (sort_by xs) (sort_by-IsSorted xs)

module _ {A : Type 0} (le : A → A → Bool) where
  Among-insert_by :
      (P : A → Type 0) (a : A) (xs : List A) → P a ⊎ Among P xs → Among P (insert_by le a xs)
  unfolding insert_by
  Among-insert_by P a [] h = h
  Among-insert_by P a (x ∷ xs) h = elim (Bool-cases (le a x)) [
    | inl e ↦ rw (insert_by, e) h
    | inr e ↦
        rw (insert_by, e)
          (elim h [
            | inl p ↦ inr (Among-insert_by P a xs (inl p))
            | inr (inl p) ↦ inl p
            | inr (inr p) ↦ inr (Among-insert_by P a xs (inr p))
          ])
  ]

  -- A sort loses no entry.
  pub Among-sort_by : (P : A → Type 0) (xs : List A) → Among P xs → Among P (sort_by le xs)
  unfolding sort_by
  Among-sort_by P [] h = h
  Among-sort_by P (x ∷ xs) (inl h) = Among-insert_by P x (sort_by le xs) (inl h)
  Among-sort_by P (x ∷ xs) (inr h) =
      Among-insert_by P x (sort_by le xs) (inr (Among-sort_by P xs h))
