-- ===== src/Prelude/Text/Distinct.antt =====
-- Texts of which none comes twice, as the keys of a dictionary are.
use mathlib.Core.Logic.{inl, inr}
use mathlib.Core.Bool.{Bool, false}
use mathlib.Core.List.{List, [], ◌∷◌}
use mathlib.Core.Option.{some, none-ne-some}
use mathlib.Core.Path.{◌≡◌, subst, sym, ◌∙◌}
use Prim.Native.String.{String}
use swelter.Prelude.{str_eq}
use swelter.Prelude.Tests.{Bool-cases}
use swelter.Prelude.Lists.{All, All-keep_if, Among, keep_if, keep_if_pass, keep_if_fail}
use swelter.Prelude.Dict.{assign, value_at}
use swelter.Prelude.Sort.{insert_by, sort_by, All-insert_by, All-sort_by}
use swelter.Prelude.Text.Order.{str_eq→eq, str_eq_comm}

abbrev pub AreDistinct : List String → Type 0
AreDistinct [] = Unit
AreDistinct (x ∷ xs) = All (λ y. str_eq x y ≡ false) xs × AreDistinct xs

abbrev pub keys {ℓ} : {V : Type ℓ} → List (String × V) → List String
keys [] = []
keys ((k, v) ∷ d) = k ∷ keys d

module _ {ℓ} {V : Type ℓ} where
  All-keys-assign :
      (P : String → Type 0) (k : String) (v : V) (d : List (String × V))
      → P k
      → All P (keys d)
      → All P (keys (assign str_eq k v d))
  unfolding assign
  All-keys-assign P k v [] h l = (h, tt)
  All-keys-assign P k v ((j, w) ∷ d) h l = elim (Bool-cases (str_eq j k)) [
    | inl e ↦ rw (assign, e) l
    | inr e ↦ rw (assign, e) (l.0, All-keys-assign P k v d h l.1)
  ]

  pub keys-assign-AreDistinct :
      (k : String) (v : V) (d : List (String × V))
      → AreDistinct (keys d)
      → AreDistinct (keys (assign str_eq k v d))
  unfolding assign
  keys-assign-AreDistinct k v [] h = (tt, tt)
  keys-assign-AreDistinct k v ((j, w) ∷ d) h = elim (Bool-cases (str_eq j k)) [
    | inl e ↦ rw (assign, e) h
    | inr e ↦
        rw (assign, e)
          (All-keys-assign (λ y. str_eq j y ≡ false) k v d e h.0, keys-assign-AreDistinct k v d h.1)
  ]

  -- A key under which something is found is one of the keys.
  pub value_at-Among :
      (k : String) (d : List (String × V)) (v : V)
      → value_at str_eq k d ≡ some v
      → Among (λ j. j ≡ k) (keys d)
  unfolding value_at
  value_at-Among k [] v e = absurd (none-ne-some v e)
  value_at-Among k ((j, w) ∷ d) v e = elim (Bool-cases (str_eq j k)) [
    | inl f ↦ inl (str_eq→eq j k f)
    | inr f ↦ inr (value_at-Among k d v (rw (value_at, f) at e))
  ]

insert_by-AreDistinct :
    (le : String → String → Bool) (a : String) (xs : List String)
    → All (λ y. str_eq a y ≡ false) xs
    → AreDistinct xs
    → AreDistinct (insert_by le a xs)
unfolding insert_by
insert_by-AreDistinct le a [] h k = (tt, tt)
insert_by-AreDistinct le a (x ∷ xs) h k = elim (Bool-cases (le a x)) [
  | inl e ↦ rw (insert_by, e) (h, k)
  | inr e ↦
      rw (insert_by, e)
        (
          All-insert_by le (λ y. str_eq x y ≡ false) a xs (str_eq_comm x a ∙ h.0) k.0,
          insert_by-AreDistinct le a xs h.1 k.1,
        )
]

pub sort_by-AreDistinct :
    (le : String → String → Bool) (xs : List String) → AreDistinct xs → AreDistinct (sort_by le xs)
unfolding sort_by
sort_by-AreDistinct le [] h = tt
sort_by-AreDistinct le (x ∷ xs) h =
    insert_by-AreDistinct le x (sort_by le xs) (All-sort_by le (λ y. str_eq x y ≡ false) xs h.0)
      (sort_by-AreDistinct le xs h.1)

pub keep_if-AreDistinct :
    (p : String → Bool) (xs : List String) → AreDistinct xs → AreDistinct (keep_if p xs)
keep_if-AreDistinct p [] h = tt
keep_if-AreDistinct p (x ∷ xs) h = elim (Bool-cases (p x)) [
  | inl e ↦
      subst AreDistinct (sym (keep_if_pass p x xs e))
        (All-keep_if (λ y. str_eq x y ≡ false) p xs h.0, keep_if-AreDistinct p xs h.1)
  | inr e ↦ subst AreDistinct (sym (keep_if_fail p x xs e)) (keep_if-AreDistinct p xs h.1)
]
