-- ===== src/Prelude/Dict.antt =====
-- Python's `dict`, as its items in the order in which the keys first came.
use swelter.Prelude.Tests.{Bool-cases, if◌then◌else◌}
use swelter.Prelude.Lists.{All}
use mathlib.Core.Logic.{inl, inr}
use mathlib.Core.Bool.{Bool, true, false}
use mathlib.Core.List.{List, [], ◌∷◌}
use mathlib.Core.Option.{Option, none, some, some-injective, none-ne-some}
use mathlib.Core.Path.{◌≡◌, refl, subst}

module _ {ℓ κ} {K : Type ℓ} {V : Type κ} (eq : K → K → Bool) where
  -- `d[k] = v`: a key that is there keeps its place.
  unfoldable pub assign : K → V → List (K × V) → List (K × V)
  assign k v [] = (k, v) ∷ []
  assign k v ((j, w) ∷ d) = if eq j k then (j, v) ∷ d else (j, w) ∷ assign k v d

  -- `d.get(k)`
  unfoldable pub value_at : K → List (K × V) → Option V
  value_at k [] = none
  value_at k ((j, w) ∷ d) = if eq j k then some w else value_at k d

  pub value_at-assign_self :
      ((k : K) → eq k k ≡ true)
      → (k : K) (v : V) (d : List (K × V)) → value_at k (assign k v d) ≡ some v
  unfolding assign value_at
  value_at-assign_self same k v [] = rw (same k) refl
  value_at-assign_self same k v ((j, w) ∷ d) = elim (Bool-cases (eq j k)) [
    | inl e ↦ rw (e, value_at, e) refl
    | inr e ↦ rw (e, value_at, e) (value_at-assign_self same k v d)
  ]

  pub value_at-assign_other :
      (i k : K) (v : V) (d : List (K × V))
      → ((j : K) → eq j k ≡ true → eq j i ≡ false)
      → eq k i ≡ false
      → value_at i (assign k v d) ≡ value_at i d
  unfolding assign value_at
  value_at-assign_other i k v [] h n = rw n refl
  value_at-assign_other i k v ((j, w) ∷ d) h n = elim (Bool-cases (eq j k)) [
    | inl e ↦ rw (e, value_at, h j e) refl
    | inr e ↦ rw (e, value_at, value_at-assign_other i k v d h n) refl
  ]

  -- A key that is known stays so.
  pub value_at-assign_known :
      (i k : K) (v w : V) (d : List (K × V))
      → value_at i d ≡ some w
      → (u : V) × (value_at i (assign k v d) ≡ some u)
  unfolding assign value_at
  value_at-assign_known i k v w [] h = absurd (none-ne-some w h)
  value_at-assign_known i k v w ((j, x) ∷ d) h = elim (Bool-cases (eq j k)) [
    | inl e ↦ elim (Bool-cases (eq j i)) [
      | inl f ↦ (v, rw (assign, e, value_at, f) refl)
      | inr f ↦ (w, rw (assign, e, value_at, f) (rw (value_at, f) at h))
    ]
    | inr e ↦ elim (Bool-cases (eq j i)) [
      | inl f ↦ (x, rw (assign, e, value_at, f) refl)
      | inr f ↦
          let (u, known) = value_at-assign_known i k v w d (rw (value_at, f) at h) in
          (u, rw (assign, e, value_at, f) known)
    ]
  ]

  pub All-assign {ι} :
      (P : K × V → Type ι) (k : K) (v : V) (d : List (K × V))
      → ((j : K) → eq j k ≡ true → P (j, v))
      → P (k, v)
      → All P d
      → All P (assign k v d)
  unfolding assign
  All-assign P k v [] same new h = (new, tt)
  All-assign P k v ((j, w) ∷ d) same new h = elim (Bool-cases (eq j k)) [
    | inl e ↦ rw (e, assign) (same j e, h.1)
    | inr e ↦ rw (e, assign) (h.0, All-assign P k v d same new h.1)
  ]

  -- What is found is the value of an item.
  pub value_at-All {ι} :
      (P : K × V → Type ι) (k : K) (d : List (K × V)) (v : V)
      → All P d
      → value_at k d ≡ some v
      → (j : K) × (eq j k ≡ true) × P (j, v)
  unfolding value_at
  value_at-All P k [] v h e = absurd (none-ne-some v e)
  value_at-All P k ((j, w) ∷ d) v h e = elim (Bool-cases (eq j k)) [
    | inl t ↦ (j, t, subst (λ x. P (j, x)) (some-injective _ _ (rw (value_at, t) at e)) h.0)
    | inr f ↦ value_at-All P k d v h.1 (rw (value_at, f) at e)
  ]
