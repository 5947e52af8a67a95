-- ===== src/Prelude/Lists.antt =====
-- Lists measured and indexed by native numbers, under the library's names.
use Prim.Native.Nat.{ℕ, zero, suc, ◌+◌, ◌-◌, ◌<◌, ◌≤◌, min}
use mathlib.Core.Path.{◌≡◌, refl, sym, ap, subst, ◌∙◌}
use mathlib.Core.Logic.{◌≢◌, ◌⊎◌, inl, inr}
use mathlib.Core.Bool.{Bool, true, false, ◌&&◌, ◌||◌, false≢true}
use mathlib.Core.List.{List, [], ◌∷◌, ◌++◌, map}
use mathlib.Core.Option.{Option, none, some}
use native.Mathlib.Omega.{arith}
use swelter.Prelude.Tests.{Bool-cases}

module _ {ℓ} {A : Type ℓ} where
  abbrev pub length : List A → ℕ
  length [] = 0
  length (x ∷ xs) = suc (length xs)

  abbrev pub get_elem? : List A → ℕ → Option A
  get_elem? [] i = none
  get_elem? (x ∷ xs) zero = some x
  get_elem? (x ∷ xs) (suc i) = get_elem? xs i

  abbrev pub get_or : List A → ℕ → A → A
  get_or [] i d = d
  get_or (x ∷ xs) zero d = x
  get_or (x ∷ xs) (suc i) d = get_or xs i d

  -- A write out of bounds changes nothing.
  abbrev pub set : List A → ℕ → A → List A
  set [] i v = []
  set (x ∷ xs) zero v = v ∷ xs
  set (x ∷ xs) (suc i) v = x ∷ set xs i v

  abbrev pub take : ℕ → List A → List A
  take zero xs = []
  take (suc n) [] = []
  take (suc n) (x ∷ xs) = x ∷ take n xs

  abbrev pub drop : ℕ → List A → List A
  drop zero xs = xs
  drop (suc n) [] = []
  drop (suc n) (x ∷ xs) = drop n xs

  abbrev pub replicate : ℕ → A → List A
  replicate zero a = []
  replicate (suc n) a = a ∷ replicate n a

  -- The entries that pass a Boolean test, in order.
  abbrev pub keep_if : (A → Bool) → List A → List A
  keep_if p [] = []
  keep_if p (x ∷ xs) = elim (p x) [ true ↦ x ∷ keep_if p xs | false ↦ keep_if p xs ]

  abbrev pub any_of : (A → Bool) → List A → Bool
  any_of p [] = false
  any_of p (x ∷ xs) = p x || any_of p xs

  abbrev pub all_of : (A → Bool) → List A → Bool
  all_of p [] = true
  all_of p (x ∷ xs) = p x && all_of p xs

  abbrev pub All {κ} : (A → Type κ) → List A → Type κ
  All P [] = Unit
  All P (x ∷ xs) = P x × All P xs

  -- One entry of the list has the property.
  abbrev pub Among : (A → Type 0) → List A → Type 0
  Among P [] = ⊥
  Among P (x ∷ xs) = P x ⊎ Among P xs

module _ {ℓ} {A : Type ℓ} where
  pub length-append : (xs ys : List A) → length (xs ++ ys) ≡ length xs + length ys
  length-append [] ys = omega arith
  length-append (x ∷ xs) ys = omega (arith, length-append xs ys)

  pub length-set : (xs : List A) (i : ℕ) (v : A) → length (set xs i v) ≡ length xs
  length-set [] i v = refl
  length-set (x ∷ xs) zero v = refl
  length-set (x ∷ xs) (suc i) v = ap suc (length-set xs i v)

  pub length-take : (n : ℕ) (xs : List A) → length (take n xs) ≡ min n (length xs)
  length-take zero xs = omega arith
  length-take (suc n) [] = omega arith
  length-take (suc n) (x ∷ xs) = omega (arith, length-take n xs)

  pub length-drop : (n : ℕ) (xs : List A) → length (drop n xs) ≡ length xs - n
  length-drop zero xs = omega arith
  length-drop (suc n) [] = omega arith
  length-drop (suc n) (x ∷ xs) = omega (arith, length-drop n xs)

  pub take-append-drop : (n : ℕ) (xs : List A) → take n xs ++ drop n xs ≡ xs
  take-append-drop zero xs = refl
  take-append-drop (suc n) [] = refl
  take-append-drop (suc n) (x ∷ xs) = rw (take-append-drop n xs)

  pub length-replicate : (n : ℕ) (a : A) → length (replicate n a) ≡ n
  length-replicate zero a = refl
  length-replicate (suc n) a = ap suc (length-replicate n a)

  pub length-map {κ} : {B : Type κ} (f : A → B) (xs : List A) → length (map f xs) ≡ length xs
  length-map f [] = refl
  length-map f (x ∷ xs) = ap suc (length-map f xs)

  pub get_or-set_self :
      (xs : List A) (i : ℕ) (v d : A) → i < length xs → get_or (set xs i v) i d ≡ v
  get_or-set_self [] i v d h = elim h [ ]
  get_or-set_self (x ∷ xs) zero v d h = refl
  get_or-set_self (x ∷ xs) (suc i) v d h = get_or-set_self xs i v d (omega arith)

  pub get_or-set_ne :
      (xs : List A) (i j : ℕ) (v d : A) → i ≢ j → get_or (set xs i v) j d ≡ get_or xs j d
  get_or-set_ne [] i j v d h = refl
  get_or-set_ne (x ∷ xs) zero zero v d h = absurd (h refl)
  get_or-set_ne (x ∷ xs) zero (suc j) v d h = refl
  get_or-set_ne (x ∷ xs) (suc i) zero v d h = refl
  get_or-set_ne (x ∷ xs) (suc i) (suc j) v d h = get_or-set_ne xs i j v d (λ e. h (ap suc e))

  pub All-append {κ} : (P : A → Type κ) (xs ys : List A) → All P xs → All P ys → All P (xs ++ ys)
  All-append P [] ys h k = k
  All-append P (x ∷ xs) ys h k = (h.0, All-append P xs ys h.1 k)

  pub All-parts {κ} : (P : A → Type κ) (xs ys : List A) → All P (xs ++ ys) → All P xs × All P ys
  All-parts P [] ys h = (tt, h)
  All-parts P (x ∷ xs) ys h = let (own, rest) = All-parts P xs ys h.1 in ((h.0, own), rest)

  pub List-cases : (l : List A) → (l ≡ []) ⊎ ((x : A) × (r : List A) × (l ≡ x ∷ r))
  List-cases [] = inl refl
  List-cases (x ∷ r) = inr (x, r, refl)

  pub All-take {κ} : (P : A → Type κ) (n : ℕ) (xs : List A) → All P xs → All P (take n xs)
  All-take P zero xs h = tt
  All-take P (suc n) [] h = tt
  All-take P (suc n) (x ∷ xs) h = (h.0, All-take P n xs h.1)

  pub keep_if_pass :
      (p : A → Bool) (x : A) (xs : List A) → p x ≡ true → keep_if p (x ∷ xs) ≡ x ∷ keep_if p xs
  keep_if_pass p x xs e = rw (keep_if, e) refl

  pub keep_if_fail :
      (p : A → Bool) (x : A) (xs : List A) → p x ≡ false → keep_if p (x ∷ xs) ≡ keep_if p xs
  keep_if_fail p x xs e = rw (keep_if, e) refl

  pub keep_if_cons :
      (p : A → Bool) (x : A) (xs ys : List A)
      → keep_if p xs ≡ keep_if p ys
      → keep_if p (x ∷ xs) ≡ keep_if p (x ∷ ys)
  keep_if_cons p x xs ys e = elim (Bool-cases (p x)) [
    | inl t ↦ keep_if_pass p x xs t ∙ ap (λ l. x ∷ l) e ∙ sym (keep_if_pass p x ys t)
    | inr f ↦ keep_if_fail p x xs f ∙ e ∙ sym (keep_if_fail p x ys f)
  ]

  pub keep_if-append :
      (p : A → Bool) (xs ys : List A) → keep_if p (xs ++ ys) ≡ keep_if p xs ++ keep_if p ys
  keep_if-append p [] ys = refl
  keep_if-append p (x ∷ xs) ys = elim (Bool-cases (p x)) [
    | inl e ↦
        keep_if_pass p x (xs ++ ys) e
        ∙ ap (λ l. x ∷ l) (keep_if-append p xs ys)
        ∙ ap (λ l. l ++ keep_if p ys) (sym (keep_if_pass p x xs e))
    | inr e ↦
        keep_if_fail p x (xs ++ ys) e
        ∙ keep_if-append p xs ys
        ∙ ap (λ l. l ++ keep_if p ys) (sym (keep_if_fail p x xs e))
  ]

  pub keep_if_none : (p : A → Bool) (xs : List A) → All (λ x. p x ≡ false) xs → keep_if p xs ≡ []
  keep_if_none p [] h = refl
  keep_if_none p (x ∷ xs) h = keep_if_fail p x xs h.0 ∙ keep_if_none p xs h.1

  -- A first selection that is weaker than the second one has no effect on it.
  pub keep_if_twice :
      (p q : A → Bool) (xs : List A)
      → ((x : A) → p x ≡ true → q x ≡ true)
      → keep_if p (keep_if q xs) ≡ keep_if p xs
  keep_if_twice p q [] h = refl
  keep_if_twice p q (x ∷ xs) h = elim (Bool-cases (q x)) [
    | inl e ↦ ap (keep_if p) (keep_if_pass q x xs e) ∙ elim (Bool-cases (p x)) [
      | inl f ↦
          keep_if_pass p x (keep_if q xs) f
          ∙ ap (λ l. x ∷ l) (keep_if_twice p q xs h)
          ∙ sym (keep_if_pass p x xs f)
      | inr f ↦
          keep_if_fail p x (keep_if q xs) f ∙ keep_if_twice p q xs h ∙ sym (keep_if_fail p x xs f)
    ]
    | inr e ↦ ap (keep_if p) (keep_if_fail q x xs e) ∙ elim (Bool-cases (p x)) [
      | inl f ↦ absurd (false≢true (sym e ∙ h x f))
      | inr f ↦ keep_if_twice p q xs h ∙ sym (keep_if_fail p x xs f)
    ]
  ]

  pub All-keep_if_passed : (p : A → Bool) (xs : List A) → All (λ x. p x ≡ true) (keep_if p xs)
  All-keep_if_passed p [] = tt
  All-keep_if_passed p (x ∷ xs) = elim (Bool-cases (p x)) [
    | inl e ↦
        subst (All (λ y. p y ≡ true)) (sym (keep_if_pass p x xs e)) (e, All-keep_if_passed p xs)
    | inr e ↦ subst (All (λ y. p y ≡ true)) (sym (keep_if_fail p x xs e)) (All-keep_if_passed p xs)
  ]

  pub All-keep_if {κ} :
      (P : A → Type κ) (p : A → Bool) (xs : List A) → All P xs → All P (keep_if p xs)
  All-keep_if P p [] h = tt
  All-keep_if P p (x ∷ xs) h = elim (Bool-cases (p x)) [
    | inl e ↦ subst (All P) (sym (keep_if_pass p x xs e)) (h.0, All-keep_if P p xs h.1)
    | inr e ↦ subst (All P) (sym (keep_if_fail p x xs e)) (All-keep_if P p xs h.1)
  ]

  pub length-keep_if : (p : A → Bool) (xs : List A) → length (keep_if p xs) ≤ length xs
  length-keep_if p [] = omega arith
  length-keep_if p (x ∷ xs) = elim (Bool-cases (p x)) [
    | inl e ↦ omega (arith, ap length (keep_if_pass p x xs e), length-keep_if p xs)
    | inr e ↦ omega (arith, ap length (keep_if_fail p x xs e), length-keep_if p xs)
  ]

module _ {ℓ κ} {A : Type ℓ} where
  pub All-weaken {ι} :
      (P : A → Type κ) (Q : A → Type ι)
      → ((x : A) → P x → Q x)
      → (xs : List A) → All P xs
      → All Q xs
  All-weaken P Q f [] h = tt
  All-weaken P Q f (x ∷ xs) h = (f x h.0, All-weaken P Q f xs h.1)

  pub All-both {ι θ} :
      (P : A → Type κ) (Q : A → Type ι) (R : A → Type θ)
      → ((x : A) → P x → Q x → R x)
      → (xs : List A) → All P xs
      → All Q xs
      → All R xs
  All-both P Q R f [] h k = tt
  All-both P Q R f (x ∷ xs) h k = (f x h.0 k.0, All-both P Q R f xs h.1 k.1)

  pub All-map {ι} :
      {B : Type ι} (P : B → Type κ) (f : A → B) (xs : List A)
      → All (λ x. P (f x)) xs
      → All P (map f xs)
  All-map P f [] h = tt
  All-map P f (x ∷ xs) h = (h.0, All-map P f xs h.1)

  pub All-map_back {ι} :
      {B : Type ι} (P : B → Type κ) (f : A → B) (xs : List A)
      → All P (map f xs)
      → All (λ x. P (f x)) xs
  All-map_back P f [] h = tt
  All-map_back P f (x ∷ xs) h = (h.0, All-map_back P f xs h.1)

module _ {A : Type 0} where
  pub Among-weaken :
      (P Q : A → Type 0) → ((x : A) → P x → Q x) → (xs : List A) → Among P xs → Among Q xs
  Among-weaken P Q f [] h = h
  Among-weaken P Q f (x ∷ xs) (inl h) = inl (f x h)
  Among-weaken P Q f (x ∷ xs) (inr h) = inr (Among-weaken P Q f xs h)

  pub Among-append_left : (P : A → Type 0) (xs ys : List A) → Among P xs → Among P (xs ++ ys)
  Among-append_left P [] ys h = absurd h
  Among-append_left P (x ∷ xs) ys (inl h) = inl h
  Among-append_left P (x ∷ xs) ys (inr h) = inr (Among-append_left P xs ys h)

  pub Among-append_right : (P : A → Type 0) (xs ys : List A) → Among P ys → Among P (xs ++ ys)
  Among-append_right P [] ys h = h
  Among-append_right P (x ∷ xs) ys h = inr (Among-append_right P xs ys h)

  pub Among-keep_if :
      (P : A → Type 0) (p : A → Bool) (xs : List A)
      → ((x : A) → P x → p x ≡ true)
      → Among P xs
      → Among P (keep_if p xs)
  Among-keep_if P p [] f h = h
  Among-keep_if P p (x ∷ xs) f (inl h) = subst (Among P) (sym (keep_if_pass p x xs (f x h))) (inl h)
  Among-keep_if P p (x ∷ xs) f (inr h) = elim (Bool-cases (p x)) [
    | inl e ↦ subst (Among P) (sym (keep_if_pass p x xs e)) (inr (Among-keep_if P p xs f h))
    | inr e ↦ subst (Among P) (sym (keep_if_fail p x xs e)) (Among-keep_if P p xs f h)
  ]

  pub Among-All : (P Q : A → Type 0) (xs : List A) → All P xs → Among Q xs → (x : A) × P x × Q x
  Among-All P Q [] h k = elim k [ ]
  Among-All P Q (x ∷ xs) h (inl q) = (x, h.0, q)
  Among-All P Q (x ∷ xs) h (inr k) = Among-All P Q xs h.1 k

  -- Every entry of a list is among its entries.
  pub All-Among : (xs : List A) → All (λ x. Among (λ y. y ≡ x) xs) xs
  All-Among [] = tt
  All-Among (x ∷ xs) = (inl refl, All-weaken _ _ (λ y h. inr h) xs (All-Among xs))
