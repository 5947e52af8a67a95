-- ===== src/Prelude/Text/Order.antt =====
-- The order of texts is total, and the test for equality decides it.
use Prim.Native.Char.{Char, code}
use Prim.Native.Nat.{ℕ}
use Prim.Native.String.{String}
use mathlib.Core.Path.{◌≡◌, refl, sym}
use mathlib.Core.Logic.{◌⊎◌, inl, inr}
use mathlib.Core.Bool.{Bool, true, false, ◌&&◌, ◌||◌, false≢true}
use native.Mathlib.Omega.{arith}
use text.Mathlib.Text.{◌==◌ as str_eq}
use text.Mathlib.TextEquality.{eq_iff, Char-path}
use swelter.Prelude.Tests.{ltb, ◌==◌, Bool-cases}
use swelter.Prelude.Text.{text_lt}

pub str_eq→eq : (s t : String) → str_eq s t ≡ true → s ≡ t
str_eq→eq s t h = (eq_iff s t).0 h

pub str_eq_refl : (s : String) → str_eq s s ≡ true
str_eq_refl s = (eq_iff s s).1 refl

true_if : (a b : Bool) → (a ≡ true → b ≡ true) → (b ≡ true → a ≡ true) → a ≡ b
true_if true b f g = sym (f refl)
true_if false true f g = absurd (false≢true (g refl))
true_if false false f g = refl

pub str_eq_comm : (s t : String) → str_eq s t ≡ str_eq t s
str_eq_comm s t =
    true_if _ _ (λ h. (eq_iff t s).1 (sym ((eq_iff s t).0 h)))
      (λ h. (eq_iff s t).1 (sym ((eq_iff t s).0 h)))

code_cases :
    (c d : Char) → (ltb (code c) (code d) ≡ true) ⊎ (c ≡ d) ⊎ (ltb (code d) (code c) ≡ true)
code_cases c d = elim (Bool-cases (ltb (code c) (code d))) [
  | inl e ↦ inl e
  | inr e ↦ elim (Bool-cases (ltb (code d) (code c))) [
    | inl f ↦ inr (inr f)
    | inr f ↦ inr (inl (Char-path c d (ground arith)))
  ]
]

same_head : (n : ℕ) (b : Bool) → (ltb n n || ((n == n) && b)) ≡ b
same_head n b = ground arith

pub text_lt_cases : (s t : String) → (text_lt s t ≡ true) ⊎ (s ≡ t) ⊎ (text_lt t s ≡ true)
unfolding text_lt
text_lt_cases String.[] String.[] = inr (inl refl)
text_lt_cases String.[] (String.◌∷◌ d t) = inl refl
text_lt_cases (String.◌∷◌ c s) String.[] = inr (inr refl)
text_lt_cases (String.◌∷◌ c s) (String.◌∷◌ d t) = elim (code_cases c d) [
  | inl e ↦ inl (rw e refl)
  | inr (inr e) ↦ inr (inr (rw e refl))
  | inr (inl e) ↦ elim (text_lt_cases s t) [
    | inl f ↦ inl (rw (e, same_head (code d), f) refl)
    | inr (inl f) ↦ inr (inl (rw (e, f) refl))
    | inr (inr f) ↦ inr (inr (rw (e, same_head (code d), f) refl))
  ]
]

pub text_lt_asym : (s t : String) → text_lt s t ≡ true → text_lt t s ≡ false
unfolding text_lt
text_lt_asym String.[] String.[] h = refl
text_lt_asym String.[] (String.◌∷◌ d t) h = refl
text_lt_asym (String.◌∷◌ c s) String.[] h = absurd (false≢true h)
text_lt_asym (String.◌∷◌ c s) (String.◌∷◌ d t) h =
    heads (code c) (code d) (text_lt s t) (text_lt t s) (text_lt_asym s t) h
  where
    heads :
        (m n : ℕ) (b r : Bool)
        → (b ≡ true → r ≡ false)
        → (ltb m n || ((m == n) && b)) ≡ true
        → (ltb n m || ((n == m) && r)) ≡ false
    heads m n b r f h = ground arith

pub text_lt_trans : (s t u : String) → text_lt s t ≡ true → text_lt t u ≡ true → text_lt s u ≡ true
unfolding text_lt
text_lt_trans String.[] String.[] String.[] h k = absurd (false≢true h)
text_lt_trans String.[] (String.◌∷◌ d t) String.[] h k = absurd (false≢true k)
text_lt_trans String.[] t (String.◌∷◌ e u) h k = refl
text_lt_trans (String.◌∷◌ c s) String.[] u h k = absurd (false≢true h)
text_lt_trans (String.◌∷◌ c s) (String.◌∷◌ d t) String.[] h k = absurd (false≢true k)
text_lt_trans (String.◌∷◌ c s) (String.◌∷◌ d t) (String.◌∷◌ e u) h k =
    heads (code c) (code d) (code e) (text_lt s t) (text_lt t u) (text_lt s u) (text_lt_trans s t u)
      h k
  where
    heads :
        (m n o : ℕ) (b q r : Bool)
        → (b ≡ true → q ≡ true → r ≡ true)
        → (ltb m n || ((m == n) && b)) ≡ true
        → (ltb n o || ((n == o) && q)) ≡ true
        → (ltb m o || ((m == o) && r)) ≡ true
    heads m n o true true true f h k = ground arith
    heads m n o true true false f h k = absurd (false≢true (f refl refl))
    heads m n o true false r f h k = ground arith
    heads m n o false q r f h k = ground arith

pub text_lt_irrefl : (s : String) → text_lt s s ≡ false
text_lt_irrefl s = elim (Bool-cases (text_lt s s)) [ inl e ↦ text_lt_asym s s e | inr e ↦ e ]
