-- ===== src/Prelude/Text/Pairs.antt =====
-- Pairs of texts as keys.
use Prim.Native.String.{String}
use mathlib.Core.Path.{◌≡◌, ap, ◌∙◌}
use mathlib.Core.Bool.{Bool, true, ◌&&◌}
use text.Mathlib.Text.{◌==◌ as str_eq}
use swelter.Prelude.Tests.{both_true}
use swelter.Prelude.Text.Order.{str_eq→eq}

abbrev pub same_pair : String × String → String × String → Bool
same_pair a b = str_eq a.0 b.0 && str_eq a.1 b.1

pub same_pair-parts : (a b : String × String) → same_pair a b ≡ true → (a.0 ≡ b.0) × (a.1 ≡ b.1)
same_pair-parts a b h =
    let (p, q) = both_true (str_eq a.0 b.0) (str_eq a.1 b.1) h in
    (str_eq→eq a.0 b.0 p, str_eq→eq a.1 b.1 q)

abbrev pair : String → String → String × String
pair x y = (x, y)

pub same_pair→eq : (a b : String × String) → same_pair a b ≡ true → a ≡ b
same_pair→eq a b h =
    let (p, q) = same_pair-parts a b h in ap (λ x. pair x a.1) p ∙ ap (λ y. pair b.0 y) q
