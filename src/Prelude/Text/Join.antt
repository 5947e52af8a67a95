-- ===== src/Prelude/Text/Join.antt =====
-- When a concatenation determines its parts.
use Prim.Native.Nat.{◌+◌}
use Prim.Native.Char.{Char}
use Prim.Native.String.{String}
use mathlib.Core.Path.{◌≡◌, refl, ap}
use native.Mathlib.Omega.{arith}
use swelter.Prelude.Text.{chars, join}

tail_of : String → String
tail_of String.[] = String.[]
tail_of (String.◌∷◌ c s) = s

head_or : Char → String → Char
head_or d String.[] = d
head_or d (String.◌∷◌ c s) = c

pub chars-join : (s t : String) → chars (join s t) ≡ chars s + chars t
unfolding chars join
chars-join String.[] t = omega arith
chars-join (String.◌∷◌ c s) t = omega (arith, chars-join s t)

-- Parts of the same length.
pub join_prefix : (s t u v : String) → chars s ≡ chars t → join s u ≡ join t v → (s ≡ t) × (u ≡ v)
unfolding chars join tail_of head_or
join_prefix String.[] String.[] u v h e = (refl, e)
join_prefix String.[] (String.◌∷◌ d t) u v h e = absurd (omega arith)
join_prefix (String.◌∷◌ c s) String.[] u v h e = absurd (omega arith)
join_prefix (String.◌∷◌ c s) (String.◌∷◌ d t) u v h e =
    let rest = join_prefix s t u v (omega arith) (ap tail_of e) in
    (λ i. String.◌∷◌ (ap (head_or c) e i) (rest.0 i), rest.1)

pub join_suffix : (s t u v : String) → chars u ≡ chars v → join s u ≡ join t v → (s ≡ t) × (u ≡ v)
join_suffix s t u v h e =
    join_prefix s t u v (omega (arith, ap chars e, chars-join s u, chars-join t v)) e
