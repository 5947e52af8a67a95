-- ===== src/Store/Wanted.antt =====
-- src/swelter/store.py: the WHERE clause and the order of `read`, as propositions.
use swelter.Prelude.{
  ◌≡◌, refl, subst, String, List, [], ◌∷◌, Bool, true, false, not, ◌&&◌, ◌||◌, Option, none, some,
  str_eq, arith, ◌⊎◌, inl, inr, ◌↔◌, Bool-cases,
}
use swelter.Prelude.Text.{text_lt}
use swelter.Prelude.Text.Order.{str_eq→eq, str_eq_refl}
use swelter.Prelude.Sort.{IsSorted}
use swelter.Float.{Float}
use swelter.Store.{Row, Query, wants, at_least, at_most, matches, by_name}

-- A filter that is not given admits every text.
abbrev Admits : Option String → String → Type 0
Admits none s = Unit
Admits (some t) s = s ≡ t

abbrev NotBefore : Option String → String → Type 0
NotBefore none s = Unit
NotBefore (some low) s = text_lt s low ≡ false

abbrev NotAfter : Option String → String → Type 0
NotAfter none s = Unit
NotAfter (some high) s = text_lt high s ≡ false

wants_iff : (w : Option String) (s : String) → (wants w s ≡ true) ↔ Admits w s
wants_iff none s = (λ h. tt, λ h. refl)
wants_iff (some t) s = (str_eq→eq s t, λ e. subst (λ u. str_eq s u ≡ true) e (str_eq_refl s))

not_iff : (b : Bool) → (not b ≡ true) ↔ (b ≡ false)
not_iff b = (λ h. ground arith, λ h. ground arith)

and_iff :
    (a b : Bool) {P Q : Type 0} → (a ≡ true) ↔ P → (b ≡ true) ↔ Q → ((a && b) ≡ true) ↔ (P × Q)
and_iff a b f g = (
  λ h. (f.0 (ground arith), g.0 (ground arith)),
  λ (p, q). let x = f.1 p in let y = g.1 q in ground arith,
)

-- A lexicographic order of two keys.
abbrev Before : String → String → Type 0 → Type 0
Before s t Rest = (text_lt s t ≡ true) ⊎ ((s ≡ t) × Rest)

lexicographic :
    (s t : String) (rest : Bool) (Rest : Type 0)
    → (rest ≡ true → Rest)
    → (text_lt s t || (str_eq s t && rest)) ≡ true
    → Before s t Rest
lexicographic s t rest Rest f h = elim (Bool-cases (text_lt s t)) [
  | inl e ↦ inl e
  | inr e ↦ inr (str_eq→eq s t (ground arith), f (ground arith))
]

module _ (float : Float) where
  at_least_iff :
      (canonical : String → Option String) (low : Option String) (s : String)
      → (at_least float canonical low s ≡ true) ↔ NotBefore low s
  at_least_iff canonical none s = (λ h. tt, λ h. refl)
  at_least_iff canonical (some low) s = not_iff (text_lt s low)

  at_most_iff :
      (canonical : String → Option String) (high : Option String) (s : String)
      → (at_most float canonical high s ≡ true) ↔ NotAfter high s
  at_most_iff canonical none s = (λ h. tt, λ h. refl)
  at_most_iff canonical (some high) s = not_iff (text_lt high s)

  -- The row has what the query asks for.
  abbrev pub IsWanted : Query → Option String → Option String → Row float → Type 0
  IsWanted q since until r =
      Admits q.parameter r.stored.parameter
      × (Admits q.node_id r.stored.node_id
          × (Admits q.calibration r.stored.calibration
              × (NotBefore since r.stored.timestamp × NotAfter until r.stored.timestamp)))

  pub matches_iff :
      (canonical : String → Option String) (q : Query) (since until : Option String) (r : Row float)
      → (matches float canonical q since until r ≡ true) ↔ IsWanted q since until r
  unfolding matches
  matches_iff canonical q since until r =
      let o = r.stored in
      and_iff _ _ (wants_iff q.parameter o.parameter) (
        and_iff _ _ (wants_iff q.node_id o.node_id) (
          and_iff _ _ (wants_iff q.calibration o.calibration) (
            and_iff _ _ (at_least_iff canonical since o.timestamp)
              (at_most_iff canonical until o.timestamp))))

  -- By node, then parameter, then time.
  abbrev IsOrdered : Row float → Row float → Type 0
  IsOrdered a b = Before a.stored.node_id b.stored.node_id (
      Before a.stored.parameter b.stored.parameter
        (text_lt b.stored.timestamp a.stored.timestamp ≡ false))

  abbrev pub AreInOrder : List (Row float) → Type 0
  AreInOrder [] = Unit
  AreInOrder (a ∷ []) = Unit
  AreInOrder (a ∷ b ∷ rows) = IsOrdered a b × AreInOrder (b ∷ rows)

  by_name-IsOrdered : (a b : Row float) → by_name float a b ≡ true → IsOrdered a b
  by_name-IsOrdered a b = lexicographic a.stored.node_id b.stored.node_id _ _ (
      lexicographic a.stored.parameter b.stored.parameter _ _
        (not_iff (text_lt b.stored.timestamp a.stored.timestamp)).0)

  pub IsSorted-AreInOrder :
      (rows : List (Row float)) → IsSorted (by_name float) rows → AreInOrder rows
  IsSorted-AreInOrder [] h = tt
  IsSorted-AreInOrder (a ∷ []) h = tt
  IsSorted-AreInOrder (a ∷ b ∷ rows) h =
      (by_name-IsOrdered a b h.0, IsSorted-AreInOrder (b ∷ rows) h.1)
