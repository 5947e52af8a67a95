-- ===== src/Store/Keys.antt =====
-- What a write does to the table: it appends rows under new keys.
use mathlib.Core.List.{append_assoc, Sublist}
use mathlib.Core.List.Sublist
use swelter.Prelude.{
  suc, ◌+◌, ◌≤◌, ◌≡◌, refl, sym, ap, subst, ◌∙◌, List, [], ◌∷◌, ◌++◌, append-nil, length, any_of,
  Bool, true, false, ◌||◌, arith, Bool-cases, ◌⊎◌, inl, inr,
}
use swelter.Prelude.Text.Order.{str_eq_refl, str_eq_comm}
use swelter.Float.{Float}
use swelter.Models.{Key}
use swelter.Store.{key_eq, Row, Table, row_key, has_key, is_refused, insert_or_ignore, insert_all}

pub key_eq_refl : (k : Key) → key_eq k k ≡ true
key_eq_refl (a, b, c, d, e) =
    rw (str_eq_refl a, str_eq_refl b, str_eq_refl c, str_eq_refl d, str_eq_refl e) refl

pub key_eq_comm : (k j : Key) → key_eq k j ≡ key_eq j k
key_eq_comm (a, b, c, d, e) (v, w, x, y, z) =
    rw (str_eq_comm a v, str_eq_comm b w, str_eq_comm c x, str_eq_comm d y, str_eq_comm e z) refl

pub any_of-append {ℓ} :
    {A : Type ℓ} (p : A → Bool) (xs ys : List A)
    → any_of p (xs ++ ys) ≡ (any_of p xs || any_of p ys)
any_of-append p [] ys = refl
any_of-append p (x ∷ xs) ys = ground (arith, any_of-append p xs ys)

module _ (float : Float) where
  open float use {is_nan}

  -- No two rows have one key: the primary key of the table.
  abbrev pub IsKeyed : List (Row float) → Type 0
  IsKeyed [] = Unit
  IsKeyed (r ∷ rs) = (has_key float (row_key float r) rs ≡ false) × IsKeyed rs

  pub IsKeyed-append_one :
      (rows : List (Row float)) (r : Row float)
      → has_key float (row_key float r) rows ≡ false
      → IsKeyed rows
      → IsKeyed (rows ++ r ∷ [])
  IsKeyed-append_one [] r h k = (refl, tt)
  IsKeyed-append_one (x ∷ xs) r h (fresh, k) =
      let apart : (key_eq (row_key float x) (row_key float r) ≡ false)
          × (has_key float (row_key float r) xs ≡ false) =
        ground arith in
      (
        any_of-append (λ s. key_eq (row_key float s) (row_key float x)) xs (r ∷ [])
            ∙ rw (fresh, key_eq_comm (row_key float r) (row_key float x), apart.0) refl,
        IsKeyed-append_one xs r apart.1 k,
      )

  abbrev extended : Row float → Table float → Table float
  extended r t = record { rows = t.rows ++ r ∷ []; changes = suc t.changes }

  -- A row is ignored if it is refused, and appended otherwise.
  pub insert_or_ignore_cases :
      (r : Row float) (t : Table float)
      → ((is_refused float r t.rows ≡ true) × (insert_or_ignore float r t ≡ t))
        ⊎ ((is_refused float r t.rows ≡ false) × (insert_or_ignore float r t ≡ extended r t))
  unfolding insert_or_ignore
  insert_or_ignore_cases r t = elim (Bool-cases (is_refused float r t.rows)) [
    | inl e ↦ inl (e, rw e refl)
    | inr e ↦ inr (e, rw e refl)
  ]

  pub insert_or_ignore-IsKeyed :
      (r : Row float) (t : Table float) → IsKeyed t.rows → IsKeyed (insert_or_ignore float r t).rows
  unfolding is_refused
  insert_or_ignore-IsKeyed r t h = elim (insert_or_ignore_cases r t) [
    | inl (e, f) ↦ subst (λ (u : Table float). IsKeyed u.rows) (sym f) h
    | inr (e, f) ↦
        subst (λ (u : Table float). IsKeyed u.rows) (sym f)
          (IsKeyed-append_one t.rows r (ground arith) h)
  ]

  pub insert_all-IsKeyed :
      (rs : List (Row float)) (t : Table float)
      → IsKeyed t.rows
      → IsKeyed (insert_all float rs t).rows
  unfolding insert_all
  insert_all-IsKeyed [] t h = h
  insert_all-IsKeyed (r ∷ rs) t h =
      insert_all-IsKeyed rs (insert_or_ignore float r t) (insert_or_ignore-IsKeyed r t h)

  -- What a batch adds: some of its rows in their order, behind those that were there.
  abbrev pub Added : List (Row float) → Table float → Table float → Type 0
  Added rs t u =
      (added : List (Row float)) × Sublist added rs
      × (u.rows ≡ t.rows ++ added)
      × (u.changes ≡ t.changes + length added)
      × (length added ≤ length rs)

  pub insert_all-Added :
      (rs : List (Row float)) (t : Table float) → Added rs t (insert_all float rs t)
  unfolding insert_all
  insert_all-Added [] t = ([], Sublist.refl [], sym (append-nil t.rows), omega arith, omega arith)
  insert_all-Added (r ∷ rs) t =
      let (added, part, rows, changes, few) = insert_all-Added rs (insert_or_ignore float r t) in
      elim (insert_or_ignore_cases r t) [
        | inl (e, f) ↦ (
          added,
          Sublist.cons r part,
          rows ∙ ap (λ (u : Table float). u.rows ++ added) f,
          changes ∙ ap (λ (u : Table float). u.changes + length added) f,
          omega arith,
        )
        | inr (e, f) ↦ (
          r ∷ added,
          Sublist.cons-cons r part,
          rows ∙ ap (λ (u : Table float). u.rows ++ added) f ∙ append_assoc t.rows (r ∷ []) added,
          changes ∙ ap (λ (u : Table float). u.changes + length added) f ∙ omega arith,
          omega arith,
        )
      ]
