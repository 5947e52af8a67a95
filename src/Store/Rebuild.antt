-- ===== src/Store/Rebuild.antt =====
-- `drop_calibrated` and the writes of derived rows leave the raw log as it is.
use mathlib.Core.List.{append-nil}
use swelter.Prelude.{
  ℕ, ◌+◌, ◌≡◌, refl, sym, ap, ◌∙◌, fun_ext, String, List, [], ◌∷◌, ◌++◌, map, keep_if,
  keep_if-append, keep_if_none, keep_if_twice, All-keep_if_passed, length-keep_if, any_of, All,
  Bool, true, false, ◌&&◌, Option, arith, Bool-cases, inl, inr,
}
use swelter.Prelude.Sort.{sort_by}
use swelter.Float.{Float}
use swelter.Models.{Observation, is_calibrated}
use swelter.Store.{
  Row, Table, row_key, key_eq, is_raw, insert_or_ignore, insert_all, by_name, matches, rows_to_obs,
  read, latest_raw, bound, row_of, write, count, drop_calibrated,
}
use swelter.Store.Keys.{IsKeyed, insert_or_ignore_cases}

any_of-keep_if {ℓ} :
    {A : Type ℓ} (p q : A → Bool) (xs : List A)
    → any_of p xs ≡ false
    → any_of p (keep_if q xs) ≡ false
any_of-keep_if p q [] h = refl
any_of-keep_if p q (x ∷ xs) h =
    let parts : (p x ≡ false) × (any_of p xs ≡ false) = ground arith in
    elim (Bool-cases (q x)) [
      | inl e ↦ rw (e, any_of, parts.0) (any_of-keep_if p q xs parts.1)
      | inr e ↦ rw (e, any_of) (any_of-keep_if p q xs parts.1)
    ]

module _ (float : Float) where
  IsKeyed-keep_if :
      (q : Row float → Bool) (rows : List (Row float))
      → IsKeyed float rows
      → IsKeyed float (keep_if q rows)
  IsKeyed-keep_if q [] h = tt
  IsKeyed-keep_if q (r ∷ rs) h = elim (Bool-cases (q r)) [
    | inl e ↦
        rw (e, IsKeyed)
          (
            any_of-keep_if (λ s. key_eq (row_key float s) (row_key float r)) q rs h.0,
            IsKeyed-keep_if q rs h.1,
          )
    | inr e ↦ rw (e, IsKeyed) (IsKeyed-keep_if q rs h.1)
  ]

  -- The raw log: the raw rows of a table.
  abbrev raw_log : Table float → List (Row float)
  raw_log t = keep_if (is_raw float) t.rows

  IsDerived : Row float → Type 0
  IsDerived r = is_raw float r ≡ false

  raw_log-insert_or_ignore :
      (r : Row float) (t : Table float)
      → IsDerived r
      → raw_log (insert_or_ignore float r t) ≡ raw_log t
  unfolding IsDerived
  raw_log-insert_or_ignore r t h = elim (insert_or_ignore_cases float r t) [
    | inl (e, f) ↦ ap raw_log f
    | inr (e, f) ↦
        ap raw_log f
        ∙ keep_if-append (is_raw float) t.rows (r ∷ [])
        ∙ ap (λ l. raw_log t ++ l) (keep_if_none (is_raw float) (r ∷ []) (h, tt))
        ∙ append-nil (raw_log t)
  ]

  raw_log-insert_all :
      (rs : List (Row float)) (t : Table float)
      → All IsDerived rs
      → raw_log (insert_all float rs t) ≡ raw_log t
  unfolding insert_all
  raw_log-insert_all [] t h = refl
  raw_log-insert_all (r ∷ rs) t h =
      raw_log-insert_all rs (insert_or_ignore float r t) h.1 ∙ raw_log-insert_or_ignore r t h.0

  module _ (canonical : String → Option String) where
    -- `latest_raw` reads the raw log.
    latest_raw-raw_log :
        (t : Table float)
        → latest_raw float canonical t ≡ rows_to_obs float (sort_by (by_name float) (raw_log t))
    unfolding latest_raw read bound matches
    latest_raw-raw_log t =
        ap
          (λ (p : Row float → Bool). rows_to_obs float (sort_by (by_name float) (keep_if p t.rows)))
          (fun_ext (λ r. and_true (is_raw float r)))
      where
        and_true : (b : Bool) → (b && true) ≡ b
        and_true true = refl
        and_true false = refl

    -- The table after a drop.
    pub Dropped : Table float → ℕ × Table float → Type 0
    Dropped t (deleted, u) =
        IsKeyed float u.rows
        × All (λ r. is_raw float r ≡ true) u.rows
        × (deleted + count float u ≡ count float t)
        × (latest_raw float canonical u ≡ latest_raw float canonical t)

    -- The hypothesis is that the keys of the table are distinct. After `drop_calibrated` they still
    -- are, only raw rows are left, the rows deleted and the rows left are those that there were,
    -- and `latest_raw` reads the same.
    pub drop_calibrated-Dropped :
        (t : Table float) → IsKeyed float t.rows → Dropped t (drop_calibrated float t)
    unfolding drop_calibrated Dropped count
    drop_calibrated-Dropped t h = (
      IsKeyed-keep_if (is_raw float) t.rows h,
      All-keep_if_passed (is_raw float) t.rows,
      omega (arith, length-keep_if (is_raw float) t.rows),
      latest_raw-raw_log (drop_calibrated float t).1
          ∙ ap (λ l. rows_to_obs float (sort_by (by_name float) l))
              (keep_if_twice (is_raw float) (is_raw float) t.rows (λ r e. e))
          ∙ sym (latest_raw-raw_log t),
    )

    module _ (content_hash : Observation float → String) where
      IsDerived-rows :
          (os : List (Observation float))
          → All (λ o. is_calibrated float o ≡ true) os
          → All IsDerived (map (row_of float content_hash) os)
      unfolding row_of is_calibrated IsDerived
      IsDerived-rows [] h = tt
      IsDerived-rows (o ∷ os) h = (ground arith, IsDerived-rows os h.1)

      -- The hypothesis is that every observation of the batch is calibrated. A rebuild, which drops
      -- the derived rows of any table and writes the batch, leaves what `latest_raw` reads.
      pub rebuild-latest_raw :
          (os : List (Observation float)) (t : Table float)
          → All (λ o. is_calibrated float o ≡ true) os
          → latest_raw float canonical (write float content_hash os (drop_calibrated float t).1).1
            ≡ latest_raw float canonical t
      unfolding write drop_calibrated
      rebuild-latest_raw [] t h =
          latest_raw-raw_log (drop_calibrated float t).1
          ∙ ap (λ l. rows_to_obs float (sort_by (by_name float) l))
              (keep_if_twice (is_raw float) (is_raw float) t.rows (λ r e. e))
          ∙ sym (latest_raw-raw_log t)
      rebuild-latest_raw (o ∷ os) t h =
          latest_raw-raw_log _
          ∙ ap (λ l. rows_to_obs float (sort_by (by_name float) l))
              (raw_log-insert_all (map (row_of float content_hash) (o ∷ os))
                  (drop_calibrated float t).1 (IsDerived-rows (o ∷ os) h)
                ∙ keep_if_twice (is_raw float) (is_raw float) t.rows (λ r e. e))
          ∙ sym (latest_raw-raw_log t)
