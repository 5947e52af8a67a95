-- ===== src/Integrity/Rows.antt =====
-- What `verify_rows` reports, and that writes leave nothing to report.
use mathlib.Core.Bool.{true≢false}
use swelter.Prelude.{
  ◌≡◌, ◌↔◌, refl, sym, ap, subst, ◌∙◌, String, List, [], ◌∷◌, map, All, All-append, Bool, true,
  false, Option, none, some, str_eq, Bool-cases, ◌⊎◌, inl, inr,
}
use swelter.Prelude.Text.Order.{str_eq→eq, str_eq_refl}
use swelter.Prelude.Sort.{sort_by, All-sort_by, All-sort_by_back}
use swelter.Float.{Float}
use swelter.Models.{Observation}
use swelter.Store.{Row, Table, by_day, hashed_rows, iter_rows, row_of, write, nullable, insert_all}
use swelter.Store.Keys.{insert_or_ignore_cases}
use swelter.Store.Reads.{IsReadable}
use swelter.Integrity.{Mismatch, mismatches, verify_rows, map_option}

module _ (float : Float) (content_hash : Observation float → String) where
  open float use {F, is_nan}

  abbrev hashed : Row float → Observation float × String
  hashed r = (r.stored, r.content_hash)

  -- The stored hash is that of the stored observation.
  abbrev pub IsIntact : Row float → Type 0
  IsIntact r = content_hash r.stored ≡ r.content_hash

  hashed_rows_readable :
      (rows : List (Row float))
      → All (IsReadable float) rows
      → hashed_rows float rows ≡ some (map hashed rows)
  unfolding hashed_rows
  hashed_rows_readable [] h = refl
  hashed_rows_readable (r ∷ rs) h = rw (hashed_rows, h.0, hashed_rows_readable rs h.1) refl

  mismatches_none :
      (rows : List (Row float))
      → All IsIntact rows
      → mismatches float content_hash (map hashed rows) ≡ []
  unfolding mismatches
  mismatches_none [] h = refl
  mismatches_none (r ∷ rs) h =
      let same : str_eq (content_hash r.stored) r.content_hash ≡ true =
        subst (λ t. str_eq (content_hash r.stored) t ≡ true) h.0
          (str_eq_refl (content_hash r.stored)) in
      rw (mismatches, same) (mismatches_none rs h.1)

  is_empty : List Mismatch → Bool
  is_empty [] = true
  is_empty (m ∷ ms) = false

  mismatches_complete :
      (rows : List (Row float))
      → mismatches float content_hash (map hashed rows) ≡ []
      → All IsIntact rows
  unfolding mismatches is_empty
  mismatches_complete [] h = tt
  mismatches_complete (r ∷ rs) h =
      elim (Bool-cases (str_eq (content_hash r.stored) r.content_hash)) [
        | inl e ↦ (str_eq→eq _ _ e, mismatches_complete rs (rw (mismatches, e) at h))
        | inr e ↦ absurd (true≢false (sym (ap is_empty (rw (mismatches, e) at h))))
      ]

  abbrev report_or : Option (List Mismatch) → List Mismatch
  report_or none = []
  report_or (some ms) = ms

  -- The hypothesis is that every row of a table can be read. Then `verify_rows` reports nothing
  -- exactly if every row has the hash of its own observation, whatever became of the rows.
  pub verify_rows-IsIntact :
      (t : Table float)
      → All (IsReadable float) t.rows
      → (verify_rows float content_hash t ≡ some []) ↔ All IsIntact t.rows
  unfolding verify_rows iter_rows
  verify_rows-IsIntact t h =
      let sorted = sort_by (by_day float) t.rows in
      let readable : iter_rows float t ≡ some (map hashed sorted) =
        hashed_rows_readable sorted (All-sort_by (by_day float) (IsReadable float) t.rows h) in
      let answer : verify_rows float content_hash t
          ≡ some (mismatches float content_hash (map hashed sorted)) =
        ap (map_option (mismatches float content_hash)) readable in
      (
        λ clean.
            All-sort_by_back (by_day float) IsIntact t.rows
              (mismatches_complete sorted (ap report_or (sym answer ∙ clean))),
        λ intact.
            answer
            ∙ ap some (mismatches_none sorted (All-sort_by (by_day float) IsIntact t.rows intact)),
      )

  -- An observation whose sigma, if it has one, is a number.
  abbrev pub HasNumber : Observation float → Type 0
  HasNumber o =
      (o.uncertainty ≡ none) ⊎ ((sigma : F) × (o.uncertainty ≡ some sigma) × (is_nan sigma ≡ false))

  row_of-IsIntact : (o : Observation float) → HasNumber o → IsIntact (row_of float content_hash o)
  unfolding row_of
  row_of-IsIntact o h = ap (λ u. content_hash (record o { uncertainty = u })) (kept o.uncertainty h)
    where
      kept :
          (u : Option F)
          → (u ≡ none) ⊎ ((sigma : F) × (u ≡ some sigma) × (is_nan sigma ≡ false))
          → nullable float u ≡ u
      kept u (inl e) = rw e refl
      kept u (inr (sigma, e, k)) = rw (e, k) refl

  insert_all-IsIntact :
      (os : List (Observation float)) (t : Table float)
      → All HasNumber os
      → All IsIntact t.rows
      → All IsIntact (insert_all float (map (row_of float content_hash) os) t).rows
  unfolding insert_all
  insert_all-IsIntact [] t h k = k
  insert_all-IsIntact (o ∷ os) t h k =
      insert_all-IsIntact os _ h.1
        (elim (insert_or_ignore_cases float (row_of float content_hash o) t) [
          | inl (e, f) ↦ subst (λ (u : Table float). All IsIntact u.rows) (sym f) k
          | inr (e, f) ↦
              subst (λ (u : Table float). All IsIntact u.rows) (sym f)
                (All-append IsIntact t.rows _ k (row_of-IsIntact o h.0, tt))
        ])

  -- The hypotheses are that every row of the table has the hash of its observation, and that each
  -- sigma of the batch is a number. Then every row has its hash after the write.
  pub write-IsIntact :
      (os : List (Observation float)) (t : Table float)
      → All HasNumber os
      → All IsIntact t.rows
      → All IsIntact (write float content_hash os t).1.rows
  unfolding write
  write-IsIntact [] t h k = k
  write-IsIntact (o ∷ os) t h k = insert_all-IsIntact (o ∷ os) t h k
