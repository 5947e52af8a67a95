-- ===== src/Store/Reads.antt =====
-- What `read` answers: the rows that match, all of them and in order.
use mathlib.Core.List.{Perm}
use mathlib.Core.Bool.{false≢true}
use swelter.Prelude.{
  ◌≡◌, refl, sym, ap, subst, ◌∙◌, String, List, [], ◌∷◌, map, keep_if, All, All-keep_if, All-append,
  Bool, true, false, not, ◌&&◌, ◌||◌, Option, some, str_eq, arith, ◌⊎◌, inl, inr, ◌↔◌,
}
use swelter.Prelude.Text.{text_lt}
use swelter.Prelude.Text.Order.{text_lt_cases, text_lt_asym, str_eq_refl}
use swelter.Prelude.Sort.{sort_by, sort_by-perm, All-sort_by, sort_by-IsSorted}
use swelter.Float.{Float}
use swelter.Models.{Observation, construct, is_none, is_calibrated}
use swelter.Store.{
  Row, Table, Query, nullable, insert_all, by_name, matches, row_to_obs, rows_to_obs, read, bound,
  row_of, write,
}
use swelter.Store.Wanted.{IsWanted, matches_iff, AreInOrder, IsSorted-AreInOrder}
use swelter.Store.Keys.{insert_or_ignore_cases}

-- A lexicographic order is total if its second part is.
lexicographic_total :
    (s t : String) (below above : Bool)
    → (below ≡ false → above ≡ true)
    → (text_lt s t || (str_eq s t && below)) ≡ false
    → (text_lt t s || (str_eq t s && above)) ≡ true
lexicographic_total s t below above f h = elim (text_lt_cases s t) [
  | inl e ↦ absurd (false≢true (sym h ∙ rw e refl))
  | inr (inr e) ↦ rw e refl
  | inr (inl e) ↦
      let same : str_eq s t ≡ true = subst (λ u. str_eq s u ≡ true) e (str_eq_refl s) in
      let back : str_eq t s ≡ true = subst (λ u. str_eq u s ≡ true) e (str_eq_refl s) in
      ground (arith, f)
]

module _ (float : Float) where
  open float use {F, is_nan}

  -- Of two rows one is not behind the other in the order of a read.
  by_name_total : (a b : Row float) → by_name float a b ≡ false → by_name float b a ≡ true
  by_name_total a b = lexicographic_total a.stored.node_id b.stored.node_id _ _ (
      lexicographic_total a.stored.parameter b.stored.parameter _ _
        (last_total a.stored.timestamp b.stored.timestamp))
    where
      last_total : (s t : String) → not (text_lt t s) ≡ false → not (text_lt s t) ≡ true
      last_total s t h = rw (text_lt_asym t s (ground arith)) refl

  -- The row makes an observation.
  abbrev pub IsReadable : Row float → Type 0
  IsReadable r = row_to_obs float r ≡ some r.stored

  rows_to_obs_readable :
      (rows : List (Row float))
      → All IsReadable rows
      → rows_to_obs float rows ≡ some (map (λ r. r.stored) rows)
  unfolding rows_to_obs
  rows_to_obs_readable [] h = refl
  rows_to_obs_readable (r ∷ rs) h = rw (rows_to_obs, h.0, rows_to_obs_readable rs h.1) refl

  -- An observation that can be read back: raw, or with a sigma that is a number.
  abbrev pub IsLasting : Observation float → Type 0
  IsLasting o =
      (is_calibrated float o ≡ false)
      ⊎ ((sigma : F) × (o.uncertainty ≡ some sigma) × (is_nan sigma ≡ false))

  constructed :
      (o : Observation float)
      → (is_calibrated float o && is_none float o.uncertainty) ≡ false
      → construct float o ≡ some o
  unfolding construct is_calibrated
  constructed o h = rw h refl

  no_null :
      (b : Bool) (u : Option F) (sigma : F)
      → u ≡ some sigma
      → is_nan sigma ≡ false
      → (b && is_none float (nullable float u)) ≡ false
  no_null b u sigma e h = rw (e, h) (and_false b)
    where
      and_false : (b : Bool) → (b && false) ≡ false
      and_false true = refl
      and_false false = refl

  module _ (content_hash : Observation float → String) where
    row_of-IsReadable :
        (o : Observation float) → IsLasting o → IsReadable (row_of float content_hash o)
    unfolding row_of row_to_obs construct is_calibrated
    row_of-IsReadable o (inl h) =
        constructed (record o { uncertainty = nullable float o.uncertainty })
          (ap (λ b. b && is_none float (nullable float o.uncertainty)) h)
    row_of-IsReadable o (inr (sigma, e, h)) =
        constructed (record o { uncertainty = nullable float o.uncertainty })
          (no_null (is_calibrated float o) o.uncertainty sigma e h)

    insert_all-IsReadable :
        (os : List (Observation float)) (t : Table float)
        → All IsLasting os
        → All IsReadable t.rows
        → All IsReadable (insert_all float (map (row_of float content_hash) os) t).rows
    unfolding insert_all
    insert_all-IsReadable [] t h k = k
    insert_all-IsReadable (o ∷ os) t h k =
        insert_all-IsReadable os _ h.1
          (elim (insert_or_ignore_cases float (row_of float content_hash o) t) [
            | inl (e, f) ↦ subst (λ (u : Table float). All IsReadable u.rows) (sym f) k
            | inr (e, f) ↦
                subst (λ (u : Table float). All IsReadable u.rows) (sym f)
                  (All-append IsReadable t.rows _ k (row_of-IsReadable o h.0, tt))
          ])

    -- The hypotheses are that every row of the table can be read, and that every observation of the
    -- batch is raw or has a sigma that is a number. Then every row can be read after the write.
    pub write-IsReadable :
        (os : List (Observation float)) (t : Table float)
        → All IsLasting os
        → All IsReadable t.rows
        → All IsReadable (write float content_hash os t).1.rows
    unfolding write
    write-IsReadable [] t h k = k
    write-IsReadable (o ∷ os) t h k = insert_all-IsReadable (o ∷ os) t h k

  module _ (canonical : String → Option String) where
    -- The answer to a query: the observations of the rows that the query wants, each of them once,
    -- in order. `wanted` is any test for these rows.
    pub Answered :
        Query
        → Option String
        → Option String
        → Table float
        → Option (List (Observation float))
        → Type 0
    Answered q since until t answer =
        (rows : List (Row float)) × (wanted : Row float → Bool) × ((r : Row float)
          → (wanted r ≡ true) ↔ IsWanted float q since until r)
        × Perm rows (keep_if wanted t.rows)
        × AreInOrder float rows
        × (answer ≡ some (map (λ r. r.stored) rows))

    -- The hypotheses are that the bounds of a query parse and that every row of the table can be
    -- read. Then the query answers with the observations of the rows that have its parameter, its
    -- node and its calibration, as far as they are given, and whose timestamp is not before `since`
    -- and not after `until`: each of them once, ordered by node, then parameter, then time.
    pub read-Answered :
        (q : Query) (since until : Option String) (t : Table float)
        → bound float canonical q.since ≡ some since
        → bound float canonical q.until ≡ some until
        → All IsReadable t.rows
        → Answered q since until t (read float canonical q t)
    unfolding Answered read
    read-Answered q since until t h k l =
        let wanted = matches float canonical q since until in
        let found = keep_if wanted t.rows in
        let rows = sort_by (by_name float) found in
        (
          rows,
          wanted,
          matches_iff float canonical q since until,
          sort_by-perm (by_name float) found,
          IsSorted-AreInOrder float rows (sort_by-IsSorted (by_name float) by_name_total found),
          rw (read, h, k)
              (rows_to_obs_readable rows (
                All-sort_by (by_name float) IsReadable found
                  (All-keep_if IsReadable wanted t.rows l))),
        )
