-- ===== src/Store/Replay.antt =====
-- `write` is append-only and idempotent: what a batch adds, and that a replay adds nothing.
use mathlib.Core.List.{Sublist}
use mathlib.Core.List.Sublist
use mathlib.Core.Bool.{true≢false}
use swelter.Prelude.{
  ℕ, ◌-◌, ◌≡◌, refl, sym, ap, subst, ◌∙◌, String, List, [], ◌∷◌, ◌++◌, append-nil, map, length,
  length-map, All, true, arith, inl, inr,
}
use swelter.Float.{Float}
use swelter.Models.{Observation}
use swelter.Store.{
  WriteResult, total, Row, Table, row_key, key_eq, is_refused, insert_or_ignore, insert_all, row_of,
  write,
}
use swelter.Store.Keys.{
  key_eq_refl, any_of-append, IsKeyed, insert_or_ignore_cases, insert_all-IsKeyed, insert_all-Added,
}

module _ (float : Float) where
  open float use {is_nan}

  is_refused-append :
      (r : Row float) (rows added : List (Row float))
      → is_refused float r rows ≡ true
      → is_refused float r (rows ++ added) ≡ true
  unfolding is_refused
  is_refused-append r rows added h =
      ground (arith, any_of-append (λ s. key_eq (row_key float s) (row_key float r)) rows added)

  is_refused_later :
      (r : Row float) (rs : List (Row float)) (t : Table float)
      → is_refused float r t.rows ≡ true
      → is_refused float r (insert_all float rs t).rows ≡ true
  is_refused_later r rs t h =
      let (added, part, rows, changes, few) = insert_all-Added float rs t in
      subst (λ u. is_refused float r u ≡ true) (sym rows) (is_refused-append r t.rows added h)

  is_refused-last :
      (r : Row float) (rows : List (Row float)) → is_refused float r (rows ++ r ∷ []) ≡ true
  unfolding is_refused
  is_refused-last r rows = ground (
    arith,
    any_of-append (λ s. key_eq (row_key float s) (row_key float r)) rows (r ∷ []),
    key_eq_refl (row_key float r),
  )

  -- A row is refused from its insertion on.
  insert_or_ignore-settles :
      (r : Row float) (t : Table float)
      → is_refused float r (insert_or_ignore float r t).rows ≡ true
  insert_or_ignore-settles r t = elim (insert_or_ignore_cases float r t) [
    | inl (e, f) ↦ subst (λ (u : Table float). is_refused float r u.rows ≡ true) (sym f) e
    | inr (e, f) ↦
        subst (λ (u : Table float). is_refused float r u.rows ≡ true) (sym f)
          (is_refused-last r t.rows)
  ]

  -- Every row of a batch is refused from then on.
  abbrev pub AreSettled : List (Row float) → Table float → Type 0
  AreSettled rs t = All (λ r. is_refused float r t.rows ≡ true) rs

  insert_all-AreSettled :
      (rs : List (Row float)) (t : Table float) → AreSettled rs (insert_all float rs t)
  unfolding insert_all
  insert_all-AreSettled [] t = tt
  insert_all-AreSettled (r ∷ rs) t = (
    is_refused_later r rs (insert_or_ignore float r t) (insert_or_ignore-settles r t),
    insert_all-AreSettled rs (insert_or_ignore float r t),
  )

  AreSettled-later :
      (rs ss : List (Row float)) (t : Table float)
      → AreSettled rs t
      → AreSettled rs (insert_all float ss t)
  AreSettled-later [] ss t h = tt
  AreSettled-later (r ∷ rs) ss t h = (is_refused_later r ss t h.0, AreSettled-later rs ss t h.1)

  insert_all_settled :
      (rs : List (Row float)) (t : Table float) → AreSettled rs t → insert_all float rs t ≡ t
  unfolding insert_all
  insert_all_settled [] t h = refl
  insert_all_settled (r ∷ rs) t h = elim (insert_or_ignore_cases float r t) [
    | inl (e, f) ↦ ap (insert_all float rs) f ∙ insert_all_settled rs t h.1
    | inr (e, f) ↦ absurd (true≢false (sym h.0 ∙ e))
  ]

  module _ (content_hash : Observation float → String) where
    -- The rows of a batch.
    abbrev pub rows_of : List (Observation float) → List (Row float)
    rows_of os = map (row_of float content_hash) os

    write-table :
        (os : List (Observation float)) (t : Table float)
        → (write float content_hash os t).1 ≡ insert_all float (rows_of os) t
    unfolding write insert_all
    write-table [] t = refl
    write-table (o ∷ os) t = refl

    -- The report of a write is right about the table that it leaves.
    unfoldable pub Written :
        List (Observation float) → Table float → WriteResult × Table float → Type 0
    Written os t (result, u) =
        IsKeyed float u.rows
        × AreSettled (rows_of os) u
        × ((added : List (Row float)) × Sublist added (rows_of os)
            × (u.rows ≡ t.rows ++ added)
            × (result.written ≡ length added))
        × (total result ≡ length os)

    -- The hypothesis is that the keys of the table are distinct. For any batch, they still are
    -- after the write; the rows that were there stand unchanged at the front, and the rows behind
    -- them are rows of the batch in its order, as many as are reported as written; written and
    -- duplicates add up to the batch; and SQLite would refuse every row of the batch from then on.
    pub write-Written :
        (os : List (Observation float)) (t : Table float)
        → IsKeyed float t.rows
        → Written os t (write float content_hash os t)
    unfolding Written write insert_all
    write-Written [] t h = (h, tt, ([], Sublist.refl [], sym (append-nil t.rows), refl), refl)
    write-Written (o ∷ os) t h =
        let rows = rows_of (o ∷ os) in
        let (added, part, same, changes, few) = insert_all-Added float rows t in
        let counted : (insert_all float rows t).changes - t.changes ≡ length added = omega arith in
        (
          insert_all-IsKeyed float rows t h,
          insert_all-AreSettled rows t,
          (added, part, same, counted),
          omega (arith, length-map (row_of float content_hash) os),
        )

    -- What a replay of a batch reports: nothing written, every observation a duplicate.
    abbrev pub all_duplicates : List (Observation float) → WriteResult
    all_duplicates os = record { written = 0; duplicates = length os }

    write_settled :
        (os : List (Observation float)) (t : Table float)
        → AreSettled (rows_of os) t
        → write float content_hash os t ≡ (all_duplicates os, t)
    unfolding write
    write_settled [] t h = refl
    write_settled (o ∷ os) t h =
        let rows = rows_of (o ∷ os) in
        ap
          (λ (u : Table float). (
            record {
              written = u.changes - t.changes;
              duplicates = length rows - (u.changes - t.changes);
            },
            u,
          ))
          (insert_all_settled rows t h)
        ∙ ap (λ (n : ℕ). (record { written = n; duplicates = length rows - n }, t)) (omega arith)
        ∙ ap (λ (n : ℕ). (record { written = 0; duplicates = n }, t))
            (omega (arith, length-map (row_of float content_hash) os))

    -- For any table: if a batch is written, then any other batch, and then the first one again, the
    -- last write leaves the table as it was and reports every observation as a duplicate.
    pub write_replay :
        (os ps : List (Observation float)) (t : Table float)
        → let before = write float content_hash os t in
          let between = (write float content_hash ps before.1).1 in
          write float content_hash os between ≡ (all_duplicates os, between)
    write_replay os ps t = write_settled os _ (
        subst (AreSettled (rows_of os)) (sym (write-table ps _)) (
          AreSettled-later (rows_of os) (rows_of ps) _ (
            subst (AreSettled (rows_of os)) (sym (write-table os t))
              (insert_all-AreSettled (rows_of os) t))))
