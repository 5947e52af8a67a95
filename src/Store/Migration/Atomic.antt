-- ===== src/Store/Migration/Atomic.antt =====
-- A migration keeps every row under distinct keys, or leaves the store as it was.
use Prim.Native.Char.{Char}
use mathlib.Core.List.{append_assoc}
use swelter.Prelude.{
  ◌≡◌, refl, sym, ap, subst, String, List, [], ◌∷◌, ◌++◌, append-nil, map, length, Bool, true,
  false, not, ◌&&◌, str_eq, ◌==◌, ==_refl, Option, none, some, arith, Bool-cases, Option-cases, ◌⊎◌,
  inl, inr,
}
use swelter.Float.{Float}
use swelter.Models.{Observation, construct, is_none, raw}
use swelter.Store.{Row, Table, is_refused, row_of}
use swelter.Store.Keys.{IsKeyed, IsKeyed-append_one}
use swelter.Store.Migration.{
  Database, has_source, migration_required, identity, migrate_row, migrate_rows, insert_strictly,
  migrate, migrate_with_chain, rebuilt, restored,
}

-- Two lists of one length, entry by entry.
abbrev pub Paired {ℓ κ} : {A : Type ℓ} {B : Type κ} → (A → B → Type 0) → List A → List B → Type 0
Paired P [] [] = Unit
Paired P [] (y ∷ ys) = ⊥
Paired P (x ∷ xs) [] = ⊥
Paired P (x ∷ xs) (y ∷ ys) = P x y × Paired P xs ys

module _ (is_digit : Char → Bool) (float : Float) where
  -- The measurement of a row: all but where it came from and its sigma.
  abbrev pub SameMeasurement : Observation float → Observation float → Type 0
  SameMeasurement o p =
      (p.node_id ≡ o.node_id)
      × (p.timestamp ≡ o.timestamp)
      × (p.parameter ≡ o.parameter)
      × (p.value ≡ o.value)
      × (p.unit ≡ o.unit)
      × (p.qc ≡ o.qc)

  construct_cases :
      (o : Observation float) → (construct float o ≡ none) ⊎ (construct float o ≡ some o)
  unfolding construct
  construct_cases o =
      elim (Bool-cases (not (str_eq o.calibration raw) && is_none float o.uncertainty)) [
        | inl e ↦ inl (rw e refl)
        | inr e ↦ inr (rw e refl)
      ]

  migrate_row_cases :
      (known : Bool) (o : Observation float)
      → (migrate_row is_digit float known o ≡ none)
        ⊎ ((p : Observation float) × (migrate_row is_digit float known o ≡ some p)
            × SameMeasurement o p)
  unfolding migrate_row
  migrate_row_cases known o = elim (Option-cases (identity is_digit float known o)) [
    | inl e ↦ inl (rw (migrate_row, e) refl)
    | inr ((source, calibration), e) ↦
        let p = record o { source = source; calibration = calibration } in
        elim (construct_cases p) [
          | inl f ↦ inl (rw (migrate_row, e, f) refl)
          | inr f ↦ inr (p, rw (migrate_row, e, f) refl, (refl, refl, refl, refl, refl, refl))
        ]
  ]

  migrate_rows_cases :
      (known : Bool) (rows : List (Row float))
      → (migrate_rows is_digit float known rows ≡ none)
        ⊎ ((os : List (Observation float)) × (migrate_rows is_digit float known rows ≡ some os)
            × Paired (λ (r : Row float) o. SameMeasurement r.stored o) rows os)
  unfolding migrate_rows
  migrate_rows_cases known [] = inr ([], refl, tt)
  migrate_rows_cases known (r ∷ rs) = elim (migrate_row_cases known r.stored) [
    | inl e ↦ inl (rw (migrate_rows, e) refl)
    | inr (p, e, same) ↦ elim (migrate_rows_cases known rs) [
      | inl f ↦ inl (rw (migrate_rows, e, f) refl)
      | inr (os, f, rest) ↦ inr (p ∷ os, rw (migrate_rows, e, f) refl, (same, rest))
    ]
  ]

  module _ (content_hash : Observation float → String) where
    abbrev new_row : Observation float → Row float
    new_row = row_of float content_hash

    insert_strictly_cases :
        (os : List (Observation float)) (rows : List (Row float))
        → IsKeyed float rows
        → (insert_strictly is_digit float content_hash os rows ≡ none)
          ⊎ ((insert_strictly is_digit float content_hash os rows ≡ some (rows ++ map new_row os))
              × IsKeyed float (rows ++ map new_row os))
    unfolding insert_strictly is_refused
    insert_strictly_cases [] rows h =
        inr (ap some (sym (append-nil rows)), subst (IsKeyed float) (sym (append-nil rows)) h)
    insert_strictly_cases (o ∷ os) rows h = elim (Bool-cases (is_refused float (new_row o) rows)) [
      | inl e ↦ inl (rw (insert_strictly, e) refl)
      | inr e ↦
          elim (insert_strictly_cases os (rows ++ new_row o ∷ [])
            (IsKeyed-append_one float rows (new_row o) (ground arith) h)) [
              | inl f ↦ inl (rw (insert_strictly, e, f) refl)
              | inr (f, k) ↦ inr (
                rw (insert_strictly, e, f)
                    (ap some (append_assoc rows (new_row o ∷ []) (map new_row os))),
                subst (IsKeyed float) (append_assoc rows (new_row o ∷ []) (map new_row os)) k,
              )
            ]
    ]

    Paired-rows :
        (rows : List (Row float)) (os : List (Observation float))
        → Paired (λ (r : Row float) o. SameMeasurement r.stored o) rows os
        → Paired (λ (r s : Row float). SameMeasurement r.stored s.stored) rows (map new_row os)
    unfolding row_of
    Paired-rows [] [] h = tt
    Paired-rows [] (o ∷ os) h = h
    Paired-rows (r ∷ rs) [] h = h
    Paired-rows (r ∷ rs) (o ∷ os) h = (h.0, Paired-rows rs os h.1)

    Paired-length :
        (rows : List (Row float)) (os : List (Observation float))
        → Paired (λ (r : Row float) o. SameMeasurement r.stored o) rows os
        → length (map new_row os) ≡ length rows
    Paired-length [] [] h = refl
    Paired-length [] (o ∷ os) h = absurd h
    Paired-length (r ∷ rs) [] h = absurd h
    Paired-length (r ∷ rs) (o ∷ os) h = omega (arith, Paired-length rs os h.1)

    -- A migrated database: no further migration is required, the keys are distinct, and the rows
    -- are the old ones with the same measurements, in the same order.
    abbrev pub IsMigrated : Database is_digit float → Database is_digit float → Type 0
    IsMigrated db new =
        (migration_required is_digit float new ≡ false)
        × IsKeyed float new.table.rows
        × Paired (λ (r s : Row float). SameMeasurement r.stored s.stored) db.table.rows
            new.table.rows

    migrate_cases :
        (db : Database is_digit float)
        → (migrate is_digit float content_hash db ≡ none)
          ⊎ ((new : Database is_digit float) × (migrate is_digit float content_hash db ≡ some new)
              × IsMigrated db new)
    unfolding migrate migration_required
    migrate_cases db = elim (migrate_rows_cases (has_source is_digit float db) db.table.rows) [
      | inl e ↦ inl (rw (migrate, e) refl)
      | inr (os, e, same) ↦ elim (Bool-cases db.has_stale_table) [
        | inl stale ↦ inl (rw (migrate, e, stale) refl)
        | inr fresh ↦ elim (insert_strictly_cases os [] tt) [
          | inl f ↦ inl (rw (migrate, e, fresh, f) refl)
          | inr (f, keyed) ↦
              let all : (length (map new_row os) == length db.table.rows) ≡ true =
                rw (Paired-length db.table.rows os same) (==_refl (length db.table.rows)) in
              inr (
                rebuilt is_digit float db (map new_row os),
                rw (migrate, e, fresh, f, all) refl,
                (refl, keyed, Paired-rows db.table.rows os same),
              )
        ]
      ]
    ]

    module _ {ℓ} {File : Type ℓ} (new_digests : Table float → Option File) (commits : Bool)
        (left_behind : Option File) where
      -- The digest file is as it was, or it was to be restored and what a failure of that leaves.
      abbrev IsRestored : Option File → Option File → Type ℓ
      IsRestored file new_file =
          (new_file ≡ file)
          ⊎ ((old : File) × (damaged : File) × (file ≡ some old)
              × (left_behind ≡ some damaged)
              × (new_file ≡ some damaged))

      -- The outcome of an attempt: failed and as it was; as it was, since nothing was required; or
      -- migrated, with the digest file missing as before or written for the new table.
      pub IsAtomic :
          Database is_digit float
          → Option File
          → Bool × Database is_digit float × Option File
          → Type ℓ
      IsAtomic db file (failed, new, new_file) =
          (((failed ≡ true) ⊎ (migration_required is_digit float db ≡ false))
            × (new ≡ db)
            × IsRestored file new_file)
          ⊎ ((failed ≡ false)
              × (commits ≡ true)
              × IsMigrated db new
              × (((file ≡ none) × (new_file ≡ none))
                  ⊎ ((digests : File) × (new_digests new.table ≡ some digests)
                      × (new_file ≡ some digests))))

      abbrev after_failure : File → File
      after_failure = restored is_digit float content_hash new_digests commits left_behind

      as_it_was :
          (db : Database is_digit float) (file : Option File) (failed : Bool)
          → (failed ≡ true) ⊎ (migration_required is_digit float db ≡ false)
          → IsAtomic db file (failed, db, file)
      unfolding IsAtomic
      as_it_was db file failed h = inl (h, refl, inl refl)

      as_restored :
          (db : Database is_digit float) (old : File)
          → IsAtomic db (some old) (true, db, some (after_failure old))
      unfolding IsAtomic
      as_restored db old = elim (Option-cases left_behind) [
        | inl e ↦ rw e (inl (inl refl, refl, inl refl))
        | inr (damaged, e) ↦ rw e (inl (inl refl, refl, inr (old, damaged, refl, refl, refl)))
      ]

      abbrev attempted :
          Database is_digit float → Option File → Bool × Database is_digit float × Option File
      attempted = migrate_with_chain is_digit float content_hash new_digests commits left_behind

      ends :
          (db : Database is_digit float) (file : Option File)
          (after : Bool × Database is_digit float × Option File)
          → attempted db file ≡ after
          → IsAtomic db file after
          → IsAtomic db file (attempted db file)
      ends db file after e h = subst (IsAtomic db file) (sym e) h

      -- A migration beside a digest file.
      with_chain :
          (db new : Database is_digit float) (old : File)
          → migration_required is_digit float db ≡ true
          → migrate is_digit float content_hash db ≡ some new
          → IsMigrated db new
          → IsAtomic db (some old) (attempted db (some old))
      unfolding migrate_with_chain IsAtomic
      with_chain db new old e f done = elim (Option-cases (new_digests new.table)) [
        | inl k ↦
            ends db (some old) (true, db, some (after_failure old))
              (rw (migrate_with_chain, e, f, k) refl) (as_restored db old)
        | inr (digests, k) ↦ elim (Bool-cases commits) [
          | inl c ↦
              ends db (some old) (false, new, some digests)
                (rw (migrate_with_chain, e, f, k, c) refl)
                (inr (refl, c, done, inr (digests, k, refl)))
          | inr c ↦
              ends db (some old) (true, db, some (after_failure old))
                (rw (migrate_with_chain, e, f, k, c) refl) (as_restored db old)
        ]
      ]

      -- For any database and any digest file, and whether the commit succeeds or not: if the
      -- migration fails, the database is as it was, and so is the digest file unless it had to be
      -- restored and that failed too, which leaves what a failing `write_bytes` leaves. If it does
      -- not fail, then either both are as they were and no migration was required, or the commit
      -- succeeded and the database is migrated, that is its keys are distinct and have a source and
      -- its rows are the old ones with their measurements, and the digest file is still missing or
      -- is the one that is written for the new table.
      pub migrate_with_chain-IsAtomic :
          (db : Database is_digit float) (file : Option File)
          → IsAtomic db file (
              migrate_with_chain is_digit float content_hash new_digests commits left_behind db
                file)
      unfolding migrate_with_chain IsAtomic
      migrate_with_chain-IsAtomic db file =
          elim (Bool-cases (migration_required is_digit float db)) [
            | inr e ↦
                ends db file (false, db, file) (rw (migrate_with_chain, e) refl)
                  (as_it_was db file false (inr e))
            | inl e ↦ elim (migrate_cases db) [
              | inl f ↦
                  ends db file (true, db, file) (rw (migrate_with_chain, e, f) refl)
                    (as_it_was db file true (inl refl))
              | inr (new, f, done) ↦ elim (Option-cases file) [
                | inl g ↦ elim (Bool-cases commits) [
                  | inl c ↦
                      ends db file (false, new, none) (rw (migrate_with_chain, e, f, g, c) refl)
                        (inr (refl, c, done, inl (g, refl)))
                  | inr c ↦
                      ends db file (true, db, none) (rw (migrate_with_chain, e, f, g, c) refl)
                        (inl (inl refl, refl, inl (sym g)))
                ]
                | inr (old, g) ↦
                    subst (λ o. IsAtomic db o (attempted db o)) (sym g)
                      (with_chain db new old e f done)
              ]
            ]
          ]
