-- ===== src/Aggregate/Complete.antt =====
-- That the roll-up has a cell for each observation that is placed.
use mathlib.Core.Bool.{false≢true}
use mathlib.Core.List.{cons≢nil}
use swelter.Prelude.{
  ◌≡◌, ◌≢◌, ◌⊎◌, refl, sym, ap, subst, ◌∙◌, String, List, [], ◌∷◌, ◌++◌, map, any_of, All, Among,
  Among-append_left, Among-append_right, Among-keep_if, All-weaken, All-Among, Bool, true, Option,
  none, some, str_eq, Bool-cases, Option-cases, inl, inr,
}
use swelter.Prelude.Group.{all_at}
use swelter.Prelude.Dict.{value_at}
use swelter.Prelude.Sort.{Among-sort_by}
use swelter.Prelude.Int.{ℤ}
use swelter.Float.{Float}
use swelter.Float.Library.{Library}
use swelter.Models.{Observation, is_trustworthy, is_suspicious}
use swelter.Aggregate.{
  CellKey, same_key, CellReading, Buckets, Setting, destination, key_of, goes_trusted,
  goes_provisional, goes_suspicious, bucket_observations,
}
use swelter.Aggregate.Cells.{
  cell_of, with_aqi, finish_cell, build_cell, sorted_keys, keys_of, once_key, key_le, collect_cell,
  build_each, build_cells,
}
use swelter.Aggregate.Placed.{gathered, goes, goes_to, same_key_refl, same_key→eq}
use swelter.Aggregate.Fields.{trusted_vals_lem, provisional_vals_lem, suspicious_vals_lem}

IsKey : CellKey → CellKey → Type 0
IsKey k j = j ≡ k

Among-map_filled :
    {A V : Type 0} (P : A → Type 0) (f : A → V) (xs : List A) → Among P xs → map f xs ≢ []
Among-map_filled P f [] h = absurd h
Among-map_filled P f (x ∷ xs) h = cons≢nil

Among-once_key :
    (k : CellKey) (ks : List CellKey) → Among (IsKey k) ks → Among (IsKey k) (once_key ks)
unfolding IsKey
Among-once_key k [] h = h
Among-once_key k (j ∷ ks) h = elim (Bool-cases (any_of (same_key j) ks)) [
  | inl e ↦
      rw (once_key, e)
        (elim h [
          | inl p ↦ Among-once_key k ks (subst (λ z. Among (IsKey z) ks) p (known j ks e))
          | inr p ↦ Among-once_key k ks p
        ])
  | inr e ↦ rw (once_key, e) (elim h [ inl p ↦ inl p | inr p ↦ inr (Among-once_key k ks p) ])
]
  where
    known : (j : CellKey) (ks : List CellKey) → any_of (same_key j) ks ≡ true → Among (IsKey j) ks
    known j [] e = absurd (false≢true e)
    known j (i ∷ ks) e = elim (Bool-cases (same_key j i)) [
      | inl t ↦ inl (sym (same_key→eq j i t))
      | inr f ↦ inr (known j ks (rw (any_of, f) at e))
    ]

IsKey-known :
    {V : Type 0} (k : CellKey) (lists : List (CellKey × List V))
    → all_at same_key k lists ≢ []
    → Among (IsKey k) (map (λ item. item.0) lists)
unfolding value_at IsKey
IsKey-known k [] h = absurd (h refl)
IsKey-known k ((j, vs) ∷ lists) h = elim (Bool-cases (same_key j k)) [
  | inl e ↦ inl (same_key→eq j k e)
  | inr e ↦ inr (IsKey-known k lists (rw (all_at, value_at, e) at h))
]

module _ (float : Float) (library : Library float) (setting : Setting float)
    (observations : List (Observation float)) where
  open float use {F}

  abbrev buckets : Buckets float
  buckets = bucket_observations float setting observations

  abbrev IsAt : CellKey → CellReading float → Type 0
  IsAt k c = (c.cell_id ≡ k.0) × (c.bucket ≡ k.1) × (c.parameter ≡ k.2)

  -- The cells have one at this key, if the roll-up returns.
  HaveCell : CellKey → Option (List (CellReading float)) → Type 0
  HaveCell k none = Unit
  HaveCell k (some cells) = Among (IsAt k) cells

  AtOrNone : CellKey → Option (CellReading float) → Type 0
  AtOrNone k none = Unit
  AtOrNone k (some c) = IsAt k c

  with_aqi-AtOrNone :
      (k : CellKey) (c : CellReading float) (found : Option (ℤ × String))
      → IsAt k c
      → AtOrNone k (with_aqi float library c found)
  unfolding with_aqi AtOrNone
  with_aqi-AtOrNone k c none h = tt
  with_aqi-AtOrNone k c (some (aqi, category)) h = h

  finish_cell-AtOrNone :
      (k : CellKey) (c : CellReading float) → IsAt k c → AtOrNone k (finish_cell float library c)
  unfolding finish_cell AtOrNone
  finish_cell-AtOrNone k c h = elim (Bool-cases (str_eq c.parameter "pm25_ugm3")) [
    | inl e ↦ rw (finish_cell, e) (with_aqi-AtOrNone k c _ h)
    | inr e ↦ rw (finish_cell, e) h
  ]

  build_cell-AtOrNone :
      (labels : List (String × String)) (k : CellKey)
      → AtOrNone k (build_cell float library buckets labels k)
  unfolding build_cell cell_of
  build_cell-AtOrNone labels k = finish_cell-AtOrNone k _ (refl, refl, refl)

  collect_head :
      (k : CellKey) (c : Option (CellReading float)) (rest : Option (List (CellReading float)))
      → AtOrNone k c
      → HaveCell k (collect_cell float library c rest)
  unfolding collect_cell AtOrNone HaveCell
  collect_head k none rest h = tt
  collect_head k (some c) none h = tt
  collect_head k (some c) (some cells) h = inl h

  collect_tail :
      (k : CellKey) (c : Option (CellReading float)) (rest : Option (List (CellReading float)))
      → HaveCell k rest
      → HaveCell k (collect_cell float library c rest)
  unfolding collect_cell HaveCell
  collect_tail k none rest h = tt
  collect_tail k (some c) none h = tt
  collect_tail k (some c) (some cells) h = inr h

  build_each-HaveCell :
      (labels : List (String × String)) (k : CellKey) (keys : List CellKey)
      → Among (IsKey k) keys
      → HaveCell k (build_each float library buckets labels keys)
  unfolding build_each IsKey
  build_each-HaveCell labels k [] h = absurd h
  build_each-HaveCell labels k (j ∷ keys) (inl h) = collect_head k _ _ (
      subst (λ z. AtOrNone z (build_cell float library buckets labels j)) h
        (build_cell-AtOrNone labels j))
  build_each-HaveCell labels k (j ∷ keys) (inr h) =
      collect_tail k _ _ (build_each-HaveCell labels k keys h)

  -- The observation is one of those that go there.
  gathered_filled :
      {V : Type 0} (hit : Observation float → Bool) (f : Observation float → V)
      (o : Observation float) (loc : F × F)
      → destination float setting o ≡ some loc
      → hit o ≡ true
      → Among (λ x. x ≡ o) observations
      → gathered float setting hit f (key_of float setting loc o) observations ≢ []
  unfolding goes_to
  gathered_filled hit f o loc e t h =
      Among-map_filled (λ x. x ≡ o) f _
        (Among-keep_if (λ x. x ≡ o) (goes float setting hit f (key_of float setting loc o))
          observations
          (λ x q. ap (goes float setting hit f (key_of float setting loc o)) q ∙ reaches) h)
    where
      reaches : goes float setting hit f (key_of float setting loc o) o ≡ true
      reaches = rw (e, goes_to, t, same_key_refl (key_of float setting loc o)) refl

  -- A key that one of the three accumulators has is sorted among the others.
  IsKey-sorted :
      (k : CellKey)
      → (all_at same_key k buckets.trusted_vals ≢ [])
        ⊎ (all_at same_key k buckets.provisional_vals ≢ [])
        ⊎ (all_at same_key k buckets.suspicious_vals ≢ [])
      → Among (IsKey k) (sorted_keys float library buckets)
  unfolding sorted_keys
  IsKey-sorted k h =
      let t = keys_of float library buckets.trusted_vals in
      let p = keys_of float library buckets.provisional_vals in
      let s = keys_of float library buckets.suspicious_vals in
      Among-sort_by key_le (IsKey k) (once_key (t ++ p ++ s)) (
        Among-once_key k (t ++ p ++ s) (elim h [
          | inl f ↦
              Among-append_left (IsKey k) (t ++ p) s
                (Among-append_left (IsKey k) t p (IsKey-known k buckets.trusted_vals f))
          | inr (inl f) ↦
              Among-append_left (IsKey k) (t ++ p) s
                (Among-append_right (IsKey k) t p (IsKey-known k buckets.provisional_vals f))
          | inr (inr f) ↦
              Among-append_right (IsKey k) (t ++ p) s (IsKey-known k buckets.suspicious_vals f)
        ]))

  IsKey-placed :
      (o : Observation float) (loc : F × F)
      → destination float setting o ≡ some loc
      → Among (λ x. x ≡ o) observations
      → Among (IsKey (key_of float setting loc o)) (sorted_keys float library buckets)
  IsKey-placed o loc e h =
      let k = key_of float setting loc o in
      IsKey-sorted k (elim (Bool-cases (is_trustworthy float o)) [
        | inl t ↦ inl (λ q.
            gathered_filled (goes_trusted float setting) (λ x. x.value) o loc e t h
              (sym (trusted_vals_lem float setting observations k) ∙ q))
        | inr f ↦ inr (elim (Bool-cases (is_suspicious o.qc)) [
          | inl t ↦ inr (λ q.
              gathered_filled (goes_suspicious float setting) (λ x. x.value) o loc e
                (rw (f, t) refl) h (sym (suspicious_vals_lem float setting observations k) ∙ q))
          | inr g ↦ inl (λ q.
              gathered_filled (goes_provisional float setting) (λ x. x.value) o loc e
                (rw (f, g) refl) h (sym (provisional_vals_lem float setting observations k) ∙ q))
        ])
      ])

  -- What is asked of the cells for an observation.
  pub IsPlaced : Option (List (CellReading float)) → Observation float → Type 0
  IsPlaced cells o =
      (destination float setting o ≡ none)
      ⊎ ((loc : F × F) × (destination float setting o ≡ some loc)
          × HaveCell (key_of float setting loc o) cells)

  -- For any observations and labels: if the roll-up returns, then each observation that has a
  -- destination, that is whose parameter is wanted, whose node is placed and whose value is neither
  -- impossible nor absent, has a cell at its place, hour and parameter.
  pub build_cells-IsPlaced :
      (labels : List (String × String))
      → All (IsPlaced (build_cells float library buckets labels)) observations
  unfolding IsPlaced build_cells
  build_cells-IsPlaced labels =
      All-weaken _ _
        (λ o h. elim (Option-cases (destination float setting o)) [
          | inl e ↦ inl e
          | inr (loc, e) ↦ inr (loc, e, build_each-HaveCell labels _ _ (IsKey-placed o loc e h))
        ])
        observations (All-Among observations)
