-- ===== src/Aggregate/RolledUp.antt =====
-- What `_build_cells` makes of the observations that were sorted into buckets.
use swelter.Prelude.{
  ◌≡◌, ◌≢◌, ◌⊎◌, refl, sym, ap, ◌∙◌, String, List, [], ◌∷◌, length, All, All-weaken, All-append,
  any_of, true, false, Option, none, some, inl, inr, Bool-cases, str_eq,
}
use swelter.Float.{Float}
use swelter.Float.Library.{Library}
use swelter.Prelude.Text.Order.{str_eq→eq}
use swelter.Models.{Observation, Verdict}
use swelter.Models.Air.{pm25_aqi}
use swelter.Models.Air.Categories.{HasNoIndex, pm25_aqi-none}
use swelter.Prelude.Group.{all_at, AreFilled, all_at_filled}
use swelter.Prelude.Sort.{All-sort_by}
use swelter.Aggregate.{
  CellKey, same_key, Lists, CellReading, Buckets, Setting, bucket_observations, goes_trusted,
  goes_provisional, goes_suspicious, sorted_flags,
}
use swelter.Aggregate.Cells.{
  choose_lane, combine_member_sigmas, cell_of, with_aqi, finish_cell, build_cell, sorted_keys,
  loc_at, label_at, nodes_at, lane_at, collect_cell, once_key, key_le, keys_of, build_each,
  build_cells,
}
use mathlib.Core.List.{cons≢nil}
use swelter.Prelude.Int.{ℤ}
use swelter.Aggregate.Placed.{gathered, same_key_refl}
use swelter.Aggregate.Fields.{
  trusted_vals_lem, trusted_unc_lem, provisional_vals_lem, suspicious_vals_lem,
  suspicious_flags_lem, trusted_vals_filled, provisional_vals_filled, suspicious_vals_filled,
}

module _ (float : Float) (library : Library float) (setting : Setting float)
    (observations : List (Observation float)) where
  open float use {F, of_nat, div}
  open library use {sum}

  -- The comprehensions over the observations that go to a cell, hour and parameter.
  abbrev pub trusted_values : CellKey → List F
  trusted_values k =
      gathered float setting (goes_trusted float setting) (λ o. o.value) k observations

  abbrev pub trusted_sigmas : CellKey → List (Option F)
  trusted_sigmas k =
      gathered float setting (goes_trusted float setting) (λ o. o.uncertainty) k observations

  abbrev pub clean_values : CellKey → List F
  clean_values k =
      gathered float setting (goes_provisional float setting) (λ o. o.value) k observations

  abbrev pub suspicious_values : CellKey → List F
  suspicious_values k =
      gathered float setting (goes_suspicious float setting) (λ o. o.value) k observations

  abbrev pub suspicious_verdicts : CellKey → List Verdict
  suspicious_verdicts k =
      gathered float setting (goes_suspicious float setting) (λ o. o.qc) k observations

  abbrev pub buckets : Buckets float
  buckets = bucket_observations float setting observations

  -- The three lanes that a cell may be built from.
  abbrev pub IsTrusted : CellKey → CellReading float → List F → Type 0
  IsTrusted k c values =
      (values ≡ trusted_values k)
      × (c.provisional ≡ false)
      × (c.uncertainty ≡ (combine_member_sigmas float library (trusted_sigmas k)).uncertainty)
      × (c.mean_member_sigma
          ≡ (combine_member_sigmas float library (trusted_sigmas k)).mean_member_sigma)
      × (c.uncertainty_note ≡ (combine_member_sigmas float library (trusted_sigmas k)).note)
      × (c.qc_flags ≡ [])

  abbrev pub HasNoSigma : CellReading float → Type 0
  HasNoSigma c =
      (c.provisional ≡ true)
      × (c.uncertainty ≡ none)
      × (c.mean_member_sigma ≡ none)
      × (c.method ≡ none)
      × (c.reference ≡ none)

  abbrev pub IsClean : CellKey → CellReading float → List F → Type 0
  IsClean k c values =
      (trusted_values k ≡ []) × (values ≡ clean_values k) × HasNoSigma c × (c.qc_flags ≡ [])

  abbrev pub IsSuspect : CellKey → CellReading float → List F → Type 0
  IsSuspect k c values =
      (trusted_values k ≡ [])
      × (clean_values k ≡ [])
      × (values ≡ suspicious_values k)
      × HasNoSigma c
      × (c.qc_flags ≡ sorted_flags (suspicious_verdicts k))

  -- A cell is the mean of the readings of one lane, of which there is at least one.
  abbrev pub IsRolledUp : CellReading float → Type 0
  IsRolledUp c =
      let k : CellKey = (c.cell_id, c.bucket, c.parameter) in
      (values : List F) × (values ≢ [])
      × (c.n ≡ length values)
      × (c.mean ≡ div (sum values) (of_nat (length values)))
      × (IsTrusted k c values ⊎ IsClean k c values ⊎ IsSuspect k c values)

  -- The roll-up raises only at a cell of PM2.5 whose mean has no index.
  abbrev pub IsRaise : Type 0
  IsRaise =
      (c : CellReading float) × IsRolledUp c
      × (c.parameter ≡ "pm25_ugm3")
      × HasNoIndex float library c.mean

  unfoldable pub AreRolledUp : Option (List (CellReading float)) → Type 0
  AreRolledUp none = IsRaise
  AreRolledUp (some cells) = All IsRolledUp cells

  -- A key under which there is a reading.
  HasReading : CellKey → Type 0
  HasReading k = (trusted_values k ≢ []) ⊎ (clean_values k ≢ []) ⊎ (suspicious_values k ≢ [])

  IsRolledUpOrNone : Option (CellReading float) → Type 0
  IsRolledUpOrNone none = IsRaise
  IsRolledUpOrNone (some c) = IsRolledUp c

  with_aqi-IsRolledUp :
      (c : CellReading float) (found : Option (ℤ × String))
      → IsRolledUp c
      → c.parameter ≡ "pm25_ugm3"
      → pm25_aqi float library c.mean ≡ found
      → IsRolledUpOrNone (with_aqi float library c found)
  unfolding with_aqi IsRolledUpOrNone
  with_aqi-IsRolledUp c none h p e = (c, h, p, pm25_aqi-none float library c.mean e)
  with_aqi-IsRolledUp c (some (aqi, category)) h p e = h

  no_reading :
      (k : CellKey)
      → HasReading k
      → trusted_values k ≡ []
      → clean_values k ≡ []
      → suspicious_values k ≡ []
      → ⊥
  unfolding HasReading
  no_reading k (inl t) e f g = t e
  no_reading k (inr (inl c)) e f g = c f
  no_reading k (inr (inr s)) e f g = s g

  cell_of-IsRolledUp :
      (k : CellKey) (loc : F × F) (label : String) (nodes : List String) (trusted clean : List F)
      → HasReading k
      → trusted ≡ trusted_values k
      → clean ≡ clean_values k
      → IsRolledUp (
          cell_of float library k loc label nodes
            (choose_lane float library k buckets trusted clean))
  unfolding cell_of choose_lane
  cell_of-IsRolledUp k loc label nodes (t ∷ trusted) clean h e f = (
    t ∷ trusted,
    cons≢nil,
    refl,
    refl,
    inl (
      e,
      refl,
      ap (λ l. (combine_member_sigmas float library l).uncertainty)
          (trusted_unc_lem float setting observations k),
      ap (λ l. (combine_member_sigmas float library l).mean_member_sigma)
          (trusted_unc_lem float setting observations k),
      ap (λ l. (combine_member_sigmas float library l).note)
          (trusted_unc_lem float setting observations k),
      refl,
    ),
  )
  cell_of-IsRolledUp k loc label nodes [] (c ∷ clean) h e f =
      (c ∷ clean, cons≢nil, refl, refl, inr (inl (sym e, f, (refl, refl, refl, refl, refl), refl)))
  cell_of-IsRolledUp k loc label nodes [] [] h e f = (
    all_at same_key k buckets.suspicious_vals,
    (λ q.
        no_reading k h (sym e) (sym f)
          (sym (suspicious_vals_lem float setting observations k) ∙ q)),
    refl,
    refl,
    inr (
        inr (
          sym e,
          sym f,
          suspicious_vals_lem float setting observations k,
          (refl, refl, refl, refl, refl),
          ap sorted_flags (suspicious_flags_lem float setting observations k),
        )),
  )

  finish_cell-IsRolledUp :
      (c : CellReading float) → IsRolledUp c → IsRolledUpOrNone (finish_cell float library c)
  unfolding finish_cell IsRolledUpOrNone
  finish_cell-IsRolledUp c h = elim (Bool-cases (str_eq c.parameter "pm25_ugm3")) [
    | inl e ↦ rw (finish_cell, e) (with_aqi-IsRolledUp c _ h (str_eq→eq _ _ e) refl)
    | inr e ↦ rw (finish_cell, e) h
  ]

  build_cell-IsRolledUp :
      (labels : List (String × String)) (k : CellKey)
      → HasReading k
      → IsRolledUpOrNone (build_cell float library buckets labels k)
  unfolding build_cell lane_at
  build_cell-IsRolledUp labels k h = finish_cell-IsRolledUp _ (
      cell_of-IsRolledUp k (loc_at float library buckets k) (label_at float library labels k)
        (nodes_at float library buckets k) _ _ h (trusted_vals_lem float setting observations k)
        (provisional_vals_lem float setting observations k))

  collect_cell-AreRolledUp :
      (c : Option (CellReading float)) (rest : Option (List (CellReading float)))
      → IsRolledUpOrNone c
      → AreRolledUp rest
      → AreRolledUp (collect_cell float library c rest)
  unfolding collect_cell AreRolledUp IsRolledUpOrNone
  collect_cell-AreRolledUp none rest h k = h
  collect_cell-AreRolledUp (some c) none h k = k
  collect_cell-AreRolledUp (some c) (some cells) h k = (h, k)

  build_each-AreRolledUp :
      (labels : List (String × String)) (keys : List CellKey)
      → All HasReading keys
      → AreRolledUp (build_each float library buckets labels keys)
  unfolding build_each AreRolledUp
  build_each-AreRolledUp labels [] h = tt
  build_each-AreRolledUp labels (k ∷ keys) h =
      collect_cell-AreRolledUp _ _ (build_cell-IsRolledUp labels k h.0)
        (build_each-AreRolledUp labels keys h.1)

  All-once_key : (P : CellKey → Type 0) (ks : List CellKey) → All P ks → All P (once_key ks)
  All-once_key P [] h = tt
  All-once_key P (k ∷ ks) h = elim (Bool-cases (any_of (same_key k) ks)) [
    | inl e ↦ rw (once_key, e) (All-once_key P ks h.1)
    | inr e ↦ rw (once_key, e) (h.0, All-once_key P ks h.1)
  ]

  keys-HaveReading :
      {V : Type 0} (lists : Lists float V)
      → ((k : CellKey) → all_at same_key k lists ≢ [] → HasReading k)
      → AreFilled same_key lists
      → All HasReading (keys_of float library lists)
  keys-HaveReading lists f h =
      All-weaken _ _ f (keys_of float library lists) (all_at_filled same_key same_key_refl lists h)

  sorted_keys-HaveReading : All HasReading (sorted_keys float library buckets)
  unfolding sorted_keys HasReading
  sorted_keys-HaveReading = All-sort_by key_le HasReading _ (
      All-once_key HasReading _ (
        All-append HasReading _ _
          (All-append HasReading _ _
            (keys-HaveReading buckets.trusted_vals
              (λ k f. inl (λ e. f (trusted_vals_lem float setting observations k ∙ e)))
              (trusted_vals_filled float setting observations))
            (keys-HaveReading buckets.provisional_vals
              (λ k f. inr (inl (λ e. f (provisional_vals_lem float setting observations k ∙ e))))
              (provisional_vals_filled float setting observations)))
          (keys-HaveReading buckets.suspicious_vals
            (λ k f. inr (inr (λ e. f (suspicious_vals_lem float setting observations k ∙ e))))
            (suspicious_vals_filled float setting observations))))

  -- For any observations, places and labels: the roll-up returns, or a cell of PM2.5 so rolled up
  -- has a mean that is not a number, or one above 0 of which ten times have no floor, as those of
  -- an infinity. If it returns, then each of its cells is the mean over the values, of which there
  -- is at least one, of one lane of the observations that go to its cell, hour and parameter: of
  -- the trusted ones, not provisional and with their sigmas combined, if there are any; else of the
  -- clean ones, provisional and without a sigma, if there are any; else of the suspicious ones,
  -- provisional, without a sigma and with their verdicts.
  pub build_cells-AreRolledUp :
      (labels : List (String × String)) → AreRolledUp (build_cells float library buckets labels)
  unfolding build_cells
  build_cells-AreRolledUp labels = build_each-AreRolledUp labels _ sorted_keys-HaveReading
