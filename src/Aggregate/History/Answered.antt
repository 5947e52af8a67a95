-- ===== src/Aggregate/History/Answered.antt =====
-- src/swelter/aggregate.py: `attach_history_context` gives every cell a placement.
use mathlib.Core.Bool.{false≢true}
use mathlib.Core.Option.{none-ne-some}
use swelter.Prelude.{
  ℕ, suc, ◌≢◌, ◌≡◌, refl, sym, ap, subst, ◌∙◌, String, List, [], ◌∷◌, length, map, All, All-append,
  All-weaken, Bool, Bool-cases, true, not, Option, none, some, str_eq, keep_if, keep_if_pass,
  keep_if_fail, inl, inr, arith,
}
use swelter.Prelude.Text.{text_lt}
use swelter.Prelude.Text.Order.{str_eq_refl}
use swelter.Prelude.Sort.{sort_by, All-sort_by_back}
use swelter.Prelude.Group.{group, entries, All-entries-group}
use swelter.Prelude.Dict.{assign, value_at, value_at-assign_self, value_at-assign_known}
use swelter.Float.{Float}
use swelter.Aggregate.{
  CellReading, Placement, exposure_parameter, ordinal_layer, single_window_reading,
}
use swelter.Aggregate.History.{
  Windows, no_windows, series_from, history_for_month_series, same_series, series_key, SeriesKey,
  VerdictKey, same_verdict_key, verdict_key, is_nowcast, has_history, Verdicts, record_placements,
  verdicts_from, placement_of, collect_placed, attach_from, attach_history_context,
}

module _ (float : Float) (instant : String → ℕ) (month : String → ℕ)
    (min_hours window_days : ℕ) where
  abbrev Rows : Type 0
  Rows = List (CellReading float)

  abbrev key_of : CellReading float → VerdictKey float instant month min_hours window_days
  key_of c = verdict_key float instant month min_hours window_days c

  abbrev same :
      VerdictKey float instant month min_hours window_days
      → VerdictKey float instant month min_hours window_days
      → Bool
  same = same_verdict_key float instant month min_hours window_days

  abbrev Known : Type 0
  Known = Verdicts float instant month min_hours window_days

  -- The cell has a verdict.
  abbrev HasVerdict : Known → CellReading float → Type 0
  HasVerdict verdicts c = (p : Placement float) × (value_at same (key_of c) verdicts ≡ some p)

  same_refl : (k : VerdictKey float instant month min_hours window_days) → same k k ≡ true
  same_refl k = rw (str_eq_refl k.0, str_eq_refl k.1, str_eq_refl k.2, str_eq_refl k.3) refl

  length-series_from :
      (cs : Rows) (ws : Windows float instant month min_hours window_days)
      → length (series_from float instant month min_hours window_days ws cs) ≡ length cs
  unfolding series_from
  length-series_from [] ws = refl
  length-series_from (c ∷ cs) ws = ap suc (length-series_from cs _)

  record_placements-known :
      (cs : Rows) (ps : List (Placement float)) (verdicts : Known) (c : CellReading float)
      → HasVerdict verdicts c
      → HasVerdict (record_placements float instant month min_hours window_days cs ps verdicts) c
  unfolding record_placements
  record_placements-known [] ps verdicts c h = h
  record_placements-known (d ∷ cs) [] verdicts c h = h
  record_placements-known (d ∷ cs) (p ∷ ps) verdicts c h =
      record_placements-known cs ps _ c
        (value_at-assign_known same (key_of c) (key_of d) p h.0 verdicts h.1)

  -- As many placements as cells: each of the cells has a verdict.
  record_placements-HasVerdict :
      (cs : Rows) (ps : List (Placement float)) (verdicts : Known)
      → length ps ≡ length cs
      → All
          (HasVerdict (record_placements float instant month min_hours window_days cs ps verdicts))
          cs
  unfolding record_placements
  record_placements-HasVerdict [] ps verdicts e = tt
  record_placements-HasVerdict (c ∷ cs) [] verdicts e = absurd (omega (arith, e))
  record_placements-HasVerdict (c ∷ cs) (p ∷ ps) verdicts e = (
    record_placements-known cs ps (assign same (key_of c) p verdicts) c
        (p, value_at-assign_self same same_refl (key_of c) p verdicts),
    record_placements-HasVerdict cs ps (assign same (key_of c) p verdicts) (omega (arith, e)),
  )

  abbrev Series : Type 0
  Series = List (SeriesKey float instant month min_hours window_days × Rows)

  by_bucket : CellReading float → CellReading float → Bool
  by_bucket a b = not (text_lt b.bucket a.bucket)

  verdicts_from-known :
      (groups : Series) (verdicts : Known) (c : CellReading float)
      → HasVerdict verdicts c
      → HasVerdict (verdicts_from float instant month min_hours window_days groups verdicts) c
  unfolding verdicts_from history_for_month_series by_bucket
  verdicts_from-known [] verdicts c h = h
  verdicts_from-known ((k, series) ∷ groups) verdicts c h =
      let sorted = sort_by by_bucket series in
      let placed = history_for_month_series float instant month min_hours window_days sorted in
      verdicts_from-known groups _ c (record_placements-known sorted placed verdicts c h)

  abbrev same_group :
      SeriesKey float instant month min_hours window_days
      → SeriesKey float instant month min_hours window_days
      → Bool
  same_group = same_series float instant month min_hours window_days

  verdicts_from-HasVerdict :
      (groups : Series) (verdicts : Known)
      → All
          (HasVerdict (verdicts_from float instant month min_hours window_days groups verdicts))
          (entries same_group groups)
  unfolding verdicts_from history_for_month_series by_bucket
  verdicts_from-HasVerdict [] verdicts = tt
  verdicts_from-HasVerdict ((k, series) ∷ groups) verdicts =
      let sorted = sort_by by_bucket series in
      let placed = history_for_month_series float instant month min_hours window_days sorted in
      let recorded =
        record_placements float instant month min_hours window_days sorted placed verdicts in
      let own =
        record_placements-HasVerdict sorted placed verdicts
          (length-series_from sorted (no_windows float instant month min_hours window_days)) in
      All-append _ series (entries same_group groups)
        (All-sort_by_back by_bucket _ series
          (All-weaken _ _ (λ c h. verdicts_from-known groups recorded c h) sorted own))
        (verdicts_from-HasVerdict groups recorded)

  passed :
      {A : Type 0} (P : A → Type 0) (p : A → Bool) (xs : List A)
      → All P (keep_if p xs)
      → All (λ x. p x ≡ true → P x) xs
  passed P p [] h = tt
  passed P p (x ∷ xs) h = elim (Bool-cases (p x)) [
    | inl e ↦
        let parts : P x × All P (keep_if p xs) = subst (All P) (keep_if_pass p x xs e) h in
        ((λ t. parts.0), passed P p xs parts.1)
    | inr e ↦ (
      (λ t. absurd (false≢true (sym e ∙ t))),
      passed P p xs (subst (All P) (keep_if_fail p x xs e) h),
    )
  ]

  -- The cell without its placement.
  abbrev pub bare : CellReading float → CellReading float
  bare c = record c { history = none }

  -- The cells as they were, each with a placement.
  unfoldable pub ArePlaced : Rows → Option Rows → Type 0
  ArePlaced cells none = ⊥
  ArePlaced cells (some placed) =
      (map bare placed ≡ map bare cells)
      × All (λ c. (p : Placement float) × (c.history ≡ some p)) placed

  collect_placed-ArePlaced :
      (c : CellReading float) (cs : Rows) (found : Option (Placement float)) (rest : Option Rows)
      → found ≢ none
      → ArePlaced cs rest
      → ArePlaced (c ∷ cs) (collect_placed float instant month min_hours window_days c found rest)
  unfolding collect_placed ArePlaced
  collect_placed-ArePlaced c cs none rest n h = absurd (n refl)
  collect_placed-ArePlaced c cs (some p) none n h = absurd h
  collect_placed-ArePlaced c cs (some p) (some out) n h =
      (ap (λ l. bare c ∷ l) h.0, ((p, refl), h.1))

  placement_of-some :
      (verdicts : Known) (c : CellReading float)
      → (has_history float instant month min_hours window_days c ≡ true → HasVerdict verdicts c)
      → placement_of float instant month min_hours window_days verdicts c ≢ none
  unfolding placement_of
  placement_of-some verdicts c h e = elim (Bool-cases (str_eq c.parameter exposure_parameter)) [
    | inl f ↦ none-ne-some ordinal_layer (sym (rw (placement_of, f) at e))
    | inr f ↦ elim (Bool-cases (is_nowcast float instant month min_hours window_days c)) [
      | inl g ↦ none-ne-some single_window_reading (sym (rw (placement_of, f, g) at e))
      | inr g ↦
          let known = h (rw (f, g) refl) in
          none-ne-some known.0 (sym (rw (placement_of, f, g) at e) ∙ known.1)
    ]
  ]

  attach_from-ArePlaced :
      (verdicts : Known) (cells : Rows)
      → All
          (λ c.
            has_history float instant month min_hours window_days c ≡ true → HasVerdict verdicts c)
          cells
      → ArePlaced cells (attach_from float instant month min_hours window_days verdicts cells)
  unfolding attach_from ArePlaced
  attach_from-ArePlaced verdicts [] h = (refl, tt)
  attach_from-ArePlaced verdicts (c ∷ cs) h =
      collect_placed-ArePlaced c cs _ _ (placement_of-some verdicts c h.0)
        (attach_from-ArePlaced verdicts cs h.1)

  -- For any cells: attach_history_context returns them in their order, unchanged apart from their
  -- placements, and each of them has one.
  pub attach_history_context-ArePlaced :
      (cells : Rows)
      → ArePlaced cells (attach_history_context float instant month min_hours window_days cells)
  unfolding attach_history_context
  attach_history_context-ArePlaced cells =
      let kept = keep_if (has_history float instant month min_hours window_days) cells in
      let groups = group same_group (series_key float instant month min_hours window_days) kept in
      let verdicts = verdicts_from float instant month min_hours window_days groups [] in
      attach_from-ArePlaced verdicts cells (
        passed (HasVerdict verdicts) (has_history float instant month min_hours window_days) cells (
          All-entries-group same_group (HasVerdict verdicts)
            (series_key float instant month min_hours window_days) kept
            (verdicts_from-HasVerdict groups [])))
