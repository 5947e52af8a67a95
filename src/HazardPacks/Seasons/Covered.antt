-- ===== src/HazardPacks/Seasons/Covered.antt =====
-- A season calendar without problems selects a pack in every month.
use mathlib.Core.List.{cons≢nil}
use mathlib.Core.Bool.{false≢true}
use swelter.Prelude.{
  ◌≡◌, refl, sym, ap, subst, ◌∙◌, ◌⊎◌, inl, inr, String, List, [], ◌∷◌, ◌++◌, any_of, keep_if,
  keep_if_pass, keep_if_fail, All, Among, Among-All, Bool, Bool-cases, true, false, not, ◌||◌,
  Option, Option-cases, none, some, ◌==◌, ==→eq, ◌+◌, ◌≤◌, ◌<◌, arith, ℕ, suc, zero,
}
use swelter.Prelude.Int.{ℤ, pos, negsuc, eqb_ℤ}
use swelter.Prelude.Dict.{value_at}
use swelter.Float.{Float}
use swelter.HazardPacks.{HazardPack}
use swelter.HazardPacks.Shipped.{pack_named}
use swelter.HazardPacks.Seasons.{
  SeasonWindow, Problem, is_month, Seen, is_seen, claim_month, claim_months, months_from,
  months_of_year, missing_months, missing_problem, has_month, pack_problem, claim_windows,
  season_calendar_problems, pack_for_month, resolve_season, resolve_pack,
}

no_parts : {A : Type 0} (xs ys : List A) → xs ++ ys ≡ [] → (xs ≡ []) × (ys ≡ [])
no_parts [] ys e = (refl, e)
no_parts (x ∷ xs) ys e = absurd (cons≢nil e)

either : (a b : Bool) → a || b ≡ true → (a ≡ true) ⊎ (b ≡ true)
either true b h = inl refl
either false b h = inr h

first_true : (a b : Bool) → a ≡ true → a || b ≡ true
first_true true b h = refl
first_true false b h = absurd (false≢true h)

second_true : (a b : Bool) → b ≡ true → a || b ≡ true
second_true true b h = refl
second_true false b h = h

any_of-append :
    {A : Type 0} (p : A → Bool) (x : A) (xs : List A)
    → any_of p (xs ++ x ∷ []) ≡ true
    → (any_of p xs ≡ true) ⊎ (p x ≡ true)
any_of-append p x [] h = elim (either (p x) false h) [ inl e ↦ inr e | inr e ↦ inl e ]
any_of-append p x (y ∷ xs) h = elim (either (p y) (any_of p (xs ++ x ∷ [])) h) [
  | inl e ↦ inl (first_true (p y) (any_of p xs) e)
  | inr e ↦ elim (any_of-append p x xs e) [
    | inl f ↦ inl (second_true (p y) (any_of p xs) f)
    | inr f ↦ inr f
  ]
]

module _ (m : ℤ) where
  claim_month-is_seen :
      (P : Type 0) (pack : String) (month : ℤ) (test : Bool) (found : Option String)
      (skipped claimed : List Problem × Seen)
      → (is_seen m skipped.1 ≡ true → P)
      → (is_seen m claimed.1 ≡ true → P)
      → is_seen m (claim_month pack month test found skipped claimed).1 ≡ true
      → P
  claim_month-is_seen P pack month false found skipped claimed f g h = f h
  claim_month-is_seen P pack month true none skipped claimed f g h = g h
  claim_month-is_seen P pack month true (some other) skipped claimed f g h = f h

  -- What is claimed in the end was claimed before or is a month of the window.
  claim_months-is_seen :
      (pack : String) (months : List ℤ) (seen : Seen)
      → is_seen m (claim_months pack months seen).1 ≡ true
      → (is_seen m seen ≡ true) ⊎ (any_of (λ k. eqb_ℤ k m) months ≡ true)
  unfolding claim_months
  claim_months-is_seen pack [] seen h = inl h
  claim_months-is_seen pack (k ∷ months) seen h =
      let own = eqb_ℤ k m in
      let later = any_of (λ k. eqb_ℤ k m) months in
      claim_month-is_seen _ pack k (is_month k) (value_at eqb_ℤ k seen)
        (claim_months pack months seen) (claim_months pack months (seen ++ (k, pack) ∷ []))
        (λ s. elim (claim_months-is_seen pack months seen s) [
          | inl e ↦ inl e
          | inr e ↦ inr (second_true own later e)
        ])
        (λ s. elim (claim_months-is_seen pack months (seen ++ (k, pack) ∷ []) s) [
          | inl e ↦ elim (any_of-append (λ s. eqb_ℤ s.0 m) (k, pack) seen e) [
            | inl f ↦ inl f
            | inr f ↦ inr (first_true own later f)
          ]
          | inr e ↦ inr (second_true own later e)
        ])
        h

Among-months_from :
    (n first count : ℕ)
    → first ≤ n
    → n < first + count
    → Among (λ k. k ≡ pos n) (months_from first count)
Among-months_from n first zero h k = absurd (omega arith)
Among-months_from n first (suc count) h k = elim (Bool-cases (first == n)) [
  | inl e ↦ inl (ap pos (==→eq first n e))
  | inr e ↦ inr (Among-months_from n (suc first) count (ground arith) (omega arith))
]

Among-months_of_year : (m : ℤ) → is_month m ≡ true → Among (λ k. k ≡ m) months_of_year
Among-months_of_year (pos n) h = Among-months_from n 1 12 (ground arith) (ground arith)
Among-months_of_year (negsuc n) h = absurd (ground arith)

none_kept :
    {A : Type 0} (p : A → Bool) (xs : List A) → keep_if p xs ≡ [] → All (λ x. p x ≡ false) xs
none_kept p [] h = tt
none_kept p (x ∷ xs) h = elim (Bool-cases (p x)) [
  | inl e ↦ absurd (cons≢nil (sym (keep_if_pass p x xs e) ∙ h))
  | inr e ↦ (e, none_kept p xs (sym (keep_if_fail p x xs e) ∙ h))
]

no_problem : (ms : List ℤ) → missing_problem ms ≡ [] → ms ≡ []
no_problem [] h = refl
no_problem (m ∷ ms) h = absurd (cons≢nil h)

-- Every month of the year is claimed if none is missing.
none_missing :
    (m : ℤ) (seen : Seen)
    → is_month m ≡ true
    → missing_problem (missing_months seen) ≡ []
    → is_seen m seen ≡ true
none_missing m seen h e =
    let found =
      Among-All (λ k. not (is_seen k seen) ≡ false) (λ k. k ≡ m) months_of_year
        (none_kept (λ k. not (is_seen k seen)) months_of_year (no_problem (missing_months seen) e))
        (Among-months_of_year m h) in
    elim (Bool-cases (is_seen m seen)) [
      | inl t ↦ t
      | inr f ↦
          absurd (
            false≢true (sym (subst (λ k. not (is_seen k seen) ≡ false) found.2 found.1) ∙ ap not f))
    ]

module _ (float : Float) where
  -- The pack of a window is one that is shipped.
  abbrev pub IsKnown : SeasonWindow → Type 0
  IsKnown window = (pack : HazardPack float) × (pack_named float window.pack ≡ some pack)

  no_pack_problem : (window : SeasonWindow) → pack_problem float window ≡ [] → IsKnown window
  unfolding pack_named
  no_pack_problem window e = elim (Option-cases (pack_named float window.pack)) [
    | inl f ↦ absurd (cons≢nil (rw (pack_problem, f) at e))
    | inr known ↦ known
  ]

  claim_windows-IsKnown :
      (windows : List SeasonWindow) (seen : Seen)
      → (claim_windows float windows seen).0 ≡ []
      → All IsKnown windows
  unfolding claim_windows
  claim_windows-IsKnown [] seen e = tt
  claim_windows-IsKnown (w ∷ windows) seen e =
      let parts = no_parts (pack_problem float w) _ e in
      let later = no_parts (claim_months w.pack w.months seen).0 _ parts.1 in
      (no_pack_problem w parts.0, claim_windows-IsKnown windows _ later.1)

  claim_windows-is_seen :
      (m : ℤ) (windows : List SeasonWindow) (seen : Seen)
      → is_seen m (claim_windows float windows seen).1 ≡ true
      → (is_seen m seen ≡ true) ⊎ Among (λ w. has_month m w ≡ true) windows
  unfolding claim_windows
  claim_windows-is_seen m [] seen h = inl h
  claim_windows-is_seen m (w ∷ windows) seen h =
      elim (claim_windows-is_seen m windows (claim_months w.pack w.months seen).1 h) [
        | inl e ↦ elim (claim_months-is_seen m w.pack w.months seen e) [
          | inl f ↦ inl f
          | inr f ↦ inr (inl f)
        ]
        | inr e ↦ inr (inr e)
      ]

  -- A window of the calendar has the month, and its pack is the one that is chosen.
  abbrev pub IsChosen : ℤ → Option (HazardPack float) → SeasonWindow → Type 0
  IsChosen month chosen window =
      (has_month month window ≡ true)
      × ((pack : HazardPack float) × (pack_named float window.pack ≡ some pack)
          × (chosen ≡ some pack))

  pack_for_month-IsChosen :
      (m : ℤ) (windows : List SeasonWindow)
      → All IsKnown windows
      → Among (λ w. has_month m w ≡ true) windows
      → Among (IsChosen m (pack_for_month float windows m)) windows
  unfolding pack_for_month
  pack_for_month-IsChosen m [] known h = h
  pack_for_month-IsChosen m (w ∷ windows) known h = elim (Bool-cases (has_month m w)) [
    | inl e ↦ inl (e, (known.0.0, known.0.1, rw (pack_for_month, e) known.0.1))
    | inr e ↦ elim h [
      | inl f ↦ absurd (false≢true (sym e ∙ f))
      | inr f ↦ inr (
          subst (λ r. Among (IsChosen m r) windows) (sym (rw (pack_for_month, e) refl))
            (pack_for_month-IsChosen m windows known.1 f))
    ]
  ]

  -- For any season calendar without problems and any month of the year: with "auto-season" and the
  -- month, a pack is resolved, and it is the shipped pack that a window of the calendar with the
  -- month names.
  pub resolve_pack-IsChosen :
      (calendar : List SeasonWindow) (month : ℤ)
      → season_calendar_problems float calendar ≡ []
      → is_month month ≡ true
      → Among
          (IsChosen month (resolve_pack float (some "auto-season") calendar (some month)))
          calendar
  unfolding season_calendar_problems resolve_pack resolve_season
  resolve_pack-IsChosen [] month e h = absurd (cons≢nil e)
  resolve_pack-IsChosen (w ∷ windows) month e h =
      let parts = no_parts (claim_windows float (w ∷ windows) []).0 _ e in
      let seen = none_missing month (claim_windows float (w ∷ windows) []).1 h parts.1 in
      pack_for_month-IsChosen month (w ∷ windows) (claim_windows-IsKnown (w ∷ windows) [] parts.0)
        (elim (claim_windows-is_seen month (w ∷ windows) [] seen) [
          | inl f ↦ absurd (false≢true f)
          | inr f ↦ f
        ])
