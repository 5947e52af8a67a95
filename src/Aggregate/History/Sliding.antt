-- ===== src/Aggregate/History/Sliding.antt =====
-- That the windows that slide over a series are the hours within the horizon.
use swelter.Prelude.{
  ℕ, ◌-◌, ◌≤◌, ◌≡◌, refl, sym, ap, subst, ◌∙◌, String, List, [], ◌∷◌, ◌++◌, append-nil,
  append_assoc, map, ltb, All, All-weaken, All-both, All-append, All-keep_if, keep_if, keep_if_pass,
  keep_if_fail, keep_if-append, keep_if_twice, Bool, true, false, not, if◌then◌else◌, Bool-cases,
  inl, inr, arith,
}
use swelter.Float.{Float}
use swelter.Aggregate.{CellReading}
use swelter.Aggregate.History.Final.{windows_after}
use swelter.Aggregate.History.{
  WindowEntry, Window, expire, push, Windows, no_windows, horizon, before, after,
}

module _ (float : Float) (instant : String → ℕ) (month : String → ℕ)
    (min_hours window_days : ℕ) where
  -- An entry is within the horizon of a moment.
  abbrev pub is_near : ℕ → WindowEntry float → Bool
  is_near moment e =
      not (ltb (horizon float instant month min_hours window_days) (moment - e.moment))

  -- Moments never go back.
  abbrev pub AreOrdered : List (WindowEntry float) → Type 0
  AreOrdered [] = Unit
  AreOrdered (e ∷ es) = All (λ f. e.moment ≤ f.moment) es × AreOrdered es

  keep-All :
      (p : WindowEntry float → Bool) (es : List (WindowEntry float))
      → All (λ e. p e ≡ true) es
      → keep_if p es ≡ es
  keep-All p [] h = refl
  keep-All p (e ∷ es) h = keep_if_pass p e es h.0 ∙ ap (λ l. e ∷ l) (keep-All p es h.1)

  near_later :
      (moment : ℕ) (e f : WindowEntry float)
      → is_near moment e ≡ true
      → e.moment ≤ f.moment
      → is_near moment f ≡ true
  near_later moment e f h k = ground arith

  near_earlier : (m n : ℕ) (e : WindowEntry float) → m ≤ n → is_near n e ≡ true → is_near m e ≡ true
  near_earlier m n e h k = ground arith

  -- What is left behind the horizon is dropped from the front only, and that is all of it.
  expire-entries :
      (moment : ℕ) (es : List (WindowEntry float)) (values : List float.F)
      → AreOrdered es
      → (expire float (horizon float instant month min_hours window_days) moment es values).entries
        ≡ keep_if (is_near moment) es
  unfolding expire
  expire-entries moment [] values h = refl
  expire-entries moment (e ∷ es) values h =
      elim (Bool-cases
        (ltb (horizon float instant month min_hours window_days) (moment - e.moment))) [
          | inl far ↦
              rw (expire, far)
                (expire-entries moment es _ h.1
                  ∙ sym (keep_if_fail (is_near moment) e es (rw far refl)))
          | inr near ↦
              rw (expire, near)
                (sym (
                  keep-All (is_near moment) (e ∷ es) (
                    rw near refl,
                    All-weaken _ _ (λ f. near_later moment e f (rw near refl)) es h.0,
                  )))
        ]

  -- The hours are in order, and none is behind the moment.
  abbrev pub AreUpTo : List (CellReading float) → ℕ → Type 0
  AreUpTo [] moment = Unit
  AreUpTo (c ∷ cs) moment =
      All (λ d. instant c.bucket ≤ instant d.bucket) cs
      × (instant c.bucket ≤ moment)
      × AreUpTo cs moment

  -- The entries of the hours that pass a test, each behind the horizon of those before it.
  module _ (counts : CellReading float → Bool) where
    abbrev pub entry_of : CellReading float → WindowEntry float
    entry_of c = record { moment = instant c.bucket; bucket = c.bucket; mean = c.mean }

    abbrev pub counted : List (CellReading float) → List (WindowEntry float)
    counted xs = map entry_of (keep_if counts xs)

    entries_from : List (WindowEntry float) → List (CellReading float) → List (WindowEntry float)
    entries_from es [] = es
    entries_from es (c ∷ cs) =
        entries_from
          (if counts c
            then keep_if (is_near (instant c.bucket)) es ++ entry_of c ∷ []
            else keep_if (is_near (instant c.bucket)) es)
          cs

    front_kept :
        (p : WindowEntry float → Bool) (xs ys r : List (WindowEntry float))
        → keep_if p xs ≡ keep_if p ys
        → keep_if p (xs ++ r) ≡ keep_if p (ys ++ r)
    front_kept p xs ys r e =
        keep_if-append p xs r ∙ ap (λ l. l ++ keep_if p r) e ∙ sym (keep_if-append p ys r)

    entries_counted :
        (c : CellReading float) (cs : List (CellReading float)) (es : List (WindowEntry float))
        → counts c ≡ true
        → entries_from es (c ∷ cs)
          ≡ entries_from (keep_if (is_near (instant c.bucket)) es ++ entry_of c ∷ []) cs
    unfolding entries_from
    entries_counted c cs es t = rw (entries_from, t) refl

    entries_left :
        (c : CellReading float) (cs : List (CellReading float)) (es : List (WindowEntry float))
        → counts c ≡ false
        → entries_from es (c ∷ cs) ≡ entries_from (keep_if (is_near (instant c.bucket)) es) cs
    unfolding entries_from
    entries_left c cs es f = rw (entries_from, f) refl

    entries_from-near :
        (cs : List (CellReading float)) (es : List (WindowEntry float)) (moment : ℕ)
        → AreUpTo cs moment
        → keep_if (is_near moment) (entries_from es cs)
          ≡ keep_if (is_near moment) (es ++ counted cs)
    unfolding entries_from
    entries_from-near [] es moment h = ap (keep_if (is_near moment)) (sym (append-nil es))
    entries_from-near (c ∷ cs) es moment h =
        let m = instant c.bucket in
        let aged = keep_if (is_near m) es in
        let older : keep_if (is_near moment) aged ≡ keep_if (is_near moment) es =
          keep_if_twice (is_near moment) (is_near m) es (λ e. near_earlier m moment e h.1) in
        elim (Bool-cases (counts c)) [
          | inl t ↦
              ap (keep_if (is_near moment)) (entries_counted c cs es t)
              ∙ entries_from-near cs (aged ++ entry_of c ∷ []) moment h.2
              ∙ ap (keep_if (is_near moment)) (append_assoc aged (entry_of c ∷ []) (counted cs))
              ∙ front_kept (is_near moment) aged es (entry_of c ∷ counted cs) older
              ∙ ap (λ l. keep_if (is_near moment) (es ++ map entry_of l))
                  (sym (keep_if_pass counts c cs t))
          | inr f ↦
              ap (keep_if (is_near moment)) (entries_left c cs es f)
              ∙ entries_from-near cs aged moment h.2
              ∙ front_kept (is_near moment) aged es (counted cs) older
              ∙ ap (λ l. keep_if (is_near moment) (es ++ map entry_of l))
                  (sym (keep_if_fail counts c cs f))
        ]

    AreOrdered-keep_if :
        (p : WindowEntry float → Bool) (es : List (WindowEntry float))
        → AreOrdered es
        → AreOrdered (keep_if p es)
    AreOrdered-keep_if p [] h = tt
    AreOrdered-keep_if p (e ∷ es) h = elim (Bool-cases (p e)) [
      | inl t ↦
          subst AreOrdered (sym (keep_if_pass p e es t))
            (All-keep_if _ p es h.0, AreOrdered-keep_if p es h.1)
      | inr f ↦ subst AreOrdered (sym (keep_if_fail p e es f)) (AreOrdered-keep_if p es h.1)
    ]

    AreOrdered-append :
        (es : List (WindowEntry float)) (f : WindowEntry float)
        → AreOrdered es
        → All (λ e. e.moment ≤ f.moment) es
        → AreOrdered (es ++ f ∷ [])
    AreOrdered-append [] f h k = (tt, tt)
    AreOrdered-append (e ∷ es) f h k =
        (All-append _ es (f ∷ []) h.0 (k.0, tt), AreOrdered-append es f h.1 k.1)

    -- The entries are in order and not behind the hours to come.
    abbrev ComeBefore : List (WindowEntry float) → List (CellReading float) → Type 0
    ComeBefore es cs = AreOrdered es × All (λ c. All (λ e. e.moment ≤ instant c.bucket) es) cs

    module _ (field : Windows float instant month min_hours window_days → Window float)
        (step : (ws : Windows float instant month min_hours window_days) (c : CellReading float)
          → (field (after float instant month min_hours window_days ws c)).entries ≡ (
              if counts c
              then (expire float
                  (horizon float instant month min_hours window_days)
                  (instant c.bucket)
                  (field ws).entries
                  (field ws).values).entries
                ++ entry_of c ∷ []
              else (expire float
                  (horizon float instant month min_hours window_days)
                  (instant c.bucket)
                  (field ws).entries
                  (field ws).values).entries)) where
      added : CellReading float → List (WindowEntry float) → List (WindowEntry float)
      added c es = if counts c then es ++ entry_of c ∷ [] else es

      added-ComeBefore :
          (c : CellReading float) (cs : List (CellReading float)) (es : List (WindowEntry float))
          → ComeBefore es (c ∷ cs)
          → All (λ d. instant c.bucket ≤ instant d.bucket) cs
          → ComeBefore (added c (keep_if (is_near (instant c.bucket)) es)) cs
      unfolding added
      added-ComeBefore c cs es h k =
          let near = is_near (instant c.bucket) in
          let kept = AreOrdered-keep_if near es h.0 in
          let bound = All-keep_if _ near es h.1.0 in
          let later = All-weaken _ _ (λ d q. All-keep_if _ near es q) cs h.1.1 in
          elim (Bool-cases (counts c)) [
            | inl t ↦
                rw (added, t)
                  (
                    AreOrdered-append (keep_if near es) (entry_of c) kept bound,
                    All-both _ _ _ (λ d p q. All-append _ (keep_if near es) _ p (q, tt)) cs later k,
                  )
            | inr f ↦ rw (added, f) (kept, later)
          ]

      entries_from-added :
          (c : CellReading float) (cs : List (CellReading float)) (es : List (WindowEntry float))
          → entries_from es (c ∷ cs)
            ≡ entries_from (added c (keep_if (is_near (instant c.bucket)) es)) cs
      unfolding entries_from added
      entries_from-added c cs es = elim (Bool-cases (counts c)) [
        | inl t ↦ rw (entries_from, added, t) refl
        | inr f ↦ rw (entries_from, added, f) refl
      ]

      after-added :
          (ws : Windows float instant month min_hours window_days) (c : CellReading float)
          → AreOrdered (field ws).entries
          → (field (after float instant month min_hours window_days ws c)).entries
            ≡ added c (keep_if (is_near (instant c.bucket)) (field ws).entries)
      unfolding added
      after-added ws c h =
          step ws c
          ∙ ap (λ l. if counts c then l ++ entry_of c ∷ [] else l)
              (expire-entries (instant c.bucket) (field ws).entries (field ws).values h)

      windows_after-entries :
          (cs : List (CellReading float)) (ws : Windows float instant month min_hours window_days)
          (moment : ℕ)
          → ComeBefore (field ws).entries cs
          → AreUpTo cs moment
          → ((field (windows_after float instant month min_hours window_days ws cs)).entries
              ≡ entries_from (field ws).entries cs)
            × AreOrdered
                (field (windows_after float instant month min_hours window_days ws cs)).entries
      unfolding entries_from
      windows_after-entries [] ws moment h k = (refl, h.0)
      windows_after-entries (c ∷ cs) ws moment h k =
          let next = after float instant month min_hours window_days ws c in
          let e = after-added ws c h.0 in
          let fine =
            subst (λ l. ComeBefore l cs) (sym e) (added-ComeBefore c cs (field ws).entries h k.0) in
          let (p, q) = windows_after-entries cs next moment fine k.2 in
          (p ∙ ap (λ l. entries_from l cs) e ∙ sym (entries_from-added c cs (field ws).entries), q)

  -- The hours of a series, in order up to a moment, that pass a test and are near it.
  abbrev pub nearby :
      (CellReading float → Bool) → List (CellReading float) → ℕ → List (WindowEntry float)
  nearby counts xs moment = keep_if (is_near moment) (counted counts xs)

  window_before :
      (counts : CellReading float → Bool)
      (field : Windows float instant month min_hours window_days → Window float)
      (step : (ws : Windows float instant month min_hours window_days) (c : CellReading float)
        → (field (after float instant month min_hours window_days ws c)).entries ≡ (
            if counts c
            then (expire float
                (horizon float instant month min_hours window_days)
                (instant c.bucket)
                (field ws).entries
                (field ws).values).entries
              ++ entry_of counts c ∷ []
            else (expire float
                (horizon float instant month min_hours window_days)
                (instant c.bucket)
                (field ws).entries
                (field ws).values).entries))
      (xs : List (CellReading float)) (moment : ℕ)
      → (field (no_windows float instant month min_hours window_days)).entries ≡ []
      → AreUpTo xs moment
      → let ws =
          windows_after float instant month min_hours window_days
            (no_windows float instant month min_hours window_days)
            xs in
        (expire float
          (horizon float instant month min_hours window_days)
          moment
          (field ws).entries
          (field ws).values).entries
        ≡ nearby counts xs moment
  window_before counts field step xs moment start h =
      let first = no_windows float instant month min_hours window_days in
      let ws = windows_after float instant month min_hours window_days first xs in
      let none_first = subst (λ l. ComeBefore counts l xs) (sym start) (tt, nothing xs) in
      let (p, q) = windows_after-entries counts field step xs first moment none_first h in
      expire-entries moment (field ws).entries (field ws).values q
      ∙ ap (keep_if (is_near moment)) (p ∙ ap (λ l. entries_from counts l xs) start)
      ∙ entries_from-near counts xs [] moment h
    where
      nothing :
          (cs : List (CellReading float))
          → All (λ c. All {A = WindowEntry float} (λ e. e.moment ≤ instant c.bucket) []) cs
      nothing [] = tt
      nothing (c ∷ cs) = (tt, nothing cs)

  every_step :
      (ws : Windows float instant month min_hours window_days) (c : CellReading float)
      → (after float instant month min_hours window_days ws c).every.entries ≡ (
          if true
          then (expire float
              (horizon float instant month min_hours window_days)
              (instant c.bucket)
              ws.every.entries
              ws.every.values).entries
            ++ entry_of (λ x. true) c ∷ []
          else (expire float
              (horizon float instant month min_hours window_days)
              (instant c.bucket)
              ws.every.entries
              ws.every.values).entries)
  unfolding after before push
  every_step ws c = refl

  known_step :
      (ws : Windows float instant month min_hours window_days) (c : CellReading float)
      → (after float instant month min_hours window_days ws c).known.entries ≡ (
          if not c.provisional
          then (expire float
              (horizon float instant month min_hours window_days)
              (instant c.bucket)
              ws.known.entries
              ws.known.values).entries
            ++ entry_of (λ x. not x.provisional) c ∷ []
          else (expire float
              (horizon float instant month min_hours window_days)
              (instant c.bucket)
              ws.known.entries
              ws.known.values).entries)
  unfolding after before push
  known_step ws c = elim (Bool-cases c.provisional) [
    | inl t ↦ rw (after, before, t) refl
    | inr f ↦ rw (after, before, push, f) refl
  ]

  -- For any hours of a series in order and an hour that is not behind them: the entries of the
  -- window in which the hour is placed are exactly those earlier hours that are no farther from it
  -- than the horizon; and those of the calibrated window are the ones of them that are calibrated.
  pub before-AreNear :
      (xs : List (CellReading float)) (c : CellReading float)
      → AreUpTo xs (instant c.bucket)
      → let ws =
          windows_after float instant month min_hours window_days
            (no_windows float instant month min_hours window_days)
            xs in
        ((before float instant month min_hours window_days ws c).every.entries
          ≡ nearby (λ x. true) xs (instant c.bucket))
        × ((before float instant month min_hours window_days ws c).known.entries
            ≡ nearby (λ x. not x.provisional) xs (instant c.bucket))
  unfolding before
  before-AreNear xs c h = (
    window_before (λ x. true) (λ ws. ws.every) every_step xs (instant c.bucket) refl h,
    window_before (λ x. not x.provisional) (λ ws. ws.known) known_step xs (instant c.bucket) refl h,
  )
