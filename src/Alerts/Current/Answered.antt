-- ===== src/Alerts/Current/Answered.antt =====
-- src/swelter/alerts.py: the loop of `build_feed` answers for every area and parameter.
use mathlib.Core.Option.{none-ne-some}
use swelter.Prelude.{
  ◌≡◌, refl, sym, subst, ◌⊎◌, inl, inr, String, List, [], ◌∷◌, ◌++◌, map, Among, Among-append_left,
  Option-cases, Among-append_right, Bool, Bool-cases, true, false, Option, none, some, str_eq,
}
use swelter.Prelude.Int.{ℤ}
use swelter.Prelude.Text.Order.{str_eq→eq}
use swelter.Prelude.Sort.{Among-sort_by}
use swelter.Prelude.Dict.{value_at}
use swelter.Float.{Float}
use swelter.Float.Library.{Library}
use swelter.Aggregate.{CellReading}
use swelter.Aggregate.Surface.{inner_at, inner_of, Nested, reading_at}
use swelter.Alerts.{Floors, Crossing, crossing}
use swelter.Alerts.Event.{sorted_areas}
use swelter.Alerts.Feed.{
  Raised, raise_for, alert_of, stale_of, raise_found, and_raised, scan_parameters, scan_areas,
}
use swelter.Alerts.Current.{IsAnswered}

-- A key under which a value is found is a key.
found_key :
    {V : Type 0} (k : String) (v : V) (d : List (String × V))
    → value_at str_eq k d ≡ some v
    → Among (λ j. j ≡ k) (map (λ e. e.0) d)
unfolding value_at
found_key k v [] h = absurd (none-ne-some v h)
found_key k v ((j, w) ∷ d) h = elim (Bool-cases (str_eq j k)) [
  | inl e ↦ inl (str_eq→eq j k e)
  | inr e ↦ inr (found_key k v d (rw (value_at, e) at h))
]

module _ (float : Float) (library : Library float) (moment : String → Option ℤ)
    (floors : Floors float library) (newest : String) (latest : Nested float) where
  module _ (area_id p : String) where
    -- What is raised, if nothing raises, answers for the area and the parameter.
    unfoldable pub Answers : Option (Raised float library) → Type 0
    Answers none = Unit
    Answers (some raised) =
        (IsAnswered float library moment floors newest latest) raised.0 raised.1 area_id p
          (reading_at float area_id p latest)

    more_alerts :
        (r : Option (CellReading float)) (a b : Raised float library)
        → (IsAnswered float library moment floors newest latest) a.0 a.1 area_id p r
        → (IsAnswered float library moment floors newest latest)
            (a.0 ++ b.0)
            (a.1 ++ b.1)
            area_id
            p
            r
    unfolding IsAnswered
    more_alerts none a b h = tt
    more_alerts (some r) a b (inl h) = inl h
    more_alerts (some r) a b (inr (inl h)) = inr (inl (Among-append_left _ a.0 b.0 h))
    more_alerts (some r) a b (inr (inr h)) = inr (inr (Among-append_left _ a.1 b.1 h))

    later_alerts :
        (r : Option (CellReading float)) (a b : Raised float library)
        → (IsAnswered float library moment floors newest latest) b.0 b.1 area_id p r
        → (IsAnswered float library moment floors newest latest)
            (a.0 ++ b.0)
            (a.1 ++ b.1)
            area_id
            p
            r
    unfolding IsAnswered
    later_alerts none a b h = tt
    later_alerts (some r) a b (inl h) = inl h
    later_alerts (some r) a b (inr (inl h)) = inr (inl (Among-append_right _ a.0 b.0 h))
    later_alerts (some r) a b (inr (inr h)) = inr (inr (Among-append_right _ a.1 b.1 h))

    and_raised-Answers :
        (a b : Option (Raised float library))
        → Answers a ⊎ Answers b
        → Answers (and_raised float library moment floors newest a b)
    unfolding Answers
    and_raised-Answers none b h = tt
    and_raised-Answers (some a) none h = tt
    and_raised-Answers (some a) (some b) (inl h) = more_alerts _ a b h
    and_raised-Answers (some a) (some b) (inr h) = later_alerts _ a b h

    raise_for-Answers :
        (r : CellReading float) (current : Bool) (crossed : Option (Crossing float library))
        → reading_at float area_id p latest ≡ some r
        → str_eq r.bucket newest ≡ current
        → crossing float library p r floors ≡ crossed
        → Answers (raise_for float library moment newest area_id p r current crossed)
    unfolding Answers IsAnswered
    raise_for-Answers r current none e t c = tt
    raise_for-Answers r false (some crossed) e t c =
        let stale = stale_of float library moment area_id p r newest crossed ∷ [] in
        subst ((IsAnswered float library moment floors newest latest) [] stale area_id p) (sym e)
          (inr (inr (inl (refl, refl))))
    raise_for-Answers r true (some none) e t c =
        subst ((IsAnswered float library moment floors newest latest) [] [] area_id p) (sym e)
          (inl (t, c))
    raise_for-Answers r true (some (some crossed)) e t c =
        let alerts = alert_of float library area_id p r crossed ∷ [] in
        subst ((IsAnswered float library moment floors newest latest) alerts [] area_id p) (sym e)
          (inr (inl (inl (refl, refl))))

    raise_found-Answers :
        (found : Option (CellReading float))
        → reading_at float area_id p latest ≡ found
        → Answers (raise_found float library moment floors newest area_id p found)
    unfolding Answers IsAnswered
    raise_found-Answers none e =
        subst ((IsAnswered float library moment floors newest latest) [] [] area_id p) (sym e) tt
    raise_found-Answers (some r) e = raise_for-Answers r _ _ e refl refl

    scan_parameters-Answers :
        (ps : List String)
        → Among (λ q. q ≡ p) ps
        → Answers (
            scan_parameters float library moment floors newest area_id
              (inner_at float area_id latest)
              ps)
    unfolding scan_parameters Answers reading_at
    scan_parameters-Answers [] h = absurd h
    scan_parameters-Answers (q ∷ ps) h = and_raised-Answers _ _ (elim h [
      | inl e ↦ inl (
          subst
            (λ z. Answers (
              raise_found float library moment floors newest area_id z
                (value_at str_eq z (inner_at float area_id latest))))
            (sym e) (raise_found-Answers _ refl))
      | inr k ↦ inr (scan_parameters-Answers ps k)
    ])

    scan_areas-Answers :
        (params areas : List String)
        → Among (λ q. q ≡ p) params
        → Among (λ b. b ≡ area_id) areas
        → Answers (scan_areas float library moment floors newest params latest areas)
    unfolding scan_areas Answers
    scan_areas-Answers params [] h k = absurd k
    scan_areas-Answers params (b ∷ areas) h k = and_raised-Answers _ _ (elim k [
      | inl e ↦ inl (
          subst
            (λ z. Answers (
              scan_parameters float library moment floors newest z (inner_at float z latest)
                params))
            (sym e) (scan_parameters-Answers params h))
      | inr l ↦ inr (scan_areas-Answers params areas h l)
    ])

    nothing_to_answer :
        (raised : Option (Raised float library))
        → reading_at float area_id p latest ≡ none
        → Answers raised
    unfolding Answers IsAnswered
    nothing_to_answer none e = tt
    nothing_to_answer (some raised) e =
        subst ((IsAnswered float library moment floors newest latest) raised.0 raised.1 area_id p)
          (sym e) tt

    known_area :
        (inner : Option (List (String × CellReading float))) (r : CellReading float)
        → value_at str_eq area_id latest ≡ inner
        → value_at str_eq p (inner_of float inner) ≡ some r
        → Among (λ b. b ≡ area_id) (sorted_areas float latest)
    unfolding sorted_areas value_at
    known_area none r e h = absurd (none-ne-some r h)
    known_area (some inner) r e h =
        Among-sort_by _ (λ b. b ≡ area_id) (map (λ e. e.0) latest)
          (found_key area_id inner latest e)

    pub scan-Answers :
        (params : List String)
        → Among (λ q. q ≡ p) params
        → Answers (
            scan_areas float library moment floors newest params latest (sorted_areas float latest))
    unfolding reading_at
    scan-Answers params h = elim (Option-cases (reading_at float area_id p latest)) [
      | inl e ↦ nothing_to_answer _ e
      | inr (r, e) ↦
          scan_areas-Answers params (sorted_areas float latest) h
            (known_area (value_at str_eq area_id latest) r refl e)
    ]
