-- ===== src/Alerts/Current.antt =====
-- src/swelter/alerts.py: what the loop of `build_feed` publishes.
pub mod Answered
use mathlib.Core.Option.{none-ne-some}
use swelter.Prelude.{
  ◌≡◌, refl, sym, subst, ◌⊎◌, inl, inr, String, List, [], ◌∷◌, ◌++◌, map, All, All-append, Among,
  Among-append_left, Option-cases, All-weaken, All-Among, Among-append_right, Bool, Bool-cases,
  true, false, Option, none, some, str_eq,
}
use swelter.Prelude.Int.{ℤ}
use swelter.Prelude.Text.Order.{str_eq→eq}
use swelter.Prelude.Sort.{Among-sort_by}
use swelter.Prelude.Dict.{value_at}
use swelter.Float.{Float}
use swelter.Float.Library.{Library}
use swelter.Aggregate.{CellReading}
use swelter.Aggregate.Surface.{inner_at, inner_of, Nested, reading_at}
use swelter.Aggregate.Surface.{latest_by_cell, newest_bucket}
use swelter.HazardPacks.{HazardPack, alerting_parameters}
use swelter.Alerts.{Floors, Crossing, crossing, PackSelection, resolve_thresholds}
use swelter.Alerts.Event.{sorted_areas, bucket_or_empty, detect_event}
use swelter.Alerts.Feed.{
  AlertFeed, build_feed, Alert, StaleArea, is_crossing, Raised, raise_for, alert_of, stale_of,
  raise_found, and_raised, scan_parameters, scan_areas,
}

module _ (float : Float) (library : Library float) (moment : String → Option ℤ)
    (floors : Floors float library) (newest : String) (latest : Nested float) where
  -- A latest reading whose test raises.
  abbrev pub Raises : Type 0
  Raises =
      (area_id : String) × (parameter : String) × (r : CellReading float) × (reading_at float
          area_id parameter latest
        ≡ some r)
      × (crossing float library parameter r floors ≡ none)

  -- The alert of a latest reading of the newest hour that crosses.
  abbrev pub IsCurrent : Alert float library → Type 0
  IsCurrent a =
      (r : CellReading float) × (reading_at float a.area_id a.parameter latest ≡ some r)
      × (str_eq r.bucket newest ≡ true)
      × (crossing float library a.parameter r floors ≡ some (some (a.severity, a.threshold)))
      × (a.bucket ≡ r.bucket)
      × (a.value ≡ library.round 3 r.mean)
      × (a.provisional ≡ r.provisional)
      × (a.history ≡ r.history)

  -- The absence of a latest reading of another hour, withdrawn if that one crosses.
  abbrev pub IsStale : StaleArea float library → Type 0
  IsStale s =
      (r : CellReading float) × (reading_at float s.area_id s.parameter latest ≡ some r)
      × (str_eq r.bucket newest ≡ false)
      × (s.last_bucket ≡ r.bucket)
      × ((crossed : Crossing float library) × (crossing float library s.parameter r floors
            ≡ some crossed)
          × (s.withdrawn ≡ is_crossing float library crossed))

  -- A reading is current and does not cross, or has an alert, or has a stale area.
  pub IsAnswered :
      List (Alert float library)
      → List (StaleArea float library)
      → String
      → String
      → Option (CellReading float)
      → Type 0
  IsAnswered alerts stale area_id parameter none = Unit
  IsAnswered alerts stale area_id parameter (some r) =
      ((str_eq r.bucket newest ≡ true) × (crossing float library parameter r floors ≡ some none))
      ⊎ (Among (λ a. (a.area_id ≡ area_id) × (a.parameter ≡ parameter)) alerts
          ⊎ Among (λ s. (s.area_id ≡ area_id) × (s.parameter ≡ parameter)) stale)

  unfoldable pub IsSound : Option (Raised float library) → Type 0
  IsSound none = Raises
  IsSound (some raised) = All IsCurrent raised.0 × All IsStale raised.1

  and_raised-IsSound :
      (a b : Option (Raised float library))
      → IsSound a
      → IsSound b
      → IsSound (and_raised float library moment floors newest a b)
  unfolding IsSound
  and_raised-IsSound none b h k = h
  and_raised-IsSound (some a) none h k = k
  and_raised-IsSound (some a) (some b) h k =
      (All-append IsCurrent a.0 b.0 h.0 k.0, All-append IsStale a.1 b.1 h.1 k.1)

  raise_for-IsSound :
      (area_id p : String) (r : CellReading float) (current : Bool)
      (crossed : Option (Crossing float library))
      → reading_at float area_id p latest ≡ some r
      → str_eq r.bucket newest ≡ current
      → crossing float library p r floors ≡ crossed
      → IsSound (raise_for float library moment newest area_id p r current crossed)
  unfolding IsSound
  raise_for-IsSound area_id p r current none e t c = (area_id, p, r, e, c)
  raise_for-IsSound area_id p r false (some crossed) e t c =
      (tt, ((r, e, t, refl, (crossed, c, refl)), tt))
  raise_for-IsSound area_id p r true (some none) e t c = (tt, tt)
  raise_for-IsSound area_id p r true (some (some crossed)) e t c =
      (((r, e, t, c, refl, refl, refl, refl), tt), tt)

  raise_found-IsSound :
      (area_id p : String) (found : Option (CellReading float))
      → reading_at float area_id p latest ≡ found
      → IsSound (raise_found float library moment floors newest area_id p found)
  unfolding IsSound
  raise_found-IsSound area_id p none e = (tt, tt)
  raise_found-IsSound area_id p (some r) e = raise_for-IsSound area_id p r _ _ e refl refl

  scan_parameters-IsSound :
      (area_id : String) (ps : List String)
      → IsSound (
          scan_parameters float library moment floors newest area_id
            (inner_at float area_id latest)
            ps)
  unfolding scan_parameters IsSound reading_at
  scan_parameters-IsSound area_id [] = (tt, tt)
  scan_parameters-IsSound area_id (p ∷ ps) =
      and_raised-IsSound _ _
        (raise_found-IsSound area_id p (value_at str_eq p (inner_at float area_id latest)) refl)
        (scan_parameters-IsSound area_id ps)

  pub scan_areas-IsSound :
      (params areas : List String)
      → IsSound (scan_areas float library moment floors newest params latest areas)
  unfolding scan_areas IsSound
  scan_areas-IsSound params [] = (tt, tt)
  scan_areas-IsSound params (area_id ∷ areas) =
      and_raised-IsSound _ _ (scan_parameters-IsSound area_id params)
        (scan_areas-IsSound params areas)
