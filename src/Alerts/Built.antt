-- ===== src/Alerts/Built.antt =====
-- src/swelter/alerts.py: what `build_feed` returns.
use swelter.Alerts.Current.Answered.{Answers, scan-Answers}
use swelter.Prelude.{
  ◌≡◌, refl, subst, inl, inr, String, List, [], ◌∷◌, All, Option-cases, All-weaken, All-Among,
  Option, none, some,
}
use swelter.Prelude.Int.{ℤ}
use swelter.Float.{Float}
use swelter.Float.Library.{Library}
use swelter.Aggregate.{CellReading}
use swelter.Aggregate.Surface.{Nested, reading_at}
use swelter.Aggregate.Surface.{latest_by_cell, newest_bucket}
use swelter.HazardPacks.{HazardPack, alerting_parameters}
use swelter.Alerts.{Floors, PackSelection, resolve_thresholds}
use swelter.Alerts.Event.{sorted_areas, bucket_or_empty}
use swelter.Alerts.Feed.{AlertFeed, build_feed, Alert, StaleArea, scan_areas}
use swelter.Alerts.Current.{Raises, IsCurrent, IsStale, IsAnswered, IsSound, scan_areas-IsSound}

everywhere : {A : Type 0} (P : A → Type 0) → ((x : A) → P x) → (xs : List A) → All P xs
everywhere P f [] = tt
everywhere P f (x ∷ xs) = (f x, everywhere P f xs)

module _ (float : Float) (library : Library float) (moment : String → Option ℤ)
    (floors : Floors float library) (newest : String) (latest : Nested float) where
  -- For a row of the surface and the parameters of the pack.
  abbrev pub AreAnswered :
      List String
      → List (Alert float library)
      → List (StaleArea float library)
      → CellReading float
      → Type 0
  AreAnswered params alerts stale c =
      All
        (λ p.
          (IsAnswered float library moment floors newest latest) alerts stale c.cell_id p
            (reading_at float c.cell_id p latest))
        params

  -- The feed is built of current alerts and stale areas and answers for every row, or a test
  -- raises.
  pub IsCurrentFeed :
      List String → List (CellReading float) → Option (AlertFeed float library) → Type 0
  IsCurrentFeed params cells none = (Raises float library moment floors newest latest)
  IsCurrentFeed params cells (some feed) =
      (feed.bucket ≡ newest)
      × (feed.thresholds ≡ floors)
      × All (IsCurrent float library moment floors newest latest) feed.alerts
      × All (IsStale float library moment floors newest latest) feed.stale
      × All (AreAnswered params feed.alerts feed.stale) cells

module _ (float : Float) (library : Library float) (moment : String → Option ℤ) where
  -- For any surface, floors and pack: the feed is built, or the test of some latest reading raises.
  -- If it is built, then each alert is that of a latest reading of the newest hour that crosses its
  -- floor; each stale area is that of a latest reading of another hour, and is withdrawn exactly if
  -- that reading crosses; and for each row and each parameter of the pack, the latest reading of
  -- the cell, if it has one, is current and does not cross, or has an alert, or has a stale area.
  pub build_feed-IsCurrent :
      (bucket_at : ℤ → String) (network base_url : String) (overrides : List (String × float.F))
      (pack : HazardPack float) (selection : Option PackSelection)
      (cells : List (CellReading float))
      → IsCurrentFeed float library moment
          (resolve_thresholds float library overrides pack)
          (bucket_or_empty float (newest_bucket float cells))
          (latest_by_cell float pack.aqi_window cells)
          (alerting_parameters float pack)
          cells
          (build_feed float library moment bucket_at network base_url overrides pack selection
            cells)
  unfolding build_feed IsCurrentFeed IsSound Answers
  build_feed-IsCurrent bucket_at network base_url overrides pack selection cells =
      let floors = resolve_thresholds float library overrides pack in
      let newest = bucket_or_empty float (newest_bucket float cells) in
      let latest = latest_by_cell float pack.aqi_window cells in
      let params = alerting_parameters float pack in
      let scanned =
        scan_areas float library moment floors newest params latest (sorted_areas float latest) in
      let sound =
        scan_areas-IsSound float library moment floors newest latest params
          (sorted_areas float latest) in
      elim (Option-cases scanned) [
        | inl e ↦
            rw (build_feed, e) (subst (IsSound float library moment floors newest latest) e sound)
        | inr (raised, e) ↦
            let parts : All (IsCurrent float library moment floors newest latest) raised.0
                × All (IsStale float library moment floors newest latest) raised.1 =
              subst (IsSound float library moment floors newest latest) e sound in
            rw (build_feed, e)
              (
                refl,
                refl,
                parts.0,
                parts.1,
                everywhere _
                    (λ c.
                      All-weaken _ _
                        (λ p h.
                          subst (Answers float library moment floors newest latest c.cell_id p) e (
                            scan-Answers float library moment floors newest latest c.cell_id p
                              params h))
                        params (All-Among params))
                    cells,
              )
      ]
