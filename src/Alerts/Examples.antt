-- ===== src/Alerts/Examples.antt =====
-- Runs of the alerts at small inputs.
use swelter.Prelude.{
  ◌≡◌, refl, String, List, [], ◌∷◌, Option, none, some, str_eq, map, if◌then◌else◌, false, Among,
}
use swelter.Prelude.Text.{text_lt}
use swelter.Prelude.Int.{ℤ, pos}
use swelter.Float.Whole.{whole, whole_library}
use swelter.Aggregate.{CellReading}
use swelter.Aggregate.Surface.{latest_by_cell, newest_bucket}
use swelter.HazardPacks.{alerting_parameters}
use swelter.HazardPacks.Shipped.{heat_pack}
use swelter.HazardPacks.Seasons.{SeasonWindow, resolve_pack, season_calendar_problems}
use swelter.HazardPacks.Seasons.Covered.{IsChosen, resolve_pack-IsChosen}
use swelter.Alerts.{resolve_thresholds}
use swelter.Alerts.Event.{bucket_or_empty}
use swelter.Alerts.Feed.{build_feed}
use swelter.Alerts.Built.{IsCurrentFeed, build_feed-IsCurrent}

abbrev row : String → String → String → ℤ → CellReading whole
row cell_id bucket parameter mean = record {
  cell_id = cell_id;
  label = "";
  lat = pos 38;
  lon = pos 121;
  parameter = parameter;
  bucket = bucket;
  mean = mean;
  n = 1;
  provisional = false;
  uncertainty = some (pos 1);
  mean_member_sigma = some (pos 1);
  aqi = some (pos 130);
  category = none;
  aqi_window = none;
  heat_category = none;
  air_category = none;
  compound = false;
  uncertainty_note = none;
  method = none;
  reference = none;
  qc_flags = [];
  nodes = "n1" ∷ [];
  history = none;
}

abbrev rows : List (CellReading whole)
rows =
    row "a" "2026-06-01T10:00:00Z" "heat_index_c" (pos 41)
    ∷ row "a" "2026-06-01T13:00:00Z" "heat_index_c" (pos 42)
    ∷ row "b" "2026-06-01T10:00:00Z" "heat_index_c" (pos 43)
    ∷ row "a" "2026-06-01T10:00:00Z" "pm25_ugm3" (pos 10)
    ∷ row "a" "2026-06-01T13:00:00Z" "pm25_ugm3" (pos 60)
    ∷ []

-- The seconds of the day.
abbrev moment : String → Option ℤ
moment t =
    if str_eq t "2026-06-01T10:00:00Z"
    then some (pos 36000)
    else if str_eq t "2026-06-01T13:00:00Z"
    then some (pos 46800)
    else none

abbrev bucket_at : ℤ → String
bucket_at seconds = "2026-06-01T10:00:00Z"

build_feed-IsCurrent_example :
    IsCurrentFeed whole whole_library moment
      (resolve_thresholds whole whole_library [] (heat_pack whole))
      (bucket_or_empty whole (newest_bucket whole rows))
      (latest_by_cell whole "hourly-mean" rows)
      (alerting_parameters whole (heat_pack whole))
      rows
      (build_feed whole whole_library moment bucket_at "n" "u" [] (heat_pack whole) none rows)
build_feed-IsCurrent_example =
    build_feed-IsCurrent whole whole_library moment bucket_at "n" "u" [] (heat_pack whole) none rows

abbrev window : List ℤ → String → SeasonWindow
window months pack = record { months = months; pack = pack }

abbrev calendar : List SeasonWindow
calendar =
    window (pos 6 ∷ pos 7 ∷ pos 8 ∷ pos 9 ∷ pos 10 ∷ pos 11 ∷ []) "smoke"
    ∷ window (pos 12 ∷ pos 1 ∷ pos 2 ∷ []) "cold"
    ∷ window (pos 3 ∷ pos 4 ∷ pos 5 ∷ []) "heat"
    ∷ []

no_problems : season_calendar_problems whole calendar ≡ []
unfolding season_calendar_problems
no_problems = refl

resolve_pack-IsChosen_example :
    Among
      (IsChosen whole (pos 7) (resolve_pack whole (some "auto-season") calendar (some (pos 7))))
      calendar
resolve_pack-IsChosen_example = resolve_pack-IsChosen whole calendar (pos 7) no_problems refl

-- The feed of the rows: an alert for the heat and the air of "a", and "b" is stale and withdrawn.
feed_of_rows :
    (elim (build_feed whole whole_library moment bucket_at "n" "u" [] (heat_pack whole) none rows) [
      | none ↦ []
      | some feed ↦ map (λ a. a.severity) feed.alerts
    ])
    ≡ "Unhealthy for Sensitive Groups" ∷ "Danger" ∷ []
unfolding build_feed text_lt
feed_of_rows = refl
