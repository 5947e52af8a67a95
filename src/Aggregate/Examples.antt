-- ===== src/Aggregate/Examples.antt =====
-- Runs of the aggregation at small inputs.
use swelter.Prelude.{
  ℕ, ◌≡◌, String, List, [], ◌∷◌, All, true, false, not, Option, none, some, arith, str_eq,
  if◌then◌else◌,
}
use swelter.Prelude.Int.{ℤ, pos}
use swelter.Float.Whole.{whole, whole_library}
use swelter.Models.{Observation, Verdict, ok, spike, raw, source_native}
use swelter.Aggregate.{Setting, CellReading, bucket_observations}
use swelter.Aggregate.Cells.{build_cells}
use swelter.Aggregate.RolledUp.{AreRolledUp, build_cells-AreRolledUp}
use swelter.Aggregate.Complete.{IsPlaced, build_cells-IsPlaced}
use swelter.Aggregate.Surface.{latest_by_cell, reading_at}
use swelter.Aggregate.Newest.{IsLatest, latest_by_cell-IsLatest}
use swelter.Aggregate.Derived.{exposure_cells, nowcast_cells}
use swelter.Aggregate.Derived.Exposed.{AreExposed, exposure_cells-AreExposed}
use swelter.Aggregate.Derived.Nowcast.{AreNowcast, nowcast_cells-AreNowcast}
use swelter.Aggregate.History.{before, no_windows}
use swelter.Aggregate.History.Final.{windows_after}
use swelter.Aggregate.History.Sliding.{nearby, before-AreNear}

abbrev reading : String → ℕ → Verdict → String → Option ℤ → Observation whole
reading parameter value qc calibration uncertainty = record {
  node_id = "n1";
  timestamp = "2026-06-01T10:00:00Z";
  parameter = parameter;
  value = pos value;
  unit = "";
  source = source_native;
  calibration = calibration;
  qc = qc;
  uncertainty = uncertainty;
}

abbrev batch : List (Observation whole)
batch =
    reading "heat_index_c" 39 ok "heat_index_c.derived-enclosure.n1@x" (some (pos 1))
    ∷ reading "pm25_ugm3" 41 spike raw none
    ∷ reading "pm25_ugm3" 12 ok raw none
    ∷ []

abbrev setting : Setting whole
setting = record {
  cell_name = λ lat lon. "38,-121";
  hour_bucket = λ t. "2026-06-01T10:00:00Z";
  locations = ("n1", (pos 38, pos 121)) ∷ [];
  wanted = "heat_index_c" ∷ "pm25_ugm3" ∷ [];
  references = [];
  monitor_label = [];
}

build_cells-AreRolledUp_example :
    AreRolledUp whole whole_library setting batch
      (build_cells whole whole_library (bucket_observations whole setting batch) [])
build_cells-AreRolledUp_example = build_cells-AreRolledUp whole whole_library setting batch []

build_cells-IsPlaced_example :
    All
      (IsPlaced whole whole_library setting batch
        (build_cells whole whole_library (bucket_observations whole setting batch) []))
      batch
build_cells-IsPlaced_example = build_cells-IsPlaced whole whole_library setting batch []

abbrev row : String → String → ℕ → CellReading whole
row bucket parameter mean = record {
  cell_id = "38,-121";
  label = "";
  lat = pos 38;
  lon = pos 121;
  parameter = parameter;
  bucket = bucket;
  mean = pos mean;
  n = 1;
  provisional = false;
  uncertainty = some (pos 1);
  mean_member_sigma = some (pos 1);
  aqi = none;
  category = some "Good";
  aqi_window = none;
  heat_category = none;
  air_category = none;
  compound = false;
  uncertainty_note = none;
  method = none;
  reference = none;
  qc_flags = [];
  nodes = "n1" ∷ [];
  history = none;
}

abbrev rows : List (CellReading whole)
rows =
    row "2026-06-01T08:00:00Z" "pm25_ugm3" 8
    ∷ row "2026-06-01T09:00:00Z" "pm25_ugm3" 9
    ∷ row "2026-06-01T10:00:00Z" "pm25_ugm3" 7
    ∷ row "2026-06-01T10:00:00Z" "heat_index_c" 41
    ∷ []

latest_by_cell-IsLatest_example :
    IsLatest whole "hourly-mean" "38,-121" "pm25_ugm3" rows
      (reading_at whole "38,-121" "pm25_ugm3" (latest_by_cell whole "hourly-mean" rows))
latest_by_cell-IsLatest_example =
    latest_by_cell-IsLatest whole "hourly-mean" "38,-121" "pm25_ugm3" rows

exposure_cells-AreExposed_example :
    AreExposed whole whole_library rows (exposure_cells whole whole_library rows)
exposure_cells-AreExposed_example = exposure_cells-AreExposed whole whole_library rows

nowcast_cells-AreNowcast_example :
    AreNowcast whole whole_library rows (nowcast_cells whole whole_library rows)
nowcast_cells-AreNowcast_example = nowcast_cells-AreNowcast whole whole_library rows

-- The seconds from the first hour.
abbrev instant : String → ℕ
instant t =
    if str_eq t "2026-06-01T08:00:00Z"
    then 0
    else if str_eq t "2026-06-01T09:00:00Z"
    then 3600
    else if str_eq t "2026-06-01T10:00:00Z"
    then 7200
    else 10800

abbrev month : String → ℕ
month t = 6

abbrev last_row : CellReading whole
last_row = row "2026-06-01T11:00:00Z" "pm25_ugm3" 8

before-AreNear_example :
    let ws = windows_after whole instant month 2 30 (no_windows whole instant month 2 30) rows in
    ((before whole instant month 2 30 ws last_row).every.entries
      ≡ nearby whole instant month 2 30 (λ x. true) rows 10800)
    × ((before whole instant month 2 30 ws last_row).known.entries
        ≡ nearby whole instant month 2 30 (λ x. not x.provisional) rows 10800)
before-AreNear_example = before-AreNear whole instant month 2 30 rows last_row (
  (omega arith, (omega arith, (omega arith, tt))),
  omega arith,
  (
    (omega arith, (omega arith, tt)),
    omega arith,
    ((omega arith, tt), omega arith, (tt, omega arith, tt)),
  ),
)
