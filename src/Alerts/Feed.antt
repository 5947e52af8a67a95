-- ===== src/Alerts/Feed.antt =====
-- src/swelter/alerts.py: Alert, StaleArea, AlertFeed and `build_feed`.
use swelter.Prelude.{
  ◌/◌, String, List, [], ◌∷◌, ◌++◌, keep_if, Bool, true, false, ◌||◌, if◌then◌else◌, Option, none,
  some, str_eq,
}
use swelter.Prelude.Int.{ℤ, pos, negsuc, ◌-ℤ◌}
use swelter.Prelude.Text.{join}
use swelter.Prelude.Dict.{value_at}
use swelter.Float.{Float}
use swelter.Float.Library.{Library}
use swelter.Aggregate.{CellReading, Placement}
use swelter.Aggregate.Surface.{inner_at, Nested, latest_by_cell, newest_bucket}
use swelter.HazardPacks.{HazardPack, alerting_parameters}
use swelter.Alerts.{text_or, PackSelection, Floors, Crossing, crossing, resolve_thresholds}
use swelter.Alerts.Event.{HazardEvent, sorted_areas, bucket_or_empty, detect_event}

-- `int(seconds // 3600)`
abbrev pub whole_hours : ℤ → ℤ
whole_hours (pos n) = pos (n / 3600)
whole_hours (negsuc n) = negsuc (n / 3600)

-- The property `id` of an alert and of a stale area.
abbrev pub id_of : String → String → String
id_of area_id parameter = join area_id (join "|" parameter)

unfoldable pub unit_for : String → String
unit_for parameter =
    if str_eq parameter "heat_index_c" || str_eq parameter "wind_chill_c"
    then "degC"
    else if str_eq parameter "pm25_ugm3"
    then "AQI"
    else "level"

module _ (float : Float) (library : Library float) where
  open float use {F}
  open library use {round}

  pub record Alert : Type 0 where
    pub area_id : String
    pub area : String
    pub lat : F
    pub lon : F
    pub parameter : String
    pub bucket : String
    pub value : F
    pub unit : String
    pub severity : String
    pub threshold : F
    pub provisional : Bool
    pub aqi : Option ℤ
    pub nodes : List String
    -- `history_context`, or `history_context_reason`
    pub history : Option (Placement float)

  pub record StaleArea : Type 0 where
    pub area_id : String
    pub area : String
    pub lat : F
    pub lon : F
    pub parameter : String
    pub last_bucket : String
    pub hours_since_last_reading : Option ℤ
    pub withdrawn : Bool
    pub nodes : List String

  pub record AlertFeed : Type 0 where
    pub network : String
    pub bucket : String
    pub thresholds : Floors float library
    pub alerts : List Alert
    pub base_url : String
    pub stale : List StaleArea
    pub event : Option (HazardEvent float)
    pub aqi_window : String
    pub pack_selection : Option PackSelection

  unfoldable pub for_area : String → AlertFeed → AlertFeed
  for_area area_id feed = record {
    network = feed.network;
    bucket = feed.bucket;
    thresholds = feed.thresholds;
    alerts = keep_if (λ a. str_eq a.area_id area_id) feed.alerts;
    base_url = feed.base_url;
    stale = keep_if (λ s. str_eq s.area_id area_id) feed.stale;
    event = feed.event;
    aqi_window = feed.aqi_window;
    pack_selection = feed.pack_selection;
  }

  abbrev pub alert_of : String → String → CellReading float → String × F → Alert
  alert_of area_id parameter reading crossed = record {
    area_id = area_id;
    area = text_or (some reading.label) area_id;
    lat = reading.lat;
    lon = reading.lon;
    parameter = parameter;
    bucket = reading.bucket;
    value = round 3 reading.mean;
    unit = unit_for parameter;
    severity = crossed.0;
    threshold = crossed.1;
    provisional = reading.provisional;
    aqi = if str_eq parameter "pm25_ugm3" then reading.aqi else none;
    nodes = reading.nodes;
    history = reading.history;
  }

  abbrev pub is_crossing : Crossing float library → Bool
  is_crossing none = false
  is_crossing (some crossed) = true

  -- The alerts and the stale areas that one reading adds, or that the loop has so far.
  abbrev pub Raised : Type 0
  Raised = List Alert × List StaleArea

  -- The seconds of a timestamp, where it is one, are a parameter.
  module _ (moment : String → Option ℤ) where
    abbrev pub hours_of : Option ℤ → Option ℤ → Option ℤ
    hours_of none end = none
    hours_of (some start) none = none
    hours_of (some start) (some end) = some (whole_hours (end -ℤ start))

    abbrev pub hours_between : String → String → Option ℤ
    hours_between earlier later = hours_of (moment earlier) (moment later)

    abbrev pub stale_of :
        String → String → CellReading float → String → Crossing float library → StaleArea
    stale_of area_id parameter reading newest crossed = record {
      area_id = area_id;
      area = text_or (some reading.label) area_id;
      lat = reading.lat;
      lon = reading.lon;
      parameter = parameter;
      last_bucket = reading.bucket;
      hours_since_last_reading = hours_between reading.bucket newest;
      withdrawn = is_crossing crossed;
      nodes = reading.nodes;
    }

    -- What a reading adds, by whether it is current and what it crosses.
    abbrev pub raise_for :
        String
        → String
        → String
        → CellReading float
        → Bool
        → Option (Crossing float library)
        → Option Raised
    raise_for newest area_id parameter reading current none = none
    raise_for newest area_id parameter reading false (some crossed) =
        some ([], stale_of area_id parameter reading newest crossed ∷ [])
    raise_for newest area_id parameter reading true (some none) = some ([], [])
    raise_for newest area_id parameter reading true (some (some crossed)) =
        some (alert_of area_id parameter reading crossed ∷ [], [])

    module _ (floors : Floors float library) (newest : String) where
      abbrev pub raise_found : String → String → Option (CellReading float) → Option Raised
      raise_found area_id parameter none = some ([], [])
      raise_found area_id parameter (some reading) =
          raise_for newest area_id parameter reading (str_eq reading.bucket newest)
            (crossing float library parameter reading floors)

      -- A raise ends the loop.
      abbrev pub and_raised : Option Raised → Option Raised → Option Raised
      and_raised none rest = none
      and_raised (some r) none = none
      and_raised (some r) (some rest) = some (r.0 ++ rest.0, r.1 ++ rest.1)

      -- The inner loop, over the parameters of the pack.
      unfoldable pub scan_parameters :
          String → List (String × CellReading float) → List String → Option Raised
      unfolding crossing value_at
      scan_parameters area_id by_param [] = some ([], [])
      scan_parameters area_id by_param (p ∷ ps) =
          and_raised (raise_found area_id p (value_at str_eq p by_param))
            (scan_parameters area_id by_param ps)

      -- The outer loop, over the areas in order.
      unfoldable pub scan_areas : List String → Nested float → List String → Option Raised
      unfolding scan_parameters
      scan_areas params latest [] = some ([], [])
      scan_areas params latest (area_id ∷ areas) =
          and_raised (scan_parameters area_id (inner_at float area_id latest) params)
            (scan_areas params latest areas)

    -- Where the text of an instant, for the lookback of an event, is a parameter.
    unfoldable pub build_feed :
        (ℤ → String)
        → String
        → String
        → List (String × F)
        → HazardPack float
        → Option PackSelection
        → List (CellReading float)
        → Option AlertFeed
    unfolding resolve_thresholds latest_by_cell newest_bucket scan_areas sorted_areas detect_event
        alerting_parameters
    build_feed bucket_at network base_url overrides pack selection cells =
        let floors = resolve_thresholds float library overrides pack in
        let latest = latest_by_cell float pack.aqi_window cells in
        let newest = bucket_or_empty float (newest_bucket float cells) in
        elim (scan_areas floors newest (alerting_parameters float pack) latest
          (sorted_areas float latest)) [
            | none ↦ none
            | some raised ↦ some (record {
              network = network;
              bucket = newest;
              thresholds = floors;
              alerts = raised.0;
              base_url = base_url;
              stale = raised.1;
              event = detect_event float moment bucket_at pack cells;
              aqi_window = pack.aqi_window;
              pack_selection = selection;
            })
          ]
