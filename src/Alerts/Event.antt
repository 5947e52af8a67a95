-- ===== src/Alerts/Event.antt =====
-- src/swelter/alerts.py: HazardEvent, `detect_event` and `_shift_hours`.
use swelter.Prelude.{
  ℕ, suc, ◌*◌, String, List, [], ◌∷◌, map, length, Bool, true, false, not, ◌&&◌, ◌||◌, ◌==◌, leb,
  if◌then◌else◌, Option, none, some,
}
use swelter.Prelude.Int.{ℤ, pos, ◌-ℤ◌}
use swelter.Prelude.Text.{text_lt}
use swelter.Prelude.Sort.{sort_by}
use swelter.Float.{Float}
use swelter.Aggregate.{CellReading}
use swelter.Aggregate.Surface.{Nested, reading_at, newest_bucket, readings_for}
use swelter.HazardPacks.{HazardPack, EventRule}

-- What a `reason` says: no two hours to compare, or how many of how many cells rose.
pub data EventReason : Type 0 where
  no_rise_measured : EventReason
  risen_of : ℕ → ℕ → EventReason

module _ (float : Float) where
  open float use {F, sub, le}

  pub record HazardEvent : Type 0 where
    pub rule_id : String
    pub parameter : String
    pub aqi_window : String
    pub evaluated : Bool
    pub active : Bool
    pub qualifying_cells : ℕ
    pub minimum_cells : ℕ
    pub floor : F
    pub rise : F
    pub lookback_hours : ℕ
    pub bucket : String
    pub reason : EventReason
    pub areas : List String

  -- `sorted(latest)`
  unfoldable pub sorted_areas : Nested float → List String
  unfolding sort_by
  sorted_areas latest = sort_by (λ a b. not (text_lt b a)) (map (λ e. e.0) latest)

  -- `surface.newest_bucket() or ""`
  abbrev pub bucket_or_empty : Option String → String
  bucket_or_empty none = ""
  bucket_or_empty (some bucket) = bucket

  abbrev pub has_risen : EventRule float → CellReading float → CellReading float → Bool
  has_risen rule current previous =
      le rule.floor current.mean && le rule.rise (sub current.mean previous.mean)

  -- The areas that qualify and the number of those that can be compared, with one more area.
  abbrev pub count_area :
      EventRule float
      → String
      → Option (CellReading float)
      → Option (CellReading float)
      → List String × ℕ
      → List String × ℕ
  count_area rule area none previous rest = rest
  count_area rule area (some current) none rest = rest
  count_area rule area (some current) (some previous) rest =
      (if has_risen rule current previous then area ∷ rest.0 else rest.0, suc rest.1)

  abbrev pub previous_at : String → Option String → Nested float → Option (CellReading float)
  previous_at area none history = none
  previous_at area (some earlier) history = reading_at float area earlier history

  unfoldable pub count_areas :
      EventRule float → String → Option String → Nested float → List String → List String × ℕ
  unfolding reading_at
  count_areas rule newest earlier history [] = ([], 0)
  count_areas rule newest earlier history (area ∷ areas) =
      count_area rule area (reading_at float area newest history) (previous_at area earlier history)
        (count_areas rule newest earlier history areas)

  abbrev pub event_of :
      HazardPack float
      → EventRule float
      → String
      → Bool
      → Bool
      → List String
      → EventReason
      → HazardEvent
  event_of pack rule newest evaluated active areas reason = record {
    rule_id = pack.pack_id;
    parameter = rule.parameter;
    aqi_window = rule.aqi_window;
    evaluated = evaluated;
    active = active;
    qualifying_cells = length areas;
    minimum_cells = rule.minimum_cells;
    floor = rule.floor;
    rise = rule.rise;
    lookback_hours = rule.lookback_hours;
    bucket = newest;
    reason = reason;
    areas = areas;
  }

  abbrev pub lacks_hour : Option String → Bool
  lacks_hour none = true
  lacks_hour (some s) = false

  unfoldable pub judge_event :
      HazardPack float → EventRule float → String → Option String → List String × ℕ → HazardEvent
  judge_event pack rule newest earlier counted =
      if lacks_hour earlier || (counted.1 == 0)
      then event_of pack rule newest false false [] no_rise_measured
      else event_of pack rule newest true (leb rule.minimum_cells (length counted.0)) counted.0
          (risen_of (length counted.0) counted.1)

  -- The seconds of a timestamp, where it is one, and the text of the hour are parameters.
  module _ (moment : String → Option ℤ) (bucket_at : ℤ → String) where
    abbrev pub shift_back : ℕ → Option ℤ → Option String
    shift_back hours none = none
    shift_back hours (some seconds) = some (bucket_at (seconds -ℤ pos (hours * 3600)))

    unfoldable pub apply_rule :
        HazardPack float → List (CellReading float) → Option (EventRule float) → Option HazardEvent
    unfolding judge_event count_areas sorted_areas newest_bucket readings_for
    apply_rule pack cells none = none
    apply_rule pack cells (some rule) =
        let newest = bucket_or_empty (newest_bucket float cells) in
        let history = readings_for float rule.parameter rule.aqi_window cells in
        let earlier = shift_back rule.lookback_hours (moment newest) in
        some (
          judge_event pack rule newest earlier
            (count_areas rule newest earlier history (sorted_areas history)))

    unfoldable pub detect_event : HazardPack float → List (CellReading float) → Option HazardEvent
    unfolding apply_rule
    detect_event pack cells = apply_rule pack cells pack.event_rule
