-- ===== src/Alerts/Widespread.antt =====
-- src/swelter/alerts.py: an event is several areas whose own readings rose.
pub mod Rows
use swelter.Prelude.{
  ℕ, zero, suc, ◌≡◌, ◌⊎◌, String, List, length, All, All-Among, Among, Bool, true, false, ◌&&◌, leb,
  Option, none, some,
}
use swelter.Prelude.Int.{ℤ}
use swelter.Prelude.Text.Order.{str_eq→eq}
use swelter.Prelude.Text.Distinct.{AreDistinct}
use swelter.Prelude.Dict.{value_at-All, assign, All-assign}
use swelter.Float.{Float}
use swelter.Aggregate.{CellReading}
use swelter.Aggregate.Surface.{Nested, inner_at, reading_at, readings_for, newest_bucket}
use swelter.HazardPacks.{HazardPack, EventRule}
use swelter.Alerts.Widespread.Rows.{IsRowAt}
use swelter.Alerts.Event.{HazardEvent, previous_at, bucket_or_empty, sorted_areas, shift_back}

module _ (float : Float) (cells : List (CellReading float)) (rule : EventRule float)
    (newest : String) (earlier : Option String) where
  -- The area has a row of the newest hour and one of the earlier hour, both of the parameter and
  -- the window of the rule, of which the first is at the floor or above and rose enough.
  abbrev pub Rose : String → Type 0
  Rose area =
      (current previous : CellReading float) × (hour : String) × (earlier ≡ some hour)
      × IsRowAt float rule.parameter rule.aqi_window cells area (newest, current)
      × IsRowAt float rule.parameter rule.aqi_window cells area (hour, previous)
      × (float.le rule.floor current.mean ≡ true)
      × (float.le rule.rise (float.sub current.mean previous.mean) ≡ true)

  abbrev history : Nested float
  history = readings_for float rule.parameter rule.aqi_window cells

  -- Both readings of the area are there.
  abbrev pub are_found : Option (CellReading float) → Option (CellReading float) → Bool
  are_found none previous = false
  are_found (some current) none = false
  are_found (some current) (some previous) = true

  abbrev pub is_compared : String → Bool
  is_compared area =
      are_found (reading_at float area newest history) (previous_at float area earlier history)

  Compared : ℕ → List String → Type 0
  Compared zero areas = All (λ a. is_compared a ≡ false) areas
  Compared (suc n) areas = Among (λ a. is_compared a ≡ true) areas

  -- Both readings of the area are there, the newest is at the floor or above, and it rose enough.
  abbrev pub qualifies_with : Option (CellReading float) → Option (CellReading float) → Bool
  qualifies_with none previous = false
  qualifies_with (some current) none = false
  qualifies_with (some current) (some previous) =
      float.le rule.floor current.mean && float.le rule.rise (float.sub current.mean previous.mean)

  abbrev pub qualifies : String → Bool
  qualifies area =
      qualifies_with (reading_at float area newest history) (previous_at float area earlier history)

  -- The areas are all those that rose, and none of them twice.
  abbrev pub AreRisen : List String → Type 0
  AreRisen areas =
      All Rose areas
      × AreDistinct areas
      × ((area : String) → qualifies area ≡ true → Among (λ a. a ≡ area) areas)

  -- The event is active exactly if it was evaluated and enough areas rose; its areas are those that
  -- rose; and it was evaluated exactly if some area has both readings.
  pub IsWidespread : HazardEvent float → Type 0
  IsWidespread event =
      (event.active ≡ event.evaluated && leb rule.minimum_cells (length event.areas))
      × (event.qualifying_cells ≡ length event.areas)
      × AreRisen event.areas
      × (((event.evaluated ≡ true) × Among (λ a. is_compared a ≡ true) (sorted_areas float history))
          ⊎ ((event.evaluated ≡ false)
              × ((earlier ≡ none) ⊎ All (λ a. is_compared a ≡ false) (sorted_areas float history))))

module _ (float : Float) (moment : String → Option ℤ) (bucket_at : ℤ → String)
    (pack : HazardPack float) (cells : List (CellReading float)) where
  -- For a pack without a rule there is no event.
  pub IsJudged : Option (EventRule float) → Option (HazardEvent float) → Type 0
  IsJudged none none = Unit
  IsJudged none (some event) = ⊥
  IsJudged (some rule) none = ⊥
  IsJudged (some rule) (some event) =
      let newest = bucket_or_empty float (newest_bucket float cells) in
      let earlier = shift_back float moment bucket_at rule.lookback_hours (moment newest) in
      IsWidespread float cells rule newest earlier event
