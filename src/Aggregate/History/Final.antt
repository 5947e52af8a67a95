-- ===== src/Aggregate/History/Final.antt =====
-- src/swelter/aggregate.py: the windows behind the hours of a series.
use swelter.Prelude.{ℕ, String, List, [], ◌∷◌}
use swelter.Float.{Float}
use swelter.Aggregate.{CellReading}
use swelter.Aggregate.History.{Windows, after}

module _ (float : Float) (instant : String → ℕ) (month : String → ℕ)
    (min_hours window_days : ℕ) where
  -- The windows behind a series.
  abbrev pub windows_after :
      Windows float instant month min_hours window_days
      → List (CellReading float)
      → Windows float instant month min_hours window_days
  windows_after ws [] = ws
  windows_after ws (c ∷ cs) =
      windows_after (after float instant month min_hours window_days ws c) cs
