-- ===== src/Qc/Apply.antt =====
-- src/swelter/qc.py: `apply`, the quality control of a batch of observations.
pub mod Keeps
use swelter.Prelude.{
  ℕ, ◌≡◌, String, List, [], ◌∷◌, ◌++◌, map, Bool, true, false, ◌&&◌, ◌||◌, not, leb, str_eq,
}
use swelter.Prelude.Text.{text_lt}
use swelter.Prelude.Sort.{sort_by}
use swelter.Prelude.Group.{group}
use swelter.Float.{Float}
use swelter.Models.{Verdict, Observation, with_qc}
use swelter.Qc.Flags.{series_flags}

abbrev pub pair_eq : String × String → String × String → Bool
pair_eq a b = str_eq a.0 b.0 && str_eq a.1 b.1

-- The instant of a timestamp is a parameter: `parse_timestamp` reads what `format_timestamp` wrote,
-- so it does not raise here.
module _ (float : Float) (instant : String → ℕ) where
  abbrev Reading : Type 0
  Reading = Observation float

  -- `key=lambda o: parse_timestamp(o.timestamp)`
  abbrev pub by_instant : Reading → Reading → Bool
  by_instant a b = leb (instant a.timestamp) (instant b.timestamp)

  -- `key=lambda o: (o.node_id, o.parameter, o.timestamp)`
  abbrev pub by_name : Reading → Reading → Bool
  by_name a b =
      text_lt a.node_id b.node_id
      || (str_eq a.node_id b.node_id
          && (text_lt a.parameter b.parameter
              || (str_eq a.parameter b.parameter && not (text_lt b.timestamp a.timestamp))))

  -- `obs.with_qc(flag) for obs, flag in zip(series, flags, strict=True)`
  unfoldable pub label : List Reading → List Verdict → List Reading
  label [] flags = []
  label (o ∷ os) [] = []
  label (o ∷ os) (v ∷ vs) = with_qc float o v ∷ label os vs

  unfoldable pub label_series : List Reading → List Reading
  unfolding label
  label_series series =
      let sorted = sort_by by_instant series in label sorted (series_flags float sorted)

  -- `for series in grouped.values()`
  unfoldable pub label_groups : List ((String × String) × List Reading) → List Reading
  unfolding label_series
  label_groups [] = []
  label_groups ((k, series) ∷ groups) = label_series series ++ label_groups groups

  unfoldable pub apply : List Reading → List Reading
  unfolding label_groups
  apply observations =
      sort_by by_name (label_groups (group pair_eq (λ o. (o.node_id, o.parameter)) observations))
