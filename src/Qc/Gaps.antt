-- ===== src/Qc/Gaps.antt =====
-- src/swelter/qc.py: `detect_gaps`.
pub mod Sound
use swelter.Prelude.{ℕ, ◌≡◌, String, List, [], ◌∷◌, ◌++◌, Bool, true, false, not, leb}
use swelter.Prelude.Int.{pos, sub_ℕ}
use swelter.Prelude.Sort.{sort_by}
use swelter.Prelude.Group.{group}
use swelter.Float.{Float}
use swelter.Models.{Observation}
use swelter.Qc.Apply.{pair_eq}

module _ (float : Float) (instant : String → ℕ) where
  open float use {F, decimal, mul, div, lt}

  pub record Gap : Type 0 where
    pub node_id : String
    pub parameter : String
    pub start : String
    pub end : String
    pub seconds : F

  abbrev pub by_instant : Observation float → Observation float → Bool
  by_instant a b = leb (instant a.timestamp) (instant b.timestamp)

  -- `(parse_timestamp(cur) - parse_timestamp(prev)).total_seconds()`
  abbrev pub elapsed : String → String → F
  elapsed prev cur = div (decimal (sub_ℕ (instant cur) (instant prev)) 0) (decimal (pos 1000000) 0)

  -- `for prev, cur in pairwise(series)`
  unfoldable pub series_gaps : F → String → String → List (Observation float) → List Gap
  series_gaps limit node_id parameter [] = []
  series_gaps limit node_id parameter (prev ∷ []) = []
  series_gaps limit node_id parameter (prev ∷ cur ∷ rest) =
      let further = series_gaps limit node_id parameter (cur ∷ rest) in
      let gap : Gap = record {
        node_id = node_id;
        parameter = parameter;
        start = prev.timestamp;
        end = cur.timestamp;
        seconds = elapsed prev.timestamp cur.timestamp;
      } in
      elim (lt limit (elapsed prev.timestamp cur.timestamp)) [
        | true ↦ gap ∷ further
        | false ↦ further
      ]

  unfoldable pub group_gaps : F → List ((String × String) × List (Observation float)) → List Gap
  unfolding series_gaps
  group_gaps limit [] = []
  group_gaps limit (((node_id, parameter), series) ∷ groups) =
      series_gaps limit node_id parameter (sort_by by_instant series) ++ group_gaps limit groups

  -- `key=lambda g: g.seconds, reverse=True`, which is stable too.
  abbrev pub longest_first : Gap → Gap → Bool
  longest_first a b = not (lt a.seconds b.seconds)

  unfoldable pub detect_gaps : List (Observation float) → F → F → List Gap
  unfolding group_gaps
  detect_gaps observations expected_interval tolerance = sort_by longest_first (
      group_gaps (mul expected_interval tolerance)
        (group pair_eq (λ o. (o.node_id, o.parameter)) observations))
