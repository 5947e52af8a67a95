-- ===== src/Qc/Health.antt =====
-- src/swelter/qc.py: `node_health` and the summary of `health_report`.
-- Rounding is a parameter, as is the instant of a timestamp.
pub mod Counts
use swelter.Prelude.{
  ℕ, zero, suc, ◌+◌, ◌-◌, ◌≡◌, String, List, [], ◌∷◌, map, Bool, true, false, not, ◌||◌,
  if◌then◌else◌, any_of, str_eq, leb, length, keep_if, ltb,
}
use swelter.Prelude.Int.{pos, sub_ℕ}
use swelter.Prelude.Text.{text_lt}
use swelter.Prelude.Sort.{sort_by}
use swelter.Prelude.Group.{group}
use swelter.Float.{Float}
use swelter.Models.{Observation, is_rejected}

-- The three values of `NodeHealth.status`.
pub data NodeStatus : Type 0 where
  offline degraded ok : NodeStatus

-- The counts of `health_report` by status.
pub record HealthSummary : Type 0 where
  pub total : ℕ
  pub ok_nodes : ℕ
  pub degraded_nodes : ℕ
  pub offline_nodes : ℕ

module _ (float : Float) (instant : String → ℕ) where
  open float use {F, of_nat, decimal, add, mul, div, lt, le, eq}

  pub record NodeHealth : Type 0 where
    pub node_id : String
    pub observations : ℕ
    pub last_seen : String
    pub ok_count : ℕ
    pub flagged : ℕ
    pub online : Bool
    pub completeness : F

  unfoldable pub flagged_fraction : NodeHealth → F
  flagged_fraction h =
      if ltb 0 h.observations
      then div (of_nat h.flagged) (of_nat h.observations)
      else decimal (pos 0) 0

  unfoldable pub node_status : NodeHealth → NodeStatus
  unfolding flagged_fraction
  node_status h =
      if not h.online
      then offline
      else if lt h.completeness (decimal (pos 95) 2) || lt (decimal (pos 1) 1) (flagged_fraction h)
      then degraded
      else ok

  abbrev seconds : ℕ → ℕ → F
  seconds later earlier = div (decimal (sub_ℕ later earlier) 0) (decimal (pos 1000000) 0)

  -- `max(obs_list, key=...)`: the first of the readings with the latest instant.
  unfoldable pub latest : Observation float → List (Observation float) → Observation float
  latest best [] = best
  latest best (o ∷ os) =
      latest (if leb (instant o.timestamp) (instant best.timestamp) then best else o) os

  unfoldable pub earliest : Observation float → List (Observation float) → Observation float
  earliest best [] = best
  earliest best (o ∷ os) =
      earliest (if leb (instant best.timestamp) (instant o.timestamp) then best else o) os

  -- `len({o.parameter for o in obs_list})`
  unfoldable pub distinct_parameters : List (Observation float) → ℕ
  distinct_parameters [] = 0
  distinct_parameters (o ∷ os) =
      let rest = distinct_parameters os in
      if any_of (λ (p : Observation float). str_eq p.parameter o.parameter) os
      then rest
      else suc rest

  unfoldable pub flagged_count : List (Observation float) → ℕ
  flagged_count os = length (keep_if (λ (o : Observation float). is_rejected o.qc) os)

  -- The body of the loop of `node_health`; no group is empty. `round3` rounds to three places.
  unfoldable pub one_node :
      (F → F) → ℕ → F → F → String → Observation float → List (Observation float) → NodeHealth
  unfolding latest earliest distinct_parameters flagged_count
  one_node round3 now offline_after interval node_id o os =
      let all = o ∷ os in
      let last = latest o os in
      let span = seconds (instant last.timestamp) (instant (earliest o os).timestamp) in
      let expected = mul (add (div span interval) (of_nat 1)) (of_nat (distinct_parameters all)) in
      let ratio = div (of_nat (length all)) expected in
      let whole = decimal (pos 1) 0 in
      let completeness =
        (if eq expected (decimal (pos 0) 0)
          then whole
          else if lt ratio whole
          then ratio
          else whole) in
      record {
        node_id = node_id;
        observations = length all;
        last_seen = last.timestamp;
        ok_count = length all - flagged_count all;
        flagged = flagged_count all;
        online = le (seconds now (instant last.timestamp)) offline_after;
        completeness = round3 completeness;
      }

  unfoldable pub each_node :
      (F → F) → ℕ → F → F → List (String × List (Observation float)) → List NodeHealth
  unfolding one_node
  each_node round3 now offline_after interval [] = []
  each_node round3 now offline_after interval ((node_id, []) ∷ groups) =
      each_node round3 now offline_after interval groups
  each_node round3 now offline_after interval ((node_id, o ∷ os) ∷ groups) =
      one_node round3 now offline_after interval node_id o os
      ∷ each_node round3 now offline_after interval groups

  -- `sorted(by_node.items())`: the node ids differ, so the lists are not compared.
  abbrev pub by_node_id :
      String × List (Observation float) → String × List (Observation float) → Bool
  by_node_id a b = not (text_lt b.0 a.0)

  unfoldable pub node_health : (F → F) → List (Observation float) → String → F → F → List NodeHealth
  unfolding each_node
  node_health round3 observations latest_timestamp offline_after interval =
      each_node round3 (instant latest_timestamp) offline_after interval
        (sort_by by_node_id (group str_eq (λ (o : Observation float). o.node_id) observations))

  -- `summary[h.status] += 1`
  abbrev pub count_status : NodeStatus → HealthSummary → HealthSummary
  count_status offline s = record s { offline_nodes = s.offline_nodes + 1 }
  count_status degraded s = record s { degraded_nodes = s.degraded_nodes + 1 }
  count_status ok s = record s { ok_nodes = s.ok_nodes + 1 }

  unfoldable pub count_statuses : HealthSummary → List NodeHealth → HealthSummary
  unfolding node_status
  count_statuses s [] = s
  count_statuses s (h ∷ hs) = count_statuses (count_status (node_status h) s) hs

  unfoldable pub health_summary : List NodeHealth → HealthSummary
  unfolding count_statuses
  health_summary hs =
      count_statuses
        (record { total = length hs; ok_nodes = 0; degraded_nodes = 0; offline_nodes = 0 }) hs
