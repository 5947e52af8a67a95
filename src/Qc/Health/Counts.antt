-- ===== src/Qc/Health/Counts.antt =====
-- The counts of the health report.
use swelter.Prelude.{
  ℕ, suc, ◌+◌, ◌≤◌, ◌≡◌, refl, ◌∙◌, String, List, [], ◌∷◌, Bool, length, length-append, keep_if,
  str_eq, All, arith, Bool-cases, inl, inr,
}
use swelter.Prelude.Sort.{sort_by, insert_by}
use swelter.Prelude.Group.{group, group_from, gather}
use swelter.Float.{Float}
use swelter.Models.{Observation, is_rejected}
use swelter.Qc.Health.{
  NodeHealth, HealthSummary, NodeStatus, offline, degraded, ok, one_node, each_node, by_node_id,
  node_health, node_status, count_status, count_statuses, health_summary,
}

module _ (float : Float) (instant : String → ℕ) where
  abbrev Groups : Type 0
  Groups = List (String × List (Observation float))

  abbrev size : Groups → ℕ
  size [] = 0
  size ((k, os) ∷ groups) = length os + size groups

  size-gather :
      (k : String) (o : Observation float) (groups : Groups)
      → size (gather str_eq k o groups) ≡ suc (size groups)
  unfolding gather
  size-gather k o [] = omega arith
  size-gather k o ((j, os) ∷ groups) = elim (Bool-cases (str_eq j k)) [
    | inl e ↦ rw e (omega (arith, length-append os (o ∷ [])))
    | inr e ↦ rw e (omega (arith, size-gather k o groups))
  ]

  size-group_from :
      (groups : Groups) (os : List (Observation float))
      → size (group_from str_eq (λ (o : Observation float). o.node_id) groups os)
        ≡ size groups + length os
  unfolding group_from
  size-group_from groups [] = omega arith
  size-group_from groups (o ∷ os) =
      omega (
        arith,
        size-group_from (gather str_eq o.node_id o groups) os,
        size-gather o.node_id o groups,
      )

  size-insert_by :
      (g : String × List (Observation float)) (groups : Groups)
      → size (insert_by (by_node_id float instant) g groups) ≡ length g.1 + size groups
  unfolding insert_by
  size-insert_by (k, os) [] = omega arith
  size-insert_by (k, os) ((j, ps) ∷ groups) =
      elim (Bool-cases (by_node_id float instant (k, os) (j, ps))) [
        | inl e ↦ rw (e, insert_by) refl
        | inr e ↦ rw (e, insert_by) (omega (arith, size-insert_by (k, os) groups))
      ]

  size-sort_by : (groups : Groups) → size (sort_by (by_node_id float instant) groups) ≡ size groups
  unfolding sort_by
  size-sort_by [] = refl
  size-sort_by ((k, os) ∷ groups) =
      size-insert_by (k, os) (sort_by (by_node_id float instant) groups)
      ∙ omega (arith, size-sort_by groups)

  abbrev pub observed : List (NodeHealth float instant) → ℕ
  observed [] = 0
  observed (h ∷ hs) = h.observations + observed hs

  -- A node reported something, and each of its readings is clean or flagged.
  pub record IsCounted (h : NodeHealth float instant) : Type 0 where
    pub reported : 1 ≤ h.observations
    pub split : h.observations ≡ h.ok_count + h.flagged

  length-keep_if :
      (p : Observation float → Bool) (os : List (Observation float))
      → length (keep_if p os) ≤ length os
  length-keep_if p [] = omega arith
  length-keep_if p (o ∷ os) = elim (Bool-cases (p o)) [
    | inl e ↦ rw (e, keep_if) (omega (arith, length-keep_if p os))
    | inr e ↦ rw (e, keep_if) (omega (arith, length-keep_if p os))
  ]

  module _ (round3 : float.F → float.F) (now : ℕ) (after interval : float.F) where
    one_node-IsCounted :
        (node_id : String) (o : Observation float) (os : List (Observation float))
        → IsCounted (one_node float instant round3 now after interval node_id o os)
    unfolding one_node
    one_node-IsCounted node_id o os = record {
      reported = omega arith;
      split = omega (arith, length-keep_if (λ (o : Observation float). is_rejected o.qc) (o ∷ os));
    }

    observed-each_node :
        (groups : Groups)
        → observed (each_node float instant round3 now after interval groups) ≡ size groups
    unfolding each_node
    observed-each_node [] = refl
    observed-each_node ((k, []) ∷ groups) = observed-each_node groups ∙ omega arith
    observed-each_node ((k, o ∷ os) ∷ groups) = omega (arith, observed-each_node groups)

    each_node-IsCounted :
        (groups : Groups) → All IsCounted (each_node float instant round3 now after interval groups)
    each_node-IsCounted [] = unfold each_node in tt
    each_node-IsCounted ((k, []) ∷ groups) = again k groups (each_node-IsCounted groups)
      where
        again :
            (k : String) (groups : Groups)
            → All IsCounted (each_node float instant round3 now after interval groups)
            → All IsCounted (each_node float instant round3 now after interval ((k, []) ∷ groups))
        again k groups h = unfold each_node in h
    each_node-IsCounted ((k, o ∷ os) ∷ groups) = more k o os groups (each_node-IsCounted groups)
      where
        more :
            (k : String) (o : Observation float) (os : List (Observation float)) (groups : Groups)
            → All IsCounted (each_node float instant round3 now after interval groups)
            → All IsCounted
                (each_node float instant round3 now after interval ((k, o ∷ os) ∷ groups))
        more k o os groups h = unfold each_node in (one_node-IsCounted k o os, h)

  -- For any readings: every node of the report has a reading, each of its readings is counted once,
  -- as clean or as flagged, and the report counts every reading that it was given once.
  pub node_health-IsCounted :
      (round3 : float.F → float.F) (observations : List (Observation float)) (latest : String)
      (after interval : float.F)
      → (let hs = node_health float instant round3 observations latest after interval in
          All IsCounted hs × (observed hs ≡ length observations))
  unfolding node_health group
  node_health-IsCounted round3 observations latest after interval =
      let groups = group_from str_eq (λ (o : Observation float). o.node_id) [] observations in
      let sorted = sort_by (by_node_id float instant) groups in
      (
        each_node-IsCounted round3 (instant latest) after interval sorted,
        observed-each_node round3 (instant latest) after interval sorted
            ∙ size-sort_by groups
            ∙ size-group_from [] observations
            ∙ omega arith,
      )

  abbrev counted : HealthSummary → ℕ
  counted s = s.ok_nodes + s.degraded_nodes + s.offline_nodes

  count_statuses-counted :
      (s : HealthSummary) (hs : List (NodeHealth float instant))
      → (counted (count_statuses float instant s hs) ≡ counted s + length hs)
        × ((count_statuses float instant s hs).total ≡ s.total)
  unfolding count_statuses
  count_statuses-counted s [] = (omega arith, refl)
  count_statuses-counted s (h ∷ hs) =
      let ih =
        count_statuses-counted (count_status float instant (node_status float instant h) s) hs in
      (one (node_status float instant h) ih.0, two (node_status float instant h) ih.1)
    where
      one :
          (v : NodeStatus) {n : ℕ}
          → n ≡ counted (count_status float instant v s) + length hs
          → n ≡ counted s + suc (length hs)
      one offline e = omega arith
      one degraded e = omega arith
      one ok e = omega arith

      two : (v : NodeStatus) {n : ℕ} → n ≡ (count_status float instant v s).total → n ≡ s.total
      two offline e = e
      two degraded e = e
      two ok e = e

  -- The summary counts every node of the report once, as ok, degraded or offline.
  pub health_summary-total :
      (hs : List (NodeHealth float instant))
      → (let s = health_summary float instant hs in
          (s.total ≡ length hs) × (s.total ≡ s.ok_nodes + s.degraded_nodes + s.offline_nodes))
  unfolding health_summary
  health_summary-total hs =
      let begin : HealthSummary = record {
        total = length hs;
        ok_nodes = 0;
        degraded_nodes = 0;
        offline_nodes = 0;
      } in
      let c = count_statuses-counted begin hs in (c.1, omega (arith, c.0, c.1))
