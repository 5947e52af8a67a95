-- ===== src/Qc/Gaps/Sound.antt =====
-- Which gaps `detect_gaps` reports.
use swelter.Prelude.{
  ℕ, ◌≡◌, refl, String, List, [], ◌∷◌, true, false, All, All-append, Bool-cases, inl, inr,
}
use swelter.Prelude.Sort.{sort_by, All-sort_by, IsSorted, sort_by-IsSorted}
use swelter.Prelude.Group.{group}
use swelter.Float.{Float}
use swelter.Models.{Observation}
use swelter.Qc.Apply.{pair_eq}
use swelter.Qc.Gaps.{Gap, by_instant, elapsed, series_gaps, group_gaps, longest_first, detect_gaps}

module _ (float : Float) (instant : String → ℕ) where
  open float use {F, mul, lt}

  -- The gap is longer than the limit, and its length is the time between its two ends.
  pub record IsGap (limit : F) (g : Gap float instant) : Type 0 where
    pub long : lt limit g.seconds ≡ true
    pub measured : g.seconds ≡ elapsed float instant g.start g.end

  series_gaps-IsGap :
      (limit : F) (node_id parameter : String) (series : List (Observation float))
      → All (IsGap limit) (series_gaps float instant limit node_id parameter series)
  unfolding series_gaps
  series_gaps-IsGap limit n p [] = tt
  series_gaps-IsGap limit n p (prev ∷ []) = tt
  series_gaps-IsGap limit n p (prev ∷ cur ∷ rest) =
      elim (Bool-cases (lt limit (elapsed float instant prev.timestamp cur.timestamp))) [
        | inl e ↦
            rw (e, series_gaps)
              (record { long = e; measured = refl }, series_gaps-IsGap limit n p (cur ∷ rest))
        | inr e ↦ rw (e, series_gaps) (series_gaps-IsGap limit n p (cur ∷ rest))
      ]

  group_gaps-IsGap :
      (limit : F) (groups : List ((String × String) × List (Observation float)))
      → All (IsGap limit) (group_gaps float instant limit groups)
  unfolding group_gaps
  group_gaps-IsGap limit [] = tt
  group_gaps-IsGap limit (((n, p), series) ∷ groups) =
      All-append (IsGap limit) _ _
        (series_gaps-IsGap limit n p (sort_by (by_instant float instant) series))
        (group_gaps-IsGap limit groups)

  -- The hypothesis is that of two lengths one is not below the other. Every gap that is reported is
  -- longer than the interval times the tolerance, its length is the time between its two ends,
  -- and no gap stands before a longer one.
  pub detect_gaps-IsGap :
      (total : (a b : F) → lt a b ≡ true → lt b a ≡ false) (observations : List (Observation float))
      (interval tolerance : F)
      → (let gaps = detect_gaps float instant observations interval tolerance in
          All (IsGap (mul interval tolerance)) gaps × IsSorted (longest_first float instant) gaps)
  unfolding detect_gaps
  detect_gaps-IsGap total observations interval tolerance =
      let groups =
        group pair_eq (λ (o : Observation float). (o.node_id, o.parameter)) observations in
      let found = group_gaps float instant (mul interval tolerance) groups in
      (
        All-sort_by (longest_first float instant) (IsGap (mul interval tolerance)) found
            (group_gaps-IsGap (mul interval tolerance) groups),
        sort_by-IsSorted (longest_first float instant) ordered found,
      )
    where
      ordered :
          (a b : Gap float instant)
          → longest_first float instant a b ≡ false
          → longest_first float instant b a ≡ true
      ordered a b h = elim (Bool-cases (lt a.seconds b.seconds)) [
        | inl e ↦ rw (total a.seconds b.seconds e) refl
        | inr e ↦ cc (rw e at h)
      ]
