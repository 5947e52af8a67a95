-- ===== src/Qc/Apply/Keeps.antt =====
-- `apply` labels readings: it drops none, invents none and changes nothing but the label.
use mathlib.Core.List.{Perm, map-append}
use mathlib.Core.List.Perm
use swelter.Prelude.{
  ℕ, suc, ◌≡◌, refl, ap, String, List, [], ◌∷◌, map, length, get_or, arith, All, All-append,
}
use swelter.Prelude.Sort.{sort_by, sort_by-perm, All-sort_by}
use swelter.Prelude.Group.{group, entries, group-perm}
use swelter.Float.{Float}
use swelter.Models.{Verdict, ok, Observation, with_qc}
use swelter.Qc.Flags.{series_flags, range_flag}
use swelter.Qc.Flags.Refines.{length-series_flags, Refined, series_flags-Refined}
use swelter.Qc.Apply.{pair_eq, by_instant, by_name, label, label_series, label_groups, apply}

module _ (float : Float) (instant : String → ℕ) where
  -- A reading without its label.
  abbrev pub unlabelled : Observation float → Observation float
  unlabelled o = record o { qc = ok }

  map-unlabelled-label :
      (series : List (Observation float)) (flags : List Verdict)
      → length flags ≡ length series
      → map unlabelled (label float instant series flags) ≡ map unlabelled series
  unfolding label with_qc
  map-unlabelled-label [] flags h = refl
  map-unlabelled-label (o ∷ os) [] h = absurd (omega arith)
  map-unlabelled-label (o ∷ os) (v ∷ vs) h =
      ap (λ l. unlabelled o ∷ l) (map-unlabelled-label os vs (omega arith))

  map-unlabelled-perm :
      (xs ys : List (Observation float)) → Perm xs ys → Perm (map unlabelled xs) (map unlabelled ys)
  map-unlabelled-perm xs ys p = Perm.map unlabelled p

  label_series-perm :
      (series : List (Observation float))
      → Perm (map unlabelled (label_series float instant series)) (map unlabelled series)
  unfolding label_series
  label_series-perm series =
      let sorted = sort_by (by_instant float instant) series in
      rw
        (map-unlabelled-label sorted (series_flags float sorted) (length-series_flags float sorted))
        (Perm.map unlabelled (sort_by-perm (by_instant float instant) series))

  label_groups-perm :
      (groups : List ((String × String) × List (Observation float)))
      → Perm
          (map unlabelled (label_groups float instant groups))
          (map unlabelled (entries pair_eq groups))
  unfolding label_groups
  label_groups-perm [] = Perm.refl _
  label_groups-perm ((k, series) ∷ groups) =
      rw (map-append unlabelled, map-append unlabelled)
        (Perm.append (label_series-perm series) (label_groups-perm groups))

  -- For every batch of readings, what `apply` returns is, apart from the labels, a permutation of
  -- the batch.
  pub apply-perm :
      (observations : List (Observation float))
      → Perm (map unlabelled (apply float instant observations)) (map unlabelled observations)
  unfolding apply
  apply-perm observations =
      let groups =
        group pair_eq (λ (o : Observation float). (o.node_id, o.parameter)) observations in
      Perm.trans
        (Perm.map unlabelled
          (sort_by-perm (by_name float instant) (label_groups float instant groups)))
        (Perm.trans (label_groups-perm groups) (
          Perm.map unlabelled (
            group-perm pair_eq (λ (o : Observation float). (o.node_id, o.parameter)) observations)))

  -- The label of a reading refines its range verdict.
  abbrev pub IsLabelled : Observation float → Type 0
  IsLabelled o = Refined (range_flag float o) o.qc

  label-IsLabelled :
      (series : List (Observation float)) (flags : List Verdict)
      → ((x : ℕ) → Refined (get_or (map (range_flag float) series) x ok) (get_or flags x ok))
      → All IsLabelled (label float instant series flags)
  unfolding label with_qc range_flag
  label-IsLabelled [] flags h = tt
  label-IsLabelled (o ∷ os) [] h = tt
  label-IsLabelled (o ∷ os) (v ∷ vs) h = (h 0, label-IsLabelled os vs (λ x. h (suc x)))

  label_groups-IsLabelled :
      (groups : List ((String × String) × List (Observation float)))
      → All IsLabelled (label_groups float instant groups)
  unfolding label_groups label_series
  label_groups-IsLabelled [] = tt
  label_groups-IsLabelled ((k, series) ∷ groups) =
      let sorted = sort_by (by_instant float instant) series in
      All-append IsLabelled (label float instant sorted (series_flags float sorted)) _
        (label-IsLabelled sorted (series_flags float sorted) (series_flags-Refined float sorted))
        (label_groups-IsLabelled groups)

  -- Every reading that `apply` returns has either the verdict of the range check, or a spike or a
  -- flatline where the range check found nothing.
  pub apply-IsLabelled :
      (observations : List (Observation float)) → All IsLabelled (apply float instant observations)
  unfolding apply
  apply-IsLabelled observations = All-sort_by (by_name float instant) IsLabelled _ (
      label_groups-IsLabelled
        (group pair_eq (λ (o : Observation float). (o.node_id, o.parameter)) observations))
