-- ===== src/Qc/Examples.antt =====
-- Quality control at small inputs.
use Prim.Native.Char.{code}
use mathlib.Core.List.{Perm}
use swelter.Prelude.{
  ℕ, ◌+◌, ◌-◌, ◌*◌, ◌≡◌, refl, String, List, [], ◌∷◌, map, true, false, ==_refl, none, some, arith,
  get_or,
}
use swelter.Prelude.Int.{ℤ, pos, eqb_ℤ, ltb_ℤ}
use swelter.Float.Whole.{whole}
use swelter.Models.{Verdict, ok, range, spike, flatline, Observation, parameters, find_parameter}
use swelter.Qc.Flags.{at, flag_at, range_flag, flag_spikes, flag_flatline, series_flags}
use swelter.Qc.Flags.Spikes.{judged, flag_spikes-judged}
use swelter.Qc.Flags.Flatline.{SameLaws, IsSettled}
use swelter.Qc.Flags.Flatline.Loop.{flag_flatline-IsSettled}
use swelter.Qc.Flags.Refines.{Refined, series_flags-Refined}
use swelter.Qc.Apply.{apply}
use swelter.Qc.Apply.Keeps.{unlabelled, apply-perm}
use swelter.Qc.Twins.{pair_rounds, pair_by_nearest_timestamp, TwinAgreement}
use swelter.Qc.Twins.Pairing.{Matching, pair_by_nearest_timestamp-Matching, pair_rounds_suffice}
use swelter.Qc.Coverage.{Placed}
use swelter.Qc.Health.{NodeHealth}

-- A timestamp of these examples is a number of minutes.
minutes_from : ℕ → String → ℕ
minutes_from n String.[] = n * 60000000
minutes_from n (String.◌∷◌ c s) = minutes_from (n * 10 + (code c - 48)) s

minutes : String → ℕ
unfolding minutes_from
minutes = minutes_from 0

abbrev reading : String → String → ℤ → Observation whole
reading node time value = record {
  node_id = node;
  timestamp = time;
  parameter = "temp_c";
  value = value;
  unit = "degC";
  source = "native";
  calibration = "raw";
  qc = ok;
  uncertainty = none;
}

-- A spike at 30, a stuck stretch at 22 and a reading that no sensor can measure.
abbrev afternoon : List (Observation whole)
afternoon =
    reading "n1" "0" (pos 20)
    ∷ reading "n1" "1" (pos 30)
    ∷ reading "n1" "2" (pos 21)
    ∷ reading "n1" "3" (pos 99)
    ∷ reading "n1" "4" (pos 22)
    ∷ reading "n1" "5" (pos 22)
    ∷ reading "n1" "6" (pos 22)
    ∷ reading "n1" "7" (pos 22)
    ∷ reading "n1" "8" (pos 22)
    ∷ reading "n1" "9" (pos 22)
    ∷ []

series_flags-afternoon :
    series_flags whole afternoon
    ≡ ok ∷ spike ∷ ok ∷ range ∷ flatline ∷ flatline ∷ flatline ∷ flatline ∷ flatline ∷ flatline ∷ []
unfolding series_flags parameters find_parameter
series_flags-afternoon = refl

series_flags-Refined_example :
    Refined
      (get_or (map (range_flag whole) afternoon) 1 ok)
      (get_or (series_flags whole afternoon) 1 ok)
series_flags-Refined_example = series_flags-Refined whole afternoon 1

abbrev level : List ℤ
level = pos 22 ∷ pos 22 ∷ pos 22 ∷ pos 22 ∷ pos 22 ∷ pos 22 ∷ pos 23 ∷ []

abbrev clean : List Verdict
clean = ok ∷ ok ∷ ok ∷ ok ∷ ok ∷ ok ∷ ok ∷ []

same_whole_trans : (a b c : ℤ) → eqb_ℤ a b ≡ true → eqb_ℤ b c ≡ true → eqb_ℤ a c ≡ true
same_whole_trans a b c h k = ground arith

same_whole-sym : (a b : ℤ) → eqb_ℤ a b ≡ true → eqb_ℤ b a ≡ true
same_whole-sym a b h = ground arith

whole-SameLaws : (values : List ℤ) → SameLaws whole values
whole-SameLaws values = record {
  same_refl = λ i. ==_refl _;
  same_sym = λ i j. same_whole-sym (at whole values i) (at whole values j);
  same_trans =
      λ i j k. same_whole_trans (at whole values i) (at whole values j) (at whole values k);
}

flag_flatline-IsSettled_example : IsSettled whole level clean (flag_flatline whole level clean) 3
flag_flatline-IsSettled_example =
    flag_flatline-IsSettled whole level (whole-SameLaws level) clean refl 3 (omega arith)

abbrev peak : List ℤ
peak = pos 20 ∷ pos 30 ∷ pos 21 ∷ []

flag_spikes-judged_example :
    (let after = flag_spikes whole (some (pos 8)) peak (ok ∷ ok ∷ ok ∷ []) in
      flag_at whole after 1 ≡ judged whole (pos 8) peak 1 ok (flag_at whole after 0) ok)
flag_spikes-judged_example =
    flag_spikes-judged whole (pos 8) peak (ok ∷ ok ∷ ok ∷ []) refl 1 (omega arith)

apply-perm_example :
    Perm
      (map (unlabelled whole minutes) (apply whole minutes afternoon))
      (map (unlabelled whole minutes) afternoon)
apply-perm_example = apply-perm whole minutes afternoon

abbrev twin : List (Observation whole)
twin = reading "n2" "1" (pos 29) ∷ reading "n2" "3" (pos 20) ∷ []

pairs_in_time :
    pair_by_nearest_timestamp whole minutes (pos 30) afternoon twin ≡ pos 1 ∷ pos 79 ∷ []
unfolding pair_by_nearest_timestamp minutes
pairs_in_time = refl

pair_by_nearest_timestamp-Matching_example :
    Matching whole minutes
      (pos 30)
      afternoon
      twin
      (pair_by_nearest_timestamp whole minutes (pos 30) afternoon twin)
pair_by_nearest_timestamp-Matching_example =
    pair_by_nearest_timestamp-Matching whole minutes (pos 30) afternoon twin

pair_rounds_suffice_example :
    pair_rounds whole minutes (pos 30) (10 + 2 + 5) afternoon twin
    ≡ pair_by_nearest_timestamp whole minutes (pos 30) afternoon twin
pair_rounds_suffice_example = pair_rounds_suffice whole minutes (pos 30) afternoon twin 5

abbrev window_result : TwinAgreement whole minutes
window_result = record {
  window = record {
    node_a = "n1";
    node_b = "n2";
    parameter = "temp_c";
    start = "";
    end = "";
    agreement_threshold = none;
  };
  n_pairs = 4;
  residual_spread = pos 1;
  agreement_threshold = pos 2;
}

abbrev patchy : List (Observation whole)
patchy = reading "n1" "0" (pos 20) ∷ reading "n1" "70" (pos 20) ∷ reading "n1" "300" (pos 20) ∷ []

lt_whole-asym : (a b : ℤ) → ltb_ℤ a b ≡ true → ltb_ℤ b a ≡ false
lt_whole-asym a b h = ground arith

abbrev placed : List Placed
placed =
    record { node_id = "n1"; cell_id = "c1"; label = "Old Town" }
    ∷ record { node_id = "n2"; cell_id = "c1"; label = "Old Town" }
    ∷ record { node_id = "n3"; cell_id = "c2"; label = "Harbour" }
    ∷ []

abbrev two_nodes : List (NodeHealth whole minutes)
two_nodes =
    record {
      node_id = "n1";
      observations = 10;
      last_seen = "9";
      ok_count = 2;
      flagged = 8;
      online = true;
      completeness = pos 1;
    }
    ∷ record {
      node_id = "n2";
      observations = 1;
      last_seen = "9";
      ok_count = 1;
      flagged = 0;
      online = false;
      completeness = pos 1;
    }
    ∷ []
