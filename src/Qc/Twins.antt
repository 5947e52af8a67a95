-- ===== src/Qc/Twins.antt =====
-- src/swelter/qc.py: the agreement of two nodes that stand at one place (`twin_agreement`).
-- `statistics.pstdev` and `round` are parameters, as is the instant of a timestamp.
pub mod Pairing
use swelter.Prelude.{
  ℕ, zero, suc, ◌+◌, ◌-◌, ◌≡◌, String, List, [], ◌∷◌, map, Bool, true, false, ◌&&◌, ◌||◌, not,
  if◌then◌else◌, ltb, leb, Option, none, some, str_eq, length, keep_if,
}
use swelter.Prelude.Int.{ℤ, pos, sub_ℕ}
use swelter.Prelude.Sort.{sort_by}
use swelter.Float.{Float}
use swelter.Models.{Observation}

abbrev pub min_twin_pairs : ℕ
min_twin_pairs = 3

-- `status` of `TwinAgreement`
pub data TwinStatus : Type 0 where
  cross_checked diverged insufficient_data : TwinStatus

module _ (float : Float) (instant : String → ℕ) where
  open float use {F, decimal, sub, div, abs, lt, le}

  -- `TwinWindow` of config.py
  pub record TwinWindow : Type 0 where
    pub node_a : String
    pub node_b : String
    pub parameter : String
    pub start : String
    pub end : String
    pub agreement_threshold : Option F

  pub record TwinAgreement : Type 0 where
    pub window : TwinWindow
    pub n_pairs : ℕ
    pub residual_spread : F
    pub agreement_threshold : F

  unfoldable pub is_cross_checked : TwinAgreement → Bool
  is_cross_checked a = leb min_twin_pairs a.n_pairs && le a.residual_spread a.agreement_threshold

  unfoldable pub status : TwinAgreement → TwinStatus
  status a =
      if ltb a.n_pairs min_twin_pairs
      then insufficient_data
      else if le a.residual_spread a.agreement_threshold
      then cross_checked
      else diverged

  abbrev pub by_time : Observation float → Observation float → Bool
  by_time a b = leb (instant a.timestamp) (instant b.timestamp)

  abbrev after_start : Option ℕ → ℕ → Bool
  after_start none t = true
  after_start (some s) t = leb s t

  abbrev before_end : Option ℕ → ℕ → Bool
  before_end none t = true
  before_end (some e) t = leb t e

  unfoldable pub window_series :
      List (Observation float) → String → String → Option ℕ → Option ℕ → List (Observation float)
  window_series obs node_id parameter start end = sort_by by_time (
      keep_if
        (λ o.
          str_eq o.node_id node_id
          && (str_eq o.parameter parameter
              && (after_start start (instant o.timestamp) && before_end end (instant o.timestamp))))
        obs)

  -- `total_seconds()` of a difference that is given in microseconds.
  abbrev pub seconds : ℤ → F
  seconds micros = div (decimal micros 0) (decimal (pos 1000000) 0)

  -- The seconds by which b is later than a.
  abbrev pub delta : Observation float → Observation float → F
  delta a b = seconds (sub_ℕ (instant b.timestamp) (instant a.timestamp))

  -- The loop of `_pair_by_nearest_timestamp`: the rounds that are left, and what is left of each
  -- series, which stands for the pointers i and j.
  unfoldable pub pair_rounds : F → ℕ → List (Observation float) → List (Observation float) → List F
  pair_rounds tol zero xs ys = []
  pair_rounds tol (suc k) [] ys = pair_rounds tol k [] ys
  pair_rounds tol (suc k) (a ∷ xs) [] = pair_rounds tol k (a ∷ xs) []
  pair_rounds tol (suc k) (a ∷ xs) (b ∷ ys) = elim (le (abs (delta a b)) tol) [
    | true ↦ sub a.value b.value ∷ pair_rounds tol k xs ys
    | false ↦ elim (lt (delta a b) (decimal (pos 0) 0)) [
      | true ↦ pair_rounds tol k (a ∷ xs) ys
      | false ↦ pair_rounds tol k xs (b ∷ ys)
    ]
  ]

  unfoldable pub pair_by_nearest_timestamp :
      F → List (Observation float) → List (Observation float) → List F
  unfolding pair_rounds
  pair_by_nearest_timestamp tol xs ys = pair_rounds tol (length xs + length ys) xs ys

  -- `TWIN_AGREEMENT_THRESHOLD.get(parameter, _DEFAULT_TWIN_THRESHOLD)`
  unfoldable pub default_threshold : String → F
  default_threshold p =
      if str_eq p "temp_c"
      then decimal (pos 15) 1
      else if str_eq p "pm10_ugm3" || str_eq p "no2_ppb"
      then decimal (pos 10) 0
      else if str_eq p "heat_index_c" || str_eq p "wbgt_c"
      then decimal (pos 2) 0
      else decimal (pos 5) 0

  unfoldable pub resolve_twin_threshold : TwinWindow → F
  unfolding default_threshold
  resolve_twin_threshold window = elim window.agreement_threshold [
    | some t ↦ t
    | none ↦ default_threshold window.parameter
  ]

  -- `parse_timestamp(window.start) if window.start else None`
  abbrev bound : String → Option ℕ
  bound text = if str_eq text "" then none else some (instant text)

  -- The spread: `round(pstdev(residuals), 6) if residuals else 0.0`.
  abbrev spread : (List F → F) → List F → F
  spread rounded_pstdev [] = decimal (pos 0) 0
  spread rounded_pstdev (r ∷ rs) = rounded_pstdev (r ∷ rs)

  -- The body of the loop of `twin_agreement`.
  unfoldable pub agreement :
      (List F → F) → F → List (Observation float) → TwinWindow → TwinAgreement
  unfolding window_series pair_by_nearest_timestamp resolve_twin_threshold
  agreement rounded_pstdev tol obs window =
      let start = bound window.start in
      let end = bound window.end in
      let xs = window_series obs window.node_a window.parameter start end in
      let ys = window_series obs window.node_b window.parameter start end in
      let residuals = pair_by_nearest_timestamp tol xs ys in
      record {
        window = window;
        n_pairs = length residuals;
        residual_spread = spread rounded_pstdev residuals;
        agreement_threshold = resolve_twin_threshold window;
      }

  unfoldable pub twin_agreement :
      (List F → F) → F → List (Observation float) → List TwinWindow → List TwinAgreement
  unfolding agreement
  twin_agreement rounded_pstdev tol obs windows = map (agreement rounded_pstdev tol obs) windows
