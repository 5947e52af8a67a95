-- ===== src/Models/Air.antt =====
-- src/swelter/models.py: the air-quality index of PM2.5 and the NowCast. `none` stands for a raise,
-- and for the `None` of too few hours.
pub mod Categories
use swelter.Prelude.{
  ℕ, suc, String, List, [], ◌∷◌, take, length, Bool, ◌&&◌, if◌then◌else◌, Option, none, some, ltb,
}
use swelter.Prelude.Int.{ℤ, pos, negsuc}
use swelter.Float.{Float}
use swelter.Float.Library.{Library}

module _ (float : Float) (library : Library float) where
  open float use {F, of_nat, decimal, add, sub, mul, div, lt, le, is_nan}
  open library use {floor, nearest, power, sum}

  -- A row of `_PM25_AQI`: the concentrations, the indices and the category of a band.
  pub record Band : Type 0 where
    pub c_lo : F
    pub c_hi : F
    pub a_lo : ℕ
    pub a_hi : ℕ
    pub label : String

  abbrev band : ℕ → ℕ → ℕ → ℕ → String → Band
  band c_lo c_hi a_lo a_hi label = record {
    c_lo = decimal (pos c_lo) 1;
    c_hi = decimal (pos c_hi) 1;
    a_lo = a_lo;
    a_hi = a_hi;
    label = label;
  }

  unfoldable pub bands : List Band
  bands =
      band 0 90 0 50 "Good"
      ∷ band 91 354 51 100 "Moderate"
      ∷ band 355 554 101 150 "Unhealthy for Sensitive Groups"
      ∷ band 555 1254 151 200 "Unhealthy"
      ∷ band 1255 2254 201 300 "Very Unhealthy"
      ∷ band 2255 3254 301 500 "Hazardous"
      ∷ []

  -- The loop over the bands, at a concentration truncated to one decimal.
  unfoldable pub index_in : List Band → F → ℤ × String
  index_in [] c = (pos 500, "Hazardous")
  index_in (b ∷ bs) c =
      let later = index_in bs c in
      if le b.c_lo c && le c b.c_hi
      then (
        nearest (
            add (mul (div (sub (of_nat b.a_hi) (of_nat b.a_lo)) (sub b.c_hi b.c_lo)) (sub c b.c_lo))
              (of_nat b.a_lo)),
        b.label,
      )
      else later

  unfoldable pub pm25_aqi : F → Option (ℤ × String)
  unfolding index_in bands
  pm25_aqi concentration =
      if is_nan concentration
      then none
      else if le concentration (of_nat 0)
      then some (pos 0, "Good")
      else elim (floor (mul concentration (of_nat 10))) [
        | none ↦ none
        | some tenths ↦ some (index_in bands (div tenths (of_nat 10)))
      ]

  -- `min` and `max` of a list that begins with the given entry: the first of equals.
  unfoldable pub least_from : F → List F → F
  least_from best [] = best
  least_from best (x ∷ xs) = least_from (if lt x best then x else best) xs

  unfoldable pub greatest_from : F → List F → F
  greatest_from best [] = best
  greatest_from best (x ∷ xs) = greatest_from (if lt best x then x else best) xs

  -- The terms of the two sums over the window, from the index `i`.
  unfoldable pub weighted : F → ℕ → List F → List F
  weighted weight i [] = []
  weighted weight i (c ∷ cs) = mul (power weight (of_nat i)) c ∷ weighted weight (suc i) cs

  unfoldable pub weights : F → ℕ → List F → List F
  weights weight i [] = []
  weights weight i (c ∷ cs) = power weight (of_nat i) ∷ weights weight (suc i) cs

  unfoldable pub nowcast_weight : F → F → F
  nowcast_weight c_min c_max =
      let ratio = div c_min c_max in
      if lt (of_nat 0) c_max
      then if lt ratio (decimal (pos 5) 1) then decimal (pos 5) 1 else ratio
      else decimal (pos 1) 0

  unfoldable pub nowcast_of : List F → Option F
  unfolding weighted weights nowcast_weight least_from greatest_from
  nowcast_of [] = none
  nowcast_of (c ∷ cs) =
      let weight = nowcast_weight (least_from c cs) (greatest_from c cs) in
      if ltb (length (c ∷ cs)) 3
      then none
      else some (div (sum (weighted weight 0 (c ∷ cs))) (sum (weights weight 0 (c ∷ cs))))

  unfoldable pub nowcast_concentration : List F → Option F
  unfolding nowcast_of
  nowcast_concentration concentrations = nowcast_of (take 12 concentrations)

  unfoldable pub nowcast_aqi : List F → Option (ℤ × String)
  unfolding nowcast_concentration pm25_aqi
  nowcast_aqi concentrations = elim (nowcast_concentration concentrations) [
    | none ↦ none
    | some nowcast ↦ pm25_aqi nowcast
  ]
