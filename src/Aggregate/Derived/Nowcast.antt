-- ===== src/Aggregate/Derived/Nowcast.antt =====
-- What a NowCast cell is made of.
use swelter.Prelude.{
  ◌≤◌, ◌≡◌, refl, sym, subst, String, List, [], ◌∷◌, map, length, length-map, length-take, take,
  any_of, All, All-both, All-append, All-take, All-Among, All-keep_if, All-keep_if_passed, Among,
  true, Option, none, some, str_eq, keep_if, Option-cases, inl, inr, arith,
}
use swelter.Prelude.Text.Order.{str_eq→eq}
use swelter.Prelude.Group.{AreGrouped, group-AreGrouped}
use swelter.Prelude.Sort.{sort_by, All-sort_by}
use swelter.Float.{Float}
use swelter.Float.Library.{Library}
use swelter.Models.Air.{nowcast_concentration, pm25_aqi}
use swelter.Models.Air.Categories.{HasNoIndex, pm25_aqi-none, nowcast_concentration-some}
use swelter.Aggregate.{CellReading, nowcast_blend, aqi_window_nowcast, sorted_flags}
use swelter.Aggregate.Derived.{
  is_hourly_air, by_bucket_down, flags_of, nowcast_cell, nowcast_window, nowcast_groups,
  nowcast_cells, and_then,
}

module _ (float : Float) (library : Library float) (cells : List (CellReading float)) where
  open float use {F, is_nan}

  -- An hourly row of PM2.5 of a cell.
  abbrev pub IsRow : String → CellReading float → Type 0
  IsRow cell_id c =
      Among (λ x. x ≡ c) cells × (is_hourly_air float library c ≡ true) × (c.cell_id ≡ cell_id)

  -- A NowCast is over 3 to 12 hourly rows of its cell, as provisional and as flagged as they are.
  abbrev pub IsNowcast : CellReading float → Type 0
  IsNowcast e =
      (window : List (CellReading float)) × All (IsRow e.cell_id) window
      × (3 ≤ length window)
      × (length window ≤ 12)
      × (e.n ≡ length window)
      × (nowcast_concentration float library (map (λ c. c.mean) window) ≡ some e.mean)
      × (e.provisional ≡ any_of (λ c. c.provisional) window)
      × (e.aqi_window ≡ some aqi_window_nowcast)
      × (e.uncertainty ≡ none)
      × (e.uncertainty_note ≡ some nowcast_blend)
      × (e.qc_flags ≡ sorted_flags (flags_of float library window))

  -- A raise has a NowCast of which there is no index.
  abbrev pub IsAirRaise : Type 0
  IsAirRaise =
      (window : List (CellReading float)) × (cell_id : String) × (x : F) × All (IsRow cell_id)
        window
      × (nowcast_concentration float library (map (λ c. c.mean) window) ≡ some x)
      × HasNoIndex float library x

  unfoldable pub AreNowcast : Option (List (CellReading float)) → Type 0
  AreNowcast none = IsAirRaise
  AreNowcast (some out) = All IsNowcast out

  three_hours :
      (window : List (CellReading float)) (x : F)
      → nowcast_concentration float library (map (λ c. c.mean) window) ≡ some x
      → 3 ≤ length window
  three_hours window x e =
      let means = map (λ c. c.mean) window in
      omega (
        arith,
        nowcast_concentration-some float library means x e,
        length-take 12 means,
        length-map (λ c. c.mean) window,
      )

  nowcast_window-AreNowcast :
      (cell_id : String) (window : List (CellReading float))
      → length window ≤ 12
      → All (IsRow cell_id) window
      → AreNowcast (nowcast_window float library window)
  unfolding nowcast_window nowcast_cell AreNowcast
  nowcast_window-AreNowcast cell_id [] bound h = tt
  nowcast_window-AreNowcast cell_id (latest ∷ earlier) bound h =
      let window = latest ∷ earlier in
      let means = map (λ c. c.mean) window in
      elim (Option-cases (nowcast_concentration float library means)) [
        | inl e ↦ rw (nowcast_window, e) tt
        | inr (x, e) ↦ elim (Option-cases (pm25_aqi float library x)) [
          | inl f ↦
              rw (nowcast_window, e, f) (window, cell_id, x, h, e, pm25_aqi-none float library x f)
          | inr (index, f) ↦
              rw (nowcast_window, e, f)
                (
                  (
                    window,
                    subst (λ z. All (IsRow z) window) (sym h.0.2) h,
                    three_hours window x e,
                    bound,
                    refl,
                    e,
                    refl,
                    refl,
                    refl,
                    refl,
                    refl,
                  ),
                  tt,
                )
        ]
      ]

  and_then-AreNowcast :
      (out rest : Option (List (CellReading float)))
      → AreNowcast out
      → AreNowcast rest
      → AreNowcast (and_then float library out rest)
  unfolding and_then AreNowcast
  and_then-AreNowcast none rest h k = h
  and_then-AreNowcast (some out) none h k = k
  and_then-AreNowcast (some out) (some rest) h k = All-append IsNowcast out rest h k

  nowcast_groups-AreNowcast :
      (groups : List (String × List (CellReading float)))
      → AreGrouped str_eq IsRow groups
      → AreNowcast (nowcast_groups float library groups)
  unfolding nowcast_groups AreNowcast
  nowcast_groups-AreNowcast [] h = tt
  nowcast_groups-AreNowcast ((cell_id, readings) ∷ groups) h =
      let sorted = sort_by (by_bucket_down float library) readings in
      and_then-AreNowcast _ _
        (nowcast_window-AreNowcast cell_id (take 12 sorted) (omega (arith, length-take 12 sorted)) (
          All-take (IsRow cell_id) 12 sorted
            (All-sort_by (by_bucket_down float library) (IsRow cell_id) readings h.0)))
        (nowcast_groups-AreNowcast groups h.1)

  -- For any cells: the NowCast layer is made, or there is a NowCast that has no index, since it is
  -- not a number or is above 0 and ten times it have no floor. If it is made, then each of its
  -- cells is the NowCast of 3 to 12 hourly rows of PM2.5 of its own cell, is provisional if one of
  -- them is, has the flags of all of them, and has no sigma but a note.
  pub nowcast_cells-AreNowcast : AreNowcast (nowcast_cells float library cells)
  unfolding nowcast_cells
  nowcast_cells-AreNowcast =
      let rows = keep_if (is_hourly_air float library) cells in
      let ours = All-keep_if _ (is_hourly_air float library) cells (All-Among cells) in
      let hourly = All-keep_if_passed (is_hourly_air float library) cells in
      nowcast_groups-AreNowcast _ (
        group-AreGrouped str_eq IsRow (λ c. c.cell_id) rows
          (All-both _ _ _ (λ c p q j e. (p, q, sym (str_eq→eq j c.cell_id e))) rows ours hourly)
          (All-both _ _ _ (λ c p q. (p, q, refl)) rows ours hourly))
