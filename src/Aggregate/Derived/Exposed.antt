-- ===== src/Aggregate/Derived/Exposed.antt =====
-- What an exposure cell is made of.
use swelter.Prelude.{
  ◌≡◌, refl, sym, subst, ◌∙◌, String, List, [], ◌∷◌, ◌++◌, min, All, All-append, All-Among, Among,
  Bool, true, ◌||◌, Option, none, some, str_eq, Bool-cases, Option-cases, inl, inr, ℕ,
}
use swelter.Prelude.Text.Order.{str_eq→eq}
use swelter.Prelude.Text.Pairs.{same_pair, same_pair→eq}
use swelter.Prelude.Dict.{assign, value_at, All-assign, value_at-All}
use swelter.Float.{Float}
use swelter.Float.Library.{Library}
use swelter.Models.Exposure.{
  Component, heat_index_category, component_levels, exposure_level, exposure_bounding_component,
}
use swelter.Models.Exposure.Levels.{Graded, exposure_level-Graded}
use swelter.Aggregate.{CellReading, Note, exposure_parameter, sorted_flags}
use swelter.Aggregate.Derived.{
  Places, readings_of, by_place_from, expose, expose_pair, expose_places, one_cell, and_then,
  exposure_cells, exposure_cell, exposure_uncertainty_note, note_for,
}

module _ (float : Float) (library : Library float) (cells : List (CellReading float)) where
  open float use {F, of_nat, is_nan}

  abbrev pub place_of : CellReading float → String × String
  place_of c = (c.cell_id, c.bucket)

  -- One of the cells, at a place and with a name.
  abbrev IsHalf : String × String → String × CellReading float → Type 0
  IsHalf place (name, c) = Among (λ x. x ≡ c) cells × (place_of c ≡ place) × (c.parameter ≡ name)

  abbrev IsPlace : (String × String) × List (String × CellReading float) → Type 0
  IsPlace (place, readings) = All (IsHalf place) readings

  readings_of-AreHalves :
      (place : String × String) (found : Option (List (String × CellReading float)))
      (places : Places float library)
      → All IsPlace places
      → value_at same_pair place places ≡ found
      → All (IsHalf place) (readings_of float library found)
  readings_of-AreHalves place none places h e = tt
  readings_of-AreHalves place (some readings) places h e =
      let (j, q, k) = value_at-All same_pair IsPlace place places readings h e in
      subst (λ z. All (IsHalf z) readings) (same_pair→eq j place q) k

  by_place_from-ArePlaces :
      (cs : List (CellReading float)) (places : Places float library)
      → All (λ c. Among (λ x. x ≡ c) cells) cs
      → All IsPlace places
      → All IsPlace (by_place_from float library cs places)
  unfolding by_place_from
  by_place_from-ArePlaces [] places h k = k
  by_place_from-ArePlaces (c ∷ cs) places h k =
      let place : String × String = (c.cell_id, c.bucket) in
      let before = readings_of float library (value_at same_pair place places) in
      let readings = assign str_eq c.parameter c before in
      let added : All (IsHalf place) readings =
        All-assign str_eq (IsHalf place) c.parameter c before
          (λ j q. (h.0, refl, sym (str_eq→eq j c.parameter q))) (h.0, refl, refl)
          (readings_of-AreHalves place _ places k refl) in
      by_place_from-ArePlaces cs _ h.1 (
        All-assign same_pair IsPlace place _ places
          (λ j q. subst (λ z. All (IsHalf z) readings) (sym (same_pair→eq j place q)) added) added
          k)

  -- The halves of an exposure cell: a heat cell and an air cell with a category, of one place.
  abbrev AreHalves : CellReading float → CellReading float → String → Type 0
  AreHalves h a air_name =
      Among (λ x. x ≡ h) cells
      × Among (λ x. x ≡ a) cells
      × (place_of h ≡ place_of a)
      × (h.parameter ≡ "heat_index_c")
      × (a.parameter ≡ "pm25_ugm3")
      × (a.category ≡ some air_name)

  -- The level is that of the two halves, and the cell is as provisional and as flagged as they are.
  abbrev pub IsExposure : CellReading float → Type 0
  IsExposure e =
      (h : CellReading float) × (a : CellReading float) × (air_name : String) × (level : ℕ × String
        × Bool)
      × (note : Note float) × AreHalves h a air_name
      × (place_of e ≡ place_of h)
      × (e.parameter ≡ exposure_parameter)
      × (exposure_level float h.mean air_name ≡ some level)
      × (e.mean ≡ of_nat level.0)
      × (e.category ≡ some level.1)
      × (e.compound ≡ level.2)
      × (e.n ≡ min h.n a.n)
      × (e.provisional ≡ h.provisional || a.provisional)
      × (e.uncertainty ≡ none)
      × (exposure_uncertainty_note float library h a air_name ≡ some note)
      × (e.uncertainty_note ≡ some note)
      × (e.qc_flags ≡ sorted_flags (h.qc_flags ++ a.qc_flags))

  -- A raise has a heat cell whose mean is not a number.
  abbrev pub IsHeatRaise : Type 0
  IsHeatRaise =
      (h : CellReading float) × Among (λ x. x ≡ h) cells
      × (h.parameter ≡ "heat_index_c")
      × (is_nan h.mean ≡ true)

  unfoldable pub AreExposed : Option (List (CellReading float)) → Type 0
  AreExposed none = IsHeatRaise
  AreExposed (some out) = All IsExposure out

  expose-none :
      (h a : CellReading float) (air_name : String)
      → is_nan h.mean ≡ true
      → expose float library h a air_name ≡ none
  unfolding expose exposure_level component_levels heat_index_category
  expose-none h a air_name e =
      rw (expose, exposure_level, component_levels, heat_index_category, e) refl

  note_made :
      (h a : CellReading float) (air_name : String) (component : Component) (category : ℕ × String)
      → exposure_bounding_component float h.mean air_name ≡ some component
      → heat_index_category float h.mean ≡ some category
      → exposure_uncertainty_note float library h a air_name
        ≡ some (note_for float library h a category.1 air_name component)
  unfolding exposure_uncertainty_note
  note_made h a air_name component category e f = rw (exposure_uncertainty_note, e, f) refl

  expose_made :
      (h a : CellReading float) (air_name : String) (level : ℕ × String × Bool)
      (category : ℕ × String) (note : Note float)
      → exposure_level float h.mean air_name ≡ some level
      → heat_index_category float h.mean ≡ some category
      → exposure_uncertainty_note float library h a air_name ≡ some note
      → expose float library h a air_name
        ≡ some (exposure_cell float library h a air_name level category.1 note)
  unfolding expose
  expose_made h a air_name level category note e f g = rw (expose, e, f, g) refl

  one_cell-AreExposed :
      (h a : CellReading float) (air_name : String)
      → AreHalves h a air_name
      → AreExposed (one_cell float library (expose float library h a air_name))
  unfolding exposure_cell AreExposed Graded
  one_cell-AreExposed h a air_name k = elim (Bool-cases (is_nan h.mean)) [
    | inl e ↦
        subst (λ r. AreExposed (one_cell float library r)) (sym (expose-none h a air_name e))
          (h, k.0, k.3, e)
    | inr e ↦
        let (n, label, name, component, p, q, bound, r, s) =
          exposure_level-Graded float h.mean air_name e in
        let note = note_made h a air_name component (n, label) r p in
        subst (λ r. AreExposed (one_cell float library r))
          (sym (expose_made h a air_name _ (n, label) _ q p note))
          (
            (
              h, a, air_name, _, _, k, refl, refl, q, refl, refl, refl, refl, refl, refl, note,
              refl, refl,
            ),
            tt,
          )
  ]

  expose_pair-AreExposed :
      (place : String × String) (h a : Option (CellReading float))
      (readings : List (String × CellReading float))
      → All (IsHalf place) readings
      → value_at str_eq "heat_index_c" readings ≡ h
      → value_at str_eq "pm25_ugm3" readings ≡ a
      → AreExposed (expose_pair float library h a)
  unfolding expose_pair AreExposed
  expose_pair-AreExposed place none a readings k e f = tt
  expose_pair-AreExposed place (some h) none readings k e f = tt
  expose_pair-AreExposed place (some h) (some a) readings k e f =
      let (i, p, heat_half) = value_at-All str_eq (IsHalf place) "heat_index_c" readings h k e in
      let (j, q, air_half) = value_at-All str_eq (IsHalf place) "pm25_ugm3" readings a k f in
      elim (Option-cases a.category) [
        | inl c ↦ rw (expose_pair, c) tt
        | inr (air_name, c) ↦
            rw (expose_pair, c)
              (one_cell-AreExposed h a air_name (
                heat_half.0,
                air_half.0,
                heat_half.1 ∙ sym air_half.1,
                heat_half.2 ∙ str_eq→eq i _ p,
                air_half.2 ∙ str_eq→eq j _ q,
                c,
              ))
      ]

  and_then-AreExposed :
      (out rest : Option (List (CellReading float)))
      → AreExposed out
      → AreExposed rest
      → AreExposed (and_then float library out rest)
  unfolding and_then AreExposed
  and_then-AreExposed none rest h k = h
  and_then-AreExposed (some out) none h k = k
  and_then-AreExposed (some out) (some rest) h k = All-append IsExposure out rest h k

  expose_places-AreExposed :
      (places : Places float library)
      → All IsPlace places
      → AreExposed (expose_places float library places)
  unfolding expose_places AreExposed
  expose_places-AreExposed [] h = tt
  expose_places-AreExposed ((place, readings) ∷ places) h =
      and_then-AreExposed _ _ (expose_pair-AreExposed place _ _ readings h.0 refl refl)
        (expose_places-AreExposed places h.1)

  -- For any cells: the exposure layer is made, or there is a heat cell whose mean is not a number.
  -- If it is made, then each of its cells has a heat cell and a PM2.5 cell with a category at its
  -- own place and hour, has the level of the two, is provisional if one of them is, has the flags
  -- of both, and has no sigma but a note that says which of the two bounds the level.
  pub exposure_cells-AreExposed : AreExposed (exposure_cells float library cells)
  unfolding exposure_cells
  exposure_cells-AreExposed =
      expose_places-AreExposed _ (by_place_from-ArePlaces cells [] (All-Among cells) tt)
