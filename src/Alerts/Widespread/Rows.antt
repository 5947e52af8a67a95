-- ===== src/Alerts/Widespread/Rows.antt =====
-- src/swelter/alerts.py: the readings of `detect_event` are rows of the surface.
use swelter.Prelude.{
  ◌≡◌, refl, sym, subst, ◌∙◌, inl, inr, String, List, [], ◌∷◌, All, All-Among, Among, Bool-cases,
  true, not, ◌&&◌, Option, none, some, str_eq,
}
use swelter.Prelude.Text.Order.{str_eq→eq}
use swelter.Prelude.Dict.{value_at, value_at-All, assign, All-assign}
use swelter.Float.{Float}
use swelter.Aggregate.{CellReading}
use swelter.Aggregate.Surface.{
  Nested, inner_of, inner_at, is_other_window, reading_at, store_reading, readings_from,
  readings_for,
}

module _ (float : Float) (parameter window : String) (cells : List (CellReading float)) where
  -- A row of the surface, of the parameter and of no other window.
  abbrev pub IsRowOf : CellReading float → Type 0
  IsRowOf r =
      Among (λ c. c ≡ r) cells
      × (str_eq r.parameter parameter && not (is_other_window float window r) ≡ true)

  -- A row of the cell, under its hour.
  abbrev pub IsRowAt : String → String × CellReading float → Type 0
  IsRowAt cell_id entry = IsRowOf entry.1 × (entry.1.cell_id ≡ cell_id) × (entry.1.bucket ≡ entry.0)

  abbrev AreRowsAt : String × List (String × CellReading float) → Type 0
  AreRowsAt group = All (IsRowAt group.0) group.1

  AreInner : String → Option (List (String × CellReading float)) → Type 0
  AreInner cell_id inner = All (IsRowAt cell_id) (inner_of float inner)

  found_inner :
      (cell_id : String) (history : Nested float)
      (inner : Option (List (String × CellReading float)))
      → All AreRowsAt history
      → value_at str_eq cell_id history ≡ inner
      → AreInner cell_id inner
  unfolding AreInner
  found_inner cell_id history none h e = tt
  found_inner cell_id history (some inner) h e =
      let found = value_at-All str_eq AreRowsAt cell_id history inner h e in
      subst (λ z. All (IsRowAt z) inner) (str_eq→eq found.0 cell_id found.1) found.2

  store_reading-AreRowsAt :
      (c : CellReading float) (history : Nested float)
      → IsRowOf c
      → All AreRowsAt history
      → All AreRowsAt (store_reading float c.bucket c history)
  unfolding store_reading AreInner
  store_reading-AreRowsAt c history own h =
      let inner = inner_at float c.cell_id history in
      let more = assign str_eq c.bucket c inner in
      let kept : All (IsRowAt c.cell_id) more =
        All-assign str_eq (IsRowAt c.cell_id) c.bucket c inner
          (λ j e. (own, refl, sym (str_eq→eq j c.bucket e))) (own, refl, refl)
          (found_inner c.cell_id history (value_at str_eq c.cell_id history) h refl) in
      All-assign str_eq AreRowsAt c.cell_id more history
        (λ j e. subst (λ z. All (IsRowAt z) more) (sym (str_eq→eq j c.cell_id e)) kept) kept h

  readings_from-AreRowsAt :
      (cs : List (CellReading float)) (history : Nested float)
      → All (λ c. Among (λ d. d ≡ c) cells) cs
      → All AreRowsAt history
      → All AreRowsAt (readings_from float parameter window cs history)
  unfolding readings_from
  readings_from-AreRowsAt [] history known h = h
  readings_from-AreRowsAt (c ∷ cs) history known h =
      elim (Bool-cases (str_eq c.parameter parameter && not (is_other_window float window c))) [
        | inl e ↦
            rw (readings_from, e)
              (readings_from-AreRowsAt cs _ known.1
                (store_reading-AreRowsAt c history (known.0, e) h))
        | inr e ↦ rw (readings_from, e) (readings_from-AreRowsAt cs history known.1 h)
      ]

  -- A reading that is found for a cell and an hour is a row of both.
  pub readings_for-IsRowAt :
      (cell_id bucket : String) (r : CellReading float)
      → reading_at float cell_id bucket (readings_for float parameter window cells) ≡ some r
      → IsRowAt cell_id (bucket, r)
  unfolding readings_for reading_at AreInner
  readings_for-IsRowAt cell_id bucket r e =
      let history = readings_for float parameter window cells in
      let rows = readings_from-AreRowsAt cells [] (All-Among cells) tt in
      let found =
        value_at-All str_eq (IsRowAt cell_id) bucket (inner_at float cell_id history) r
          (found_inner cell_id history (value_at str_eq cell_id history) rows refl) e in
      (found.2.0, found.2.1, found.2.2 ∙ str_eq→eq found.0 bucket found.1)
