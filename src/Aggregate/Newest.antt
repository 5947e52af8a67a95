-- ===== src/Aggregate/Newest.antt =====
-- What `latest_by_cell` finds.
use mathlib.Core.Bool.{false≢true}
use swelter.Prelude.{
  ◌≡◌, refl, sym, ap, subst, ◌∙◌, String, List, [], ◌∷◌, ◌++◌, append-nil, append_assoc, All,
  All-weaken, All-append, Among, Among-append_left, Among-append_right, Bool, true, false, not,
  ◌&&◌, if◌then◌else◌, Option, none, some, str_eq, Bool-cases, inl, inr, ◌⊎◌,
}
use swelter.Prelude.Text.{text_lt}
use swelter.Prelude.Text.Order.{str_eq→eq, str_eq_refl, text_lt_trans, text_lt_irrefl}
use swelter.Prelude.Dict.{assign, value_at, value_at-assign_self, value_at-assign_other}
use swelter.Float.{Float}
use swelter.Aggregate.{CellReading}
use swelter.Aggregate.Surface.{
  Nested, is_other_window, inner_of, inner_at, store_reading, is_newer, latest_round, latest_from,
  latest_by_cell, reading_at,
}

assign_other_text :
    {V : Type 0} (i k : String) (v : V) (d : List (String × V))
    → str_eq k i ≡ false
    → value_at str_eq i (assign str_eq k v d) ≡ value_at str_eq i d
assign_other_text i k v d n =
    value_at-assign_other str_eq i k v d (λ j q. ap (λ z. str_eq z i) (str_eq→eq j k q) ∙ n) n

module _ (float : Float) where
  stored_own :
      (p key : String) (c : CellReading float) (out : Nested float)
      → reading_at float c.cell_id p (store_reading float key c out)
        ≡ value_at str_eq p (assign str_eq key c (inner_at float c.cell_id out))
  unfolding reading_at store_reading
  stored_own p key c out =
      ap (λ r. value_at str_eq p (inner_of float r))
        (value_at-assign_self str_eq str_eq_refl c.cell_id
          (assign str_eq key c (inner_at float c.cell_id out)) out)

  stored_self :
      (key : String) (c : CellReading float) (out : Nested float)
      → reading_at float c.cell_id key (store_reading float key c out) ≡ some c
  stored_self key c out =
      stored_own key key c out
      ∙ value_at-assign_self str_eq str_eq_refl key c (inner_at float c.cell_id out)

  stored_other_cell :
      (cell_id p key : String) (c : CellReading float) (out : Nested float)
      → str_eq c.cell_id cell_id ≡ false
      → reading_at float cell_id p (store_reading float key c out) ≡ reading_at float cell_id p out
  unfolding reading_at store_reading
  stored_other_cell cell_id p key c out n =
      ap (λ r. value_at str_eq p (inner_of float r))
        (assign_other_text cell_id c.cell_id (assign str_eq key c (inner_at float c.cell_id out))
          out n)

  stored_other_key :
      (p key : String) (c : CellReading float) (out : Nested float)
      → str_eq key p ≡ false
      → reading_at float c.cell_id p (store_reading float key c out)
        ≡ reading_at float c.cell_id p out
  unfolding reading_at
  stored_other_key p key c out n =
      stored_own p key c out ∙ assign_other_text p key c (inner_at float c.cell_id out) n

  -- What a row makes of the reading that is the latest so far.
  pick : Bool → CellReading float → Option (CellReading float) → Option (CellReading float)
  pick false c r = r
  pick true c r = if is_newer float c r then some c else r

  round_skipped :
      (window : String) (out : Nested float) (c : CellReading float)
      → is_other_window float window c ≡ true
      → latest_round float window out c ≡ out
  unfolding latest_round
  round_skipped window out c w = rw (latest_round, w) refl

  round_own :
      (window : String) (out : Nested float) (c : CellReading float)
      → is_other_window float window c ≡ false
      → reading_at float c.cell_id c.parameter (latest_round float window out c)
        ≡ pick true c (reading_at float c.cell_id c.parameter out)
  unfolding latest_round pick
  round_own window out c w =
      let current = reading_at float c.cell_id c.parameter out in
      elim (Bool-cases (is_newer float c current)) [
        | inl n ↦ rw (latest_round, w, n) (stored_self c.parameter c out)
        | inr n ↦ rw (latest_round, w, n) refl
      ]

  round_other_key :
      (window p : String) (out : Nested float) (c : CellReading float)
      → str_eq c.parameter p ≡ false
      → reading_at float c.cell_id p (latest_round float window out c)
        ≡ reading_at float c.cell_id p out
  unfolding latest_round
  round_other_key window p out c f =
      elim (Bool-cases (
        not (is_other_window float window c)
        && is_newer float c (reading_at float c.cell_id c.parameter out))) [
          | inl n ↦ rw (latest_round, n) (stored_other_key p c.parameter c out f)
          | inr n ↦ rw (latest_round, n) refl
        ]

  round_other_cell :
      (window cell_id p : String) (out : Nested float) (c : CellReading float)
      → str_eq c.cell_id cell_id ≡ false
      → reading_at float cell_id p (latest_round float window out c)
        ≡ reading_at float cell_id p out
  unfolding latest_round
  round_other_cell window cell_id p out c f =
      elim (Bool-cases (
        not (is_other_window float window c)
        && is_newer float c (reading_at float c.cell_id c.parameter out))) [
          | inl n ↦ rw (latest_round, n) (stored_other_cell cell_id p c.parameter c out f)
          | inr n ↦ rw (latest_round, n) refl
        ]

  module _ (window cell_id parameter : String) where
    -- A row of the cell and parameter, of no other window.
    abbrev pub is_eligible : CellReading float → Bool
    is_eligible c =
        not (is_other_window float window c)
        && str_eq c.cell_id cell_id
        && str_eq c.parameter parameter

    latest_round-pick :
        (out : Nested float) (c : CellReading float)
        → reading_at float cell_id parameter (latest_round float window out c)
          ≡ pick (is_eligible c) c (reading_at float cell_id parameter out)
    unfolding pick
    latest_round-pick out c = elim (Bool-cases (is_other_window float window c)) [
      | inl w ↦ rw w (ap (reading_at float cell_id parameter) (round_skipped window out c w))
      | inr w ↦ elim (Bool-cases (str_eq c.cell_id cell_id)) [
        | inr e ↦ rw (w, e) (round_other_cell window cell_id parameter out c e)
        | inl e ↦ elim (Bool-cases (str_eq c.parameter parameter)) [
          | inr f ↦
              rw (w, e, f)
                (subst
                  (λ z.
                    reading_at float z parameter (latest_round float window out c)
                    ≡ reading_at float z parameter out)
                  (str_eq→eq c.cell_id cell_id e) (round_other_key window parameter out c f))
          | inl f ↦
              rw (w, e, f)
                (subst
                  (λ z.
                    reading_at float z parameter (latest_round float window out c)
                    ≡ pick true c (reading_at float z parameter out))
                  (str_eq→eq c.cell_id cell_id e)
                  (subst
                    (λ y.
                      reading_at float c.cell_id y (latest_round float window out c)
                      ≡ pick true c (reading_at float c.cell_id y out))
                    (str_eq→eq c.parameter parameter f) (round_own window out c w)))
        ]
      ]
    ]

    -- The best of the rows, from the best so far.
    best : List (CellReading float) → Option (CellReading float) → Option (CellReading float)
    best [] r = r
    best (c ∷ cs) r = best cs (pick (is_eligible c) c r)

    latest_from-best :
        (cs : List (CellReading float)) (out : Nested float)
        → reading_at float cell_id parameter (latest_from float window cs out)
          ≡ best cs (reading_at float cell_id parameter out)
    unfolding latest_from best
    latest_from-best [] out = refl
    latest_from-best (c ∷ cs) out =
        latest_from-best cs (latest_round float window out c)
        ∙ ap (best cs) (latest_round-pick out c)

    -- No row of these is eligible and newer.
    abbrev pub IsBeaten : CellReading float → CellReading float → Type 0
    IsBeaten r c = (is_eligible c ≡ false) ⊎ (text_lt r.bucket c.bucket ≡ false)

    -- The reading is an eligible row and none is newer; or no row is eligible.
    pub IsLatest : List (CellReading float) → Option (CellReading float) → Type 0
    IsLatest cells none = All (λ c. is_eligible c ≡ false) cells
    IsLatest cells (some r) =
        Among (λ c. c ≡ r) cells × (is_eligible r ≡ true) × All (IsBeaten r) cells

    IsBeaten-newer :
        (r c x : CellReading float) → text_lt r.bucket c.bucket ≡ true → IsBeaten r x → IsBeaten c x
    IsBeaten-newer r c x f (inl h) = inl h
    IsBeaten-newer r c x f (inr h) = elim (Bool-cases (text_lt c.bucket x.bucket)) [
      | inl t ↦ absurd (false≢true (sym h ∙ text_lt_trans r.bucket c.bucket x.bucket f t))
      | inr t ↦ inr t
    ]

    pick-IsLatest :
        (seen : List (CellReading float)) (c : CellReading float) (r : Option (CellReading float))
        (test : Bool)
        → is_eligible c ≡ test
        → IsLatest seen r
        → IsLatest (seen ++ c ∷ []) (pick test c r)
    unfolding pick IsLatest
    pick-IsLatest seen c none false e h = All-append _ seen (c ∷ []) h (e, tt)
    pick-IsLatest seen c (some r) false e h =
        (Among-append_left _ seen (c ∷ []) h.0, h.1, All-append _ seen (c ∷ []) h.2 (inl e, tt))
    pick-IsLatest seen c none true e h = (
      Among-append_right _ seen (c ∷ []) (inl refl),
      e,
      All-append _ seen (c ∷ []) (All-weaken _ _ (λ x f. inl f) seen h)
          (inr (text_lt_irrefl c.bucket), tt),
    )
    pick-IsLatest seen c (some r) true e h = elim (Bool-cases (text_lt r.bucket c.bucket)) [
      | inr f ↦
          rw (pick, f)
            (Among-append_left _ seen (c ∷ []) h.0, h.1, All-append _ seen (c ∷ []) h.2 (inr f, tt))
      | inl f ↦
          rw (pick, f)
            (
              Among-append_right _ seen (c ∷ []) (inl refl),
              e,
              All-append _ seen (c ∷ []) (All-weaken _ _ (λ x. IsBeaten-newer r c x f) seen h.2)
                  (inr (text_lt_irrefl c.bucket), tt),
            )
    ]

    best-IsLatest :
        (seen cs : List (CellReading float)) (r : Option (CellReading float))
        → IsLatest seen r
        → IsLatest (seen ++ cs) (best cs r)
    unfolding best
    best-IsLatest seen [] r h = subst (λ l. IsLatest l r) (sym (append-nil seen)) h
    best-IsLatest seen (c ∷ cs) r h =
        subst (λ l. IsLatest l (best cs (pick (is_eligible c) c r))) (append_assoc seen (c ∷ []) cs)
          (best-IsLatest (seen ++ c ∷ []) cs _ (pick-IsLatest seen c r (is_eligible c) refl h))

    -- For any rows, window, cell and parameter: what latest_by_cell has for the cell and parameter
    -- is one of their rows with no other window, of which none has a later bucket; and if it has
    -- nothing, then there is no such row.
    pub latest_by_cell-IsLatest :
        (cells : List (CellReading float))
        → IsLatest cells (reading_at float cell_id parameter (latest_by_cell float window cells))
    unfolding latest_by_cell IsLatest reading_at
    latest_by_cell-IsLatest cells =
        subst (IsLatest cells) (sym (latest_from-best cells [])) (best-IsLatest [] cells none tt)
