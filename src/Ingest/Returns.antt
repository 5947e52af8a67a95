-- ===== src/Ingest/Returns.antt =====
-- When a run of `ingest` returns: unless `explode` raises at one of the payloads.
use mathlib.Core.Option.{none-ne-some}
use swelter.Prelude.{
  ℕ, ◌≡◌, ◌≢◌, ◌⊎◌, refl, sym, ap, subst, ◌∙◌, String, List, [], ◌∷◌, All, Among, Bool, Option,
  none, some, Bool-cases, Option-cases, inl, inr,
}
use swelter.Prelude.Int.{ℤ}
use swelter.Float.{Float}
use swelter.Models.{Observation, Parameter, parameters}
use swelter.Store.{Table}
use swelter.Ingest.Values.{Json, Fields, get, null, bool, int, number, text, array, object}
use swelter.Ingest.{
  Canonical, reads, escapes, IngestResult, Exploded, observations, quarantine, raises, Reading,
  skipped, too_large, measured, if_finite, reading, collect_one, collect, collected, explode,
  first_of, readings, as_text, node_keys, timestamp_keys, Entry, Batch, judge, take_payload,
  take_payloads, new_batch, finish, ingest, parse_error,
}
use swelter.Ingest.Measured.{Canonical-cases}

module _ (float : Float) (of_int : ℤ → Option float.F) (is_finite : float.F → Bool)
    (canonical : String → Canonical) where
  -- An integer that `float` does not take.
  abbrev pub IsTooLarge : Fields float → Parameter float → Type 0
  IsTooLarge values p = (n : ℤ) × (get float p.name values ≡ some (int n)) × (of_int n ≡ none)

  -- Why `explode` raises, at a payload with a node and a timestamp: this is no time of the
  -- calendar, or it is one and a reading is too large.
  abbrev pub Overflows : Fields float → Type 0
  Overflows payload =
      (node : String) × (written : String) × (as_text float (first_of float payload node_keys)
        ≡ some node)
      × (as_text float (first_of float payload timestamp_keys) ≡ some written)
      × ((canonical written ≡ escapes)
          ⊎ ((timestamp : String) × (canonical written ≡ reads timestamp)
              × Among (IsTooLarge (readings float payload)) (parameters float)))

  -- Such a payload, if it brings no parse error.
  abbrev pub IsFaulty : Fields float → Type 0
  IsFaulty payload =
      (parse_error float of_int is_finite canonical payload ≡ none)
      × (explode float of_int is_finite canonical payload ≡ raises)
      × Overflows payload

  -- The outcomes of the reading of a value.
  Reading-cases :
      (r : Reading float) → (r ≡ too_large) ⊎ ((r ≡ skipped) ⊎ ((x : float.F) × (r ≡ measured x)))
  Reading-cases skipped = inr (inl refl)
  Reading-cases too_large = inl refl
  Reading-cases (measured x) = inr (inr (x, refl))

  Clears : Reading float → Type 0
  Clears too_large = ⊥
  Clears r = Unit

  if_finite-Clears : (x : float.F) → Clears (if_finite float of_int is_finite canonical x)
  unfolding Clears
  if_finite-Clears x = elim (Bool-cases (is_finite x)) [
    | inl e ↦ rw (Clears, e) tt
    | inr e ↦ rw (Clears, e) tt
  ]

  -- Only an integer is too large.
  reading-IsTooLarge :
      (j : Option (Json float))
      → Clears (reading float of_int is_finite canonical j)
        ⊎ ((n : ℤ) × (j ≡ some (int n)) × (of_int n ≡ none))
  unfolding reading Clears
  reading-IsTooLarge none = inl tt
  reading-IsTooLarge (some (number x)) = inl (if_finite-Clears x)
  reading-IsTooLarge (some (int n)) = elim (Option-cases (of_int n)) [
    | inl e ↦ inr (n, refl, e)
    | inr (x, e) ↦ inl (rw (Clears, reading, e) (if_finite-Clears x))
  ]
  reading-IsTooLarge (some null) = inl tt
  reading-IsTooLarge (some (bool b)) = inl tt
  reading-IsTooLarge (some (text s)) = inl tt
  reading-IsTooLarge (some (array js)) = inl tt
  reading-IsTooLarge (some (object fs)) = inl tt

  -- There is a result.
  abbrev pub Returns {ℓ} : {A : Type ℓ} → Option A → Type ℓ
  Returns {A = A} o = (a : A) × (o ≡ some a)

  collect_one-Returns :
      (node timestamp : String) (p : Parameter float) (r : Reading float)
      (rest : List (Observation float))
      → Clears r
      → Returns (collect_one float of_int is_finite canonical node timestamp p r (some rest))
  unfolding collect_one Clears
  collect_one-Returns node timestamp p skipped rest h = (rest, refl)
  collect_one-Returns node timestamp p too_large rest h = absurd h
  collect_one-Returns node timestamp p (measured x) rest h = (_, refl)

  collect_one-none :
      (node timestamp : String) (p : Parameter float) (r : Reading float)
      → collect_one float of_int is_finite canonical node timestamp p r none ≡ none
  unfolding collect_one
  collect_one-none node timestamp p skipped = refl
  collect_one-none node timestamp p too_large = refl
  collect_one-none node timestamp p (measured x) = refl

  collect_one-raises :
      (node timestamp : String) (values : Fields float) (p : Parameter float)
      (rest : Option (List (Observation float)))
      → IsTooLarge values p
      → collect_one float of_int is_finite canonical node timestamp p
          (reading float of_int is_finite canonical (get float p.name values))
          rest
        ≡ none
  unfolding collect_one reading
  collect_one-raises node timestamp values p rest (n, e, f) = rw (e, f, collect_one) refl

  -- The readings are collected, or one of them is too large.
  collect_cases :
      (node timestamp : String) (values : Fields float) (ps : List (Parameter float))
      → Returns (collect float of_int is_finite canonical node timestamp values ps)
        ⊎ ((collect float of_int is_finite canonical node timestamp values ps ≡ none)
            × Among (IsTooLarge values) ps)
  unfolding collect
  collect_cases node timestamp values [] = inl ([], refl)
  collect_cases node timestamp values (p ∷ ps) =
      let j = get float p.name values in
      let r = reading float of_int is_finite canonical j in
      elim (reading-IsTooLarge j) [
        | inr (n, e, f) ↦
            inr (collect_one-raises node timestamp values p _ (n, e, f), inl (n, e, f))
        | inl h ↦ elim (collect_cases node timestamp values ps) [
          | inr (e, more) ↦ inr (
            ap (collect_one float of_int is_finite canonical node timestamp p r) e
                ∙ collect_one-none node timestamp p r,
            inr more,
          )
          | inl (rest, e) ↦
              let (os, f) = collect_one-Returns node timestamp p r rest h in
              inl (os, ap (collect_one float of_int is_finite canonical node timestamp p r) e ∙ f)
        ]
      ]

  -- What `explode` makes is no raise.
  Explodes : Exploded float → Type 0
  Explodes raises = ⊥
  Explodes x = Unit

  collected-Explodes :
      (os : List (Observation float))
      → Explodes (collected float of_int is_finite canonical (some os))
  unfolding Explodes
  collected-Explodes [] = tt
  collected-Explodes (o ∷ os) = tt

  explode_cases :
      (payload : Fields float)
      → Explodes (explode float of_int is_finite canonical payload)
        ⊎ ((explode float of_int is_finite canonical payload ≡ raises) × Overflows payload)
  unfolding explode Explodes
  explode_cases payload = elim (Option-cases (as_text float (first_of float payload node_keys))) [
    | inl e ↦ inl (rw (Explodes, explode, e) tt)
    | inr (node, e) ↦ elim (Option-cases (as_text float (first_of float payload timestamp_keys))) [
      | inl f ↦ inl (rw (Explodes, explode, e, f) tt)
      | inr (written, f) ↦ elim (Canonical-cases (canonical written)) [
        | inl g ↦ inl (rw (Explodes, explode, e, f, g) tt)
        | inr (inl g) ↦ inr (rw (explode, e, f, g) refl, (node, written, e, f, inl g))
        | inr (inr (timestamp, g)) ↦
            elim (collect_cases node timestamp (readings float payload) (parameters float)) [
              | inl (os, k) ↦ inl (rw (explode, e, f, g, k) (collected-Explodes os))
              | inr (k, large) ↦
                  inr (
                    rw (explode, e, f, g, k) refl,
                    (node, written, e, f, inr (timestamp, g, large)),
                  )
            ]
      ]
    ]
  ]

  -- The loop returns, and `explode` raises at no payload without a parse error; or it raises, and
  -- one of the payloads is faulty.
  Settles : List (Fields float) → Option (Batch float of_int is_finite canonical) → Type 0
  Settles payloads none = Among IsFaulty payloads
  Settles payloads (some b) =
      All
        (λ p.
          parse_error float of_int is_finite canonical p ≡ none
          → explode float of_int is_finite canonical p ≢ raises)
        payloads

  Explodes-raises : (x : Exploded float) → Explodes x → x ≢ raises
  Explodes-raises x h e = unfold Explodes in subst Explodes e h

  Settles-more :
      (p : Fields float) (ps : List (Fields float))
      (o : Option (Batch float of_int is_finite canonical))
      → (parse_error float of_int is_finite canonical p ≡ none
          → explode float of_int is_finite canonical p ≢ raises)
      → Settles ps o
      → Settles (p ∷ ps) o
  unfolding Settles
  Settles-more p ps none h k = inr k
  Settles-more p ps (some b) h k = (h, k)

  judge-Returns :
      (payload : Fields float) (x : Exploded float) (b : Batch float of_int is_finite canonical)
      → Explodes x
      → Returns (judge float of_int is_finite canonical payload none x b)
  unfolding judge Explodes
  judge-Returns payload (observations os) b h = (_, refl)
  judge-Returns payload (quarantine r) b h = (_, refl)
  judge-Returns payload raises b h = absurd h

  take_payloads-Settles :
      (payloads : List (Fields float)) (b : Batch float of_int is_finite canonical)
      → Settles payloads (take_payloads float of_int is_finite canonical payloads b)
  unfolding take_payloads take_payload Settles
  take_payloads-Settles [] b = tt
  take_payloads-Settles (p ∷ ps) b =
      elim (Option-cases (parse_error float of_int is_finite canonical p)) [
        | inr (j, e) ↦
            rw (take_payloads, take_payload, e, judge)
              (Settles-more p ps _ (λ f. absurd (none-ne-some j (sym f ∙ e)))
                (take_payloads-Settles ps _))
        | inl e ↦ elim (explode_cases p) [
          | inr (f, why) ↦ rw (take_payloads, take_payload, e, f, judge) (inl (e, f, why))
          | inl h ↦
              let (c, f) = judge-Returns p (explode float of_int is_finite canonical p) b h in
              rw (take_payloads, take_payload, e, f)
                (Settles-more p ps _ (λ g. Explodes-raises _ h) (take_payloads-Settles ps c))
        ]
      ]

  module _ (instant : String → ℕ) (content_hash : Observation float → String) where
    -- The same of a run.
    pub IsSettled :
        List (Fields float)
        → Option (IngestResult × Table float × List (Entry float of_int is_finite canonical))
        → Type 0
    IsSettled payloads none = Among IsFaulty payloads
    IsSettled payloads (some outcome) =
        All
          (λ p.
            parse_error float of_int is_finite canonical p ≡ none
            → explode float of_int is_finite canonical p ≢ raises)
          payloads

    finish-IsSettled :
        (run_qc : Bool) (payloads : List (Fields float)) (t : Table float)
        (b : Option (Batch float of_int is_finite canonical))
        → Settles payloads b
        → IsSettled payloads
            (finish float of_int is_finite canonical instant content_hash run_qc t b)
    unfolding finish IsSettled Settles
    finish-IsSettled run_qc payloads t none h = h
    finish-IsSettled run_qc payloads t (some b) h = h

    -- For any payloads and any table: a run returns exactly if `explode` raises at no payload that
    -- brings no parse error. If it does not return, then one of the payloads brings no parse error,
    -- names a node and a timestamp, and overflows: the parsing of the timestamp raises what is no
    -- ValueError and no TypeError, or it has a canonical form and a reading of one of the
    -- parameters is an integer that is too large for a float.
    pub ingest-IsSettled :
        (run_qc : Bool) (payloads : List (Fields float)) (t : Table float)
        → IsSettled payloads
            (ingest float of_int is_finite canonical instant content_hash run_qc payloads t)
    unfolding ingest
    ingest-IsSettled run_qc payloads t =
        finish-IsSettled run_qc payloads t _
          (take_payloads-Settles payloads (new_batch float of_int is_finite canonical))
