-- ===== src/Ingest/Measured.antt =====
-- What `explode` makes of a payload, and when it raises.
use swelter.Prelude.{
  ◌⊎◌, Among, All-weaken, ◌≡◌, ◌≢◌, refl, sym, subst, String, List, [], ◌∷◌, All, Bool, true,
  Option, none, some, Bool-cases, Option-cases, inl, inr,
}
use swelter.Prelude.Int.{ℤ}
use mathlib.Core.List.{cons≢nil}
use swelter.Float.{Float}
use swelter.Models.{Observation, Parameter, parameters}
use swelter.Ingest.Values.{Json, Fields, get, text, int, number, object, null, bool, array}
use swelter.Ingest.{
  raises, Canonical, reads, refuses, escapes, Exploded, observations, quarantine, Reading, skipped,
  too_large, measured, reading, observation, collect_one, collect, collected, missing_node,
  missing_timestamp, unparseable_timestamp, explode, first_of, readings, as_text, if_finite,
  node_keys, timestamp_keys,
}

pub Canonical-cases :
    (c : Canonical) → (c ≡ refuses) ⊎ (c ≡ escapes) ⊎ ((t : String) × (c ≡ reads t))
Canonical-cases refuses = inl refl
Canonical-cases escapes = inr (inl refl)
Canonical-cases (reads t) = inr (inr (t, refl))

module _ (float : Float) (of_int : ℤ → Option float.F) (is_finite : float.F → Bool)
    (canonical : String → Canonical) where
  open float use {F}

  -- The observation of one parameter, with a finite value.
  abbrev pub Measures : String → String → Observation float → Parameter float → Type 0
  Measures node timestamp o p =
      (x : F) × (is_finite x ≡ true)
      × (o ≡ observation float of_int is_finite canonical node timestamp p x)

  IsFine : Reading float → Type 0
  IsFine (measured x) = is_finite x ≡ true
  IsFine r = Unit

  if_finite-IsFine : (x : F) → IsFine (if_finite float of_int is_finite canonical x)
  unfolding IsFine
  if_finite-IsFine x = elim (Bool-cases (is_finite x)) [
    | inl e ↦ rw (IsFine, e) e
    | inr e ↦ rw (IsFine, e) tt
  ]

  reading-IsFine : (j : Option (Json float)) → IsFine (reading float of_int is_finite canonical j)
  unfolding reading IsFine
  reading-IsFine none = tt
  reading-IsFine (some (number y)) = if_finite-IsFine y
  reading-IsFine (some (int n)) = elim (Option-cases (of_int n)) [
    | inl e ↦ rw (IsFine, reading, e) tt
    | inr (y, e) ↦ subst IsFine (sym (an_int n y e)) (if_finite-IsFine y)
  ]
    where
      an_int :
          (n : ℤ) (y : F)
          → of_int n ≡ some y
          → reading float of_int is_finite canonical (some (int n))
            ≡ if_finite float of_int is_finite canonical y
      an_int n y e = rw (reading, e) refl
  reading-IsFine (some null) = tt
  reading-IsFine (some (bool b)) = tt
  reading-IsFine (some (text s)) = tt
  reading-IsFine (some (array js)) = tt
  reading-IsFine (some (object fs)) = tt

  -- Every observation measures one of the parameters.
  pub AreMeasured :
      String → String → List (Parameter float) → Option (List (Observation float)) → Type 0
  AreMeasured node timestamp ps none = Unit
  AreMeasured node timestamp ps (some os) = All (λ o. Among (Measures node timestamp o) ps) os

  AreMeasured-more :
      (node timestamp : String) (p : Parameter float) (ps : List (Parameter float))
      (os : List (Observation float))
      → AreMeasured node timestamp ps (some os)
      → AreMeasured node timestamp (p ∷ ps) (some os)
  unfolding AreMeasured
  AreMeasured-more node timestamp p ps os h = All-weaken _ _ (λ o k. inr k) os h

  collect_one-AreMeasured :
      (node timestamp : String) (p : Parameter float) (ps : List (Parameter float))
      (r : Reading float) (rest : Option (List (Observation float)))
      → IsFine r
      → AreMeasured node timestamp ps rest
      → AreMeasured node timestamp
          (p ∷ ps)
          (collect_one float of_int is_finite canonical node timestamp p r rest)
  unfolding collect_one AreMeasured IsFine
  collect_one-AreMeasured node timestamp p ps skipped none f h = tt
  collect_one-AreMeasured node timestamp p ps skipped (some os) f h =
      AreMeasured-more node timestamp p ps os h
  collect_one-AreMeasured node timestamp p ps too_large rest f h = tt
  collect_one-AreMeasured node timestamp p ps (measured x) none f h = tt
  collect_one-AreMeasured node timestamp p ps (measured x) (some os) f h =
      (inl (x, f, refl), AreMeasured-more node timestamp p ps os h)

  collect-AreMeasured :
      (node timestamp : String) (values : Fields float) (ps : List (Parameter float))
      → AreMeasured node timestamp ps
          (collect float of_int is_finite canonical node timestamp values ps)
  unfolding collect AreMeasured
  collect-AreMeasured node timestamp values [] = tt
  collect-AreMeasured node timestamp values (p ∷ ps) =
      collect_one-AreMeasured node timestamp p ps _ _ (reading-IsFine (get float p.name values))
        (collect-AreMeasured node timestamp values ps)

  -- What is asked of the observations of a payload.
  pub IsSound : Fields float → Exploded float → Type 0
  IsSound payload (observations os) =
      (node : String) × (written : String) × (timestamp : String) × (as_text float
          (first_of float payload node_keys)
        ≡ some node)
      × (as_text float (first_of float payload timestamp_keys) ≡ some written)
      × (canonical written ≡ reads timestamp)
      × (os ≢ [])
      × All (λ o. Among (Measures node timestamp o) (parameters float)) os
  IsSound payload other = Unit

  collected-IsSound :
      (payload : Fields float) (node written timestamp : String)
      (os : Option (List (Observation float)))
      → as_text float (first_of float payload node_keys) ≡ some node
      → as_text float (first_of float payload timestamp_keys) ≡ some written
      → canonical written ≡ reads timestamp
      → AreMeasured node timestamp (parameters float) os
      → IsSound payload (collected float of_int is_finite canonical os)
  unfolding IsSound AreMeasured
  collected-IsSound payload node written timestamp none n w t h = tt
  collected-IsSound payload node written timestamp (some []) n w t h = tt
  collected-IsSound payload node written timestamp (some (o ∷ os)) n w t h =
      (node, written, timestamp, n, w, t, (λ e. cons≢nil e), h)

  -- For any payload: if it is accepted, then it names a node and a time that parses, and there is
  -- an observation; each is raw and native, of that node and the canonical form of that time, and
  -- has a finite value of one of the parameters, in its unit.
  pub explode-IsSound :
      (payload : Fields float) → IsSound payload (explode float of_int is_finite canonical payload)
  unfolding explode IsSound
  explode-IsSound payload = elim (Option-cases (as_text float (first_of float payload node_keys))) [
    | inl e ↦ ends (quarantine missing_node) (rw (explode, e) refl) tt
    | inr (node, e) ↦ elim (Option-cases (as_text float (first_of float payload timestamp_keys))) [
      | inl f ↦ ends (quarantine missing_timestamp) (rw (explode, e, f) refl) tt
      | inr (written, f) ↦ elim (Canonical-cases (canonical written)) [
        | inl g ↦ ends (quarantine (unparseable_timestamp written)) (rw (explode, e, f, g) refl) tt
        | inr (inl g) ↦ ends raises (rw (explode, e, f, g) refl) tt
        | inr (inr (timestamp, g)) ↦
            let found =
              collect float of_int is_finite canonical node timestamp (readings float payload)
                (parameters float) in
            ends (collected float of_int is_finite canonical found) (rw (explode, e, f, g) refl) (
              collected-IsSound payload node written timestamp found e f g
                (collect-AreMeasured node timestamp (readings float payload) (parameters float)))
      ]
    ]
  ]
    where
      ends :
          (x : Exploded float)
          → explode float of_int is_finite canonical payload ≡ x
          → IsSound payload x
          → IsSound payload (explode float of_int is_finite canonical payload)
      ends x e h = subst (IsSound payload) (sym e) h
