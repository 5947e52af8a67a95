-- ===== src/Qc/Flags/Refines.antt =====
-- The verdicts of a series against those of the range check.
use swelter.Prelude.{
  ℕ, zero, suc, ◌+◌, ◌-◌, ◌≤◌, ◌≡◌, ◌⊎◌, inl, inr, refl, sym, ap, ◌∙◌, List, [], ◌∷◌, map, Bool,
  true, false, ◌&&◌, ltb, leb, Option, some, none, length, get_or, set, length-map, length-set,
  get_or-set_self, get_or-set_ne, ltb→lt, ltb-false→le, arith, Bool-cases, ==→eq, ◌==◌,
}
use swelter.Float.{Float}
use swelter.Models.{Verdict, ok, spike, flatline, is_ok, is_suspicious, Observation}
use swelter.Qc.Flags.{
  flag_at, range_flag, departs, spike_round, spike_rounds, flag_spikes, mark_run, flatline_rounds,
  flag_flatline, series_threshold, series_flags, at,
}

-- The verdict stayed, or it was clean and became a suspicion.
abbrev pub Refined : Verdict → Verdict → Type 0
Refined old new = (new ≡ old) ⊎ ((old ≡ ok) × (is_suspicious new ≡ true))

Refined-trans : (a b c : Verdict) → Refined a b → Refined b c → Refined a c
Refined-trans a b c (inl e) (inl f) = inl (f ∙ e)
Refined-trans a b c (inl e) (inr (f, s)) = inr (sym e ∙ f, s)
Refined-trans a b c (inr (e, s)) (inl f) = inr (e, ap is_suspicious f ∙ s)
Refined-trans a b c (inr (e, s)) (inr (f, t)) = absurd (ground (arith, e, s, f))

module _ (float : Float) where
  record Refines (before after : List Verdict) : Type 0 where
    same_length : length after ≡ length before
    at_each : (x : ℕ) → Refined (flag_at float before x) (flag_at float after x)

  Refines-refl : (flags : List Verdict) → Refines flags flags
  Refines-refl flags = record { same_length = refl; at_each = λ x. inl refl }

  Refines-trans : (a b c : List Verdict) → Refines a b → Refines b c → Refines a c
  Refines-trans a b c h k = record {
    same_length = k.same_length ∙ h.same_length;
    at_each = λ x. Refined-trans _ _ _ (h.at_each x) (k.at_each x);
  }

  is_ok→ok : (v : Verdict) → is_ok v ≡ true → v ≡ ok
  is_ok→ok v h = ground arith

  -- A suspicion written over a clean verdict, in range or not.
  set-Refines :
      (flags : List Verdict) (i : ℕ) (v : Verdict)
      → is_ok (flag_at float flags i) ≡ true
      → is_suspicious v ≡ true
      → Refines flags (set flags i v)
  set-Refines flags i v clean s = record {
    same_length = length-set flags i v;
    at_each = λ x. elim (Bool-cases (i == x)) [
      | inr e ↦ inl (get_or-set_ne flags i x v ok (λ same. ground arith))
      | inl e ↦ elim (Bool-cases (ltb i (length flags))) [
        | inl inside ↦
            let here = ==→eq i x e in
            rw (← here) (
              inr (
                is_ok→ok _ clean,
                ap is_suspicious (get_or-set_self flags i v ok (ltb→lt _ _ inside)) ∙ s,
              ))
        | inr outside ↦
            inl (ap (λ l. flag_at float l x) (set_outside flags i v (ltb-false→le _ _ outside)))
      ]
    ];
  }
    where
      set_outside : (l : List Verdict) (i : ℕ) (v : Verdict) → length l ≤ i → set l i v ≡ l
      set_outside [] i v h = refl
      set_outside (y ∷ l) zero v h = absurd (omega arith)
      set_outside (y ∷ l) (suc i) v h = ap (λ t. y ∷ t) (set_outside l i v (omega arith))

  and_left : (a b : Bool) → (a && b) ≡ true → a ≡ true
  and_left true b h = refl
  and_left false b h = h

  spike_round-Refines :
      (t : float.F) (values : List float.F) (i : ℕ) (flags : List Verdict)
      → Refines flags (spike_round float t values i flags)
  unfolding spike_round
  spike_round-Refines t values i flags =
      let d =
        departs float t values i (flag_at float flags (i - 1)) (flag_at float flags (i + 1)) in
      elim (Bool-cases (is_ok (flag_at float flags i) && d)) [
        | inl e ↦
            rw e (set-Refines flags i spike (and_left (is_ok (flag_at float flags i)) d e) refl)
        | inr e ↦ rw e (Refines-refl flags)
      ]

  spike_rounds-Refines :
      (t : float.F) (values : List float.F) (k i : ℕ) (flags : List Verdict)
      → Refines flags (spike_rounds float t values k i flags)
  unfolding spike_rounds
  spike_rounds-Refines t values zero i flags = Refines-refl flags
  spike_rounds-Refines t values (suc k) i flags =
      Refines-trans _ _ _ (spike_round-Refines t values i flags)
        (spike_rounds-Refines t values k (i + 1) (spike_round float t values i flags))

  flag_spikes-Refines :
      (t : Option float.F) (values : List float.F) (flags : List Verdict)
      → Refines flags (flag_spikes float t values flags)
  unfolding flag_spikes
  flag_spikes-Refines none values flags = Refines-refl flags
  flag_spikes-Refines (some t) values flags =
      spike_rounds-Refines t values (length values - 2) 1 flags

  mark_run-Refines : (k j : ℕ) (flags : List Verdict) → Refines flags (mark_run float k j flags)
  unfolding mark_run
  mark_run-Refines zero j flags = Refines-refl flags
  mark_run-Refines (suc k) j flags = elim (Bool-cases (is_ok (flag_at float flags j))) [
    | inl e ↦ rw e (
        Refines-trans _ _ _ (set-Refines flags j flatline e refl)
          (mark_run-Refines k (j + 1) (set flags j flatline)))
    | inr e ↦ rw e (mark_run-Refines k (j + 1) flags)
  ]

  -- Every round of the loop starts from the flags that the round before left.
  flatline_rounds-Refines :
      (values : List float.F) (k i s : ℕ) (flags : List Verdict)
      → Refines flags (flatline_rounds float values k i s flags)
  unfolding flatline_rounds
  flatline_rounds-Refines values zero i s flags = Refines-refl flags
  flatline_rounds-Refines values (suc k) i s flags =
      elim (Bool-cases
        (ltb i (length values) && float.eq (at float values i) (at float values s))) [
          | inl same ↦ rw same (flatline_rounds-Refines values k (i + 1) s flags)
          | inr differ ↦ elim (Bool-cases (leb 6 (i - s))) [
            | inl long ↦
                rw (differ, long)
                  (Refines-trans _ _ _ (mark_run-Refines (i - s) s flags)
                    (flatline_rounds-Refines values k (i + 1) i (mark_run float (i - s) s flags)))
            | inr short ↦ rw (differ, short) (flatline_rounds-Refines values k (i + 1) i flags)
          ]
        ]

  abbrev ranges : List (Observation float) → List Verdict
  ranges = map (range_flag float)

  series_flags-Refines :
      (series : List (Observation float)) → Refines (ranges series) (series_flags float series)
  unfolding series_flags flag_flatline
  series_flags-Refines series =
      let values = map (λ (o : Observation float). o.value) series in
      Refines-trans _ _ _
        (flag_spikes-Refines (series_threshold float series) values (ranges series))
        (flatline_rounds-Refines values (length values) 1 0 _)

  pub length-series_flags :
      (series : List (Observation float)) → length (series_flags float series) ≡ length series
  length-series_flags series =
      (series_flags-Refines series).same_length ∙ length-map (range_flag float) series

  -- At every reading of a series the final verdict is that of the range check, or the range check
  -- found nothing and the verdict is a spike or a flatline: a reading out of range keeps its
  -- verdict, and no other reading is called out of range.
  pub series_flags-Refined :
      (series : List (Observation float)) (x : ℕ)
      → Refined
          (get_or (map (range_flag float) series) x ok)
          (get_or (series_flags float series) x ok)
  series_flags-Refined series x = (series_flags-Refines series).at_each x
