-- ===== src/Qc/Flags/Spikes.antt =====
-- `_flag_spikes`: what its loop, which reads flags that it has written, says of each reading.
use swelter.Prelude.{
  ℕ, zero, suc, ◌+◌, ◌-◌, ◌≤◌, ◌<◌, ◌≡◌, ◌≢◌, ◌⊎◌, inl, inr, refl, ◌∙◌, List, ◌&&◌, if◌then◌else◌,
  ltb, leb, ltb→lt, ltb-false→le, some, length, length-set, get_or-set_self, get_or-set_ne, arith,
  Bool-cases,
}
use swelter.Float.{Float}
use swelter.Models.{Verdict, ok, spike, is_ok}
use swelter.Qc.Flags.{flag_at, departs, spike_round, spike_rounds, flag_spikes}

module _ (float : Float) (threshold : float.F) (values : List float.F) where
  -- The verdict of a reading that had `own`, with the verdicts before and after it.
  abbrev pub judged : ℕ → Verdict → Verdict → Verdict → Verdict
  judged x own before after =
      if is_ok own && departs float threshold values x before after then spike else own

  round_ne :
      (i x : ℕ) (flags : List Verdict)
      → i ≢ x
      → flag_at float (spike_round float threshold values i flags) x ≡ flag_at float flags x
  unfolding spike_round
  round_ne i x flags n =
      elim (Bool-cases (
        is_ok (flag_at float flags i)
        && departs float threshold values i (flag_at float flags (i - 1))
            (flag_at float flags (i + 1)))) [
              | inl e ↦ rw e (get_or-set_ne flags i x spike ok n)
              | inr e ↦ rw e
            ]

  round_self :
      (i : ℕ) (flags : List Verdict)
      → i < length flags
      → flag_at float (spike_round float threshold values i flags) i
        ≡ judged i
            (flag_at float flags i)
            (flag_at float flags (i - 1))
            (flag_at float flags (i + 1))
  unfolding spike_round
  round_self i flags h =
      elim (Bool-cases (
        is_ok (flag_at float flags i)
        && departs float threshold values i (flag_at float flags (i - 1))
            (flag_at float flags (i + 1)))) [
              | inl e ↦ rw e (get_or-set_self flags i spike ok h)
              | inr e ↦ rw e
            ]

  length-round :
      (i : ℕ) (flags : List Verdict)
      → length (spike_round float threshold values i flags) ≡ length flags
  unfolding spike_round
  length-round i flags =
      elim (Bool-cases (
        is_ok (flag_at float flags i)
        && departs float threshold values i (flag_at float flags (i - 1))
            (flag_at float flags (i + 1)))) [
              | inl e ↦ rw e (length-set flags i spike)
              | inr e ↦ rw e
            ]

  pub length-spike_rounds :
      (k i : ℕ) (flags : List Verdict)
      → length (spike_rounds float threshold values k i flags) ≡ length flags
  unfolding spike_rounds
  length-spike_rounds zero i flags = refl
  length-spike_rounds (suc k) i flags =
      length-spike_rounds k (i + 1) (spike_round float threshold values i flags)
      ∙ length-round i flags

  rounds_out :
      (k i x : ℕ) (flags : List Verdict)
      → (x < i) ⊎ (i + k ≤ x)
      → flag_at float (spike_rounds float threshold values k i flags) x ≡ flag_at float flags x
  unfolding spike_rounds
  rounds_out zero i x flags h = refl
  rounds_out (suc k) i x flags h =
      rounds_out k (i + 1) x (spike_round float threshold values i flags) (omega arith)
      ∙ round_ne i x flags (omega arith)

  rounds_in :
      (k i x : ℕ) (flags : List Verdict)
      → 1 ≤ i
      → i ≤ x
      → x < i + k
      → i + k ≤ length flags
      → (let after = spike_rounds float threshold values k i flags in
          flag_at float after x
          ≡ judged x
              (flag_at float flags x)
              (flag_at float after (x - 1))
              (flag_at float flags (x + 1)))
  unfolding spike_rounds
  rounds_in zero i x flags one low high room = absurd (omega arith)
  rounds_in (suc k) i x flags one low high room =
      let flags' = spike_round float threshold values i flags in
      elim (Bool-cases (ltb i x)) [
        | inl later ↦
            let lt = ltb→lt i x later in
            rounds_in k (i + 1) x flags' (omega arith) (omega arith) (omega arith)
              (omega (arith, length-round i flags))
            ∙ rw (round_ne i x flags (omega arith), round_ne i (x + 1) flags (omega arith)) refl
        | inr here ↦
            let e : x ≡ i = omega (arith, ltb-false→le i x here) in
            rw e (
              rounds_out k (i + 1) i flags' (omega arith)
              ∙ round_self i flags (omega arith)
              ∙ rw
                  (
                    rounds_out k (i + 1) (i - 1) flags' (omega arith),
                    round_ne i (i - 1) flags (omega arith),
                  )
                  refl)
      ]

  -- The hypothesis is that there is a verdict for each value. The first and the last verdict stay
  -- as they are. Every other becomes a spike if it was clean and its reading departs from the clean
  -- ones beside it, the one before taken with the verdict that the loop has given it and the one
  -- after with the verdict that it had; otherwise it stays as it is.
  pub flag_spikes-judged :
      (flags : List Verdict)
      → length flags ≡ length values
      → (x : ℕ) → x < length values
      → (let after = flag_spikes float (some threshold) values flags in
          if leb 1 x && ltb (x + 1) (length values)
          then (flag_at float after x
              ≡ judged x
                  (flag_at float flags x)
                  (flag_at float after (x - 1))
                  (flag_at float flags (x + 1)))
          else (flag_at float after x ≡ flag_at float flags x))
  unfolding flag_spikes
  flag_spikes-judged flags room x h = elim (Bool-cases (leb 1 x && ltb (x + 1) (length values))) [
    | inl inner ↦ rw inner (
        rounds_in (length values - 2) 1 x flags (omega arith) (ground arith) (ground arith)
          (ground arith))
    | inr outer ↦ rw outer (rounds_out (length values - 2) 1 x flags (ground arith))
  ]
