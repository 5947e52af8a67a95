-- ===== src/Qc/Flags/Flatline/Loop.antt =====
-- The invariant of the loop of `_flag_flatline`.
use swelter.Prelude.{
  ℕ, zero, suc, ◌+◌, ◌-◌, ◌≤◌, ◌<◌, ◌≡◌, ◌⊎◌, inl, inr, refl, ap, ◌∙◌, List, Bool, true, false,
  ◌&&◌, if◌then◌else◌, ltb, leb, ltb→lt, leb→le, ltb-false→le, leb-false→lt, length, arith,
  Bool-cases,
}
use swelter.Float.{Float}
use swelter.Models.{Verdict}
use swelter.Qc.Flags.{at, flag_at, mark_run, flatline_rounds, flag_flatline}
use swelter.Qc.Flags.Flatline.{
  mark, length-mark_run, mark_run_out, mark_run_in, Same, SameLaws, Stuck, IsSettled,
}

module _ (float : Float) (values : List float.F) (laws : SameLaws float values)
    (before : List Verdict) where
  open laws use {same_refl, same_sym, same_trans}

  -- The loop is at i, in a run of one value that starts at s.
  record Inv (i s : ℕ) (flags : List Verdict) : Type 0 where
    ahead : s < i
    ended : (i ≤ length values) ⊎ (s ≡ length values)
    room : length flags ≡ length values
    run : (j : ℕ) → s ≤ j → j < i → Same float values j s
    border : (s ≡ 0) ⊎ ((s ≡ length values) ⊎ (¬ Same float values s (s - 1)))
    settled : (j : ℕ) → j < s → IsSettled float values before flags j
    rest : (j : ℕ) → s ≤ j → flag_at float flags j ≡ flag_at float before j

  -- The run ends at i: there the values end, or another value stands.
  abbrev IsEnd : ℕ → ℕ → Type 0
  IsEnd i s = (length values ≤ i) ⊎ (¬ Same float values i s)

  module _ (i s : ℕ) (flags : List Verdict) (inv : Inv i s flags) (h : i ≤ length values)
      (end : IsEnd i s) where
    -- Six neighbours with one value do not cross the ends of the run.
    Stuck-inside :
        (j : ℕ) → s ≤ j → j < i → (w : Stuck float values j) → (s ≤ w.first) × (w.first + 5 < i)
    Stuck-inside j low high w = (starts, stops)
      where
        starts : s ≤ w.first
        starts = elim (Bool-cases (ltb w.first s)) [
          | inr e ↦ ltb-false→le w.first s e
          | inl e ↦
              let lt = ltb→lt w.first s e in
              let one = w.equal s (omega arith) (omega (arith, w.high)) in
              let two = w.equal (s - 1) (omega arith) (omega (arith, w.high)) in
              let both = same_trans s w.first (s - 1) one (same_sym (s - 1) w.first two) in
              elim inv.border [
                | inl zero_start ↦ absurd (omega arith)
                | inr (inl at_end) ↦ absurd (omega arith)
                | inr (inr other) ↦ absurd (other both)
              ]
        ]

        stops : w.first + 5 < i
        stops = elim (Bool-cases (ltb (w.first + 5) i)) [
          | inl e ↦ ltb→lt (w.first + 5) i e
          | inr e ↦
              let ge = ltb-false→le (w.first + 5) i e in
              elim end [
                | inl over ↦ absurd (omega (arith, w.inside))
                | inr other ↦
                    let one = w.equal i (omega (arith, w.low)) ge in
                    let two = w.equal j w.low w.high in
                    absurd (
                      other (
                        same_trans i w.first s one
                          (same_trans w.first j s (same_sym j w.first two) (inv.run j low high))))
              ]
        ]

    -- A run of at least six makes each of its readings stuck.
    run-Stuck : (j : ℕ) → s ≤ j → j < i → 6 ≤ i - s → Stuck float values j
    run-Stuck j low high long = elim (Bool-cases (ltb (j + 5) i)) [
      | inl e ↦
          window j (omega arith) (omega arith) (omega arith) (omega (arith, ltb→lt (j + 5) i e))
      | inr e ↦
          window (i - 6) (omega (arith, ltb-false→le (j + 5) i e))
            (omega (arith, ltb-false→le (j + 5) i e)) (omega arith) (omega arith)
    ]
      where
        window : (a : ℕ) → a ≤ j → j ≤ a + 5 → s ≤ a → a + 5 < i → Stuck float values j
        window a la ha sa ia = record {
          first = a;
          low = la;
          high = ha;
          inside = omega arith;
          equal = λ k lk hk.
              same_trans k s a (inv.run k (omega arith) (omega arith))
                (same_sym a s (inv.run a sa (omega arith)));
        }

    abbrev closed : List Verdict
    closed = if leb 6 (i - s) then mark_run float (i - s) s flags else flags

    closed-IsSettled : (j : ℕ) → j < i → IsSettled float values before closed j
    closed-IsSettled j high = elim (Bool-cases (leb 6 (i - s))) [
      | inl long ↦ rw long (marked (leb→le 6 (i - s) long))
      | inr short ↦ rw short (kept (leb-false→lt 6 (i - s) short))
    ]
      where
        marked : 6 ≤ i - s → IsSettled float values before (mark_run float (i - s) s flags) j
        marked long = elim (Bool-cases (ltb j s)) [
          | inl e ↦ earlier (ltb→lt j s e)
          | inr e ↦
              let low = ltb-false→le j s e in
              inl (
                run-Stuck j low high long,
                mark_run_in float (i - s) s j flags low (omega arith)
                      (omega (arith, inv.room, inv.ahead))
                    ∙ ap mark (inv.rest j low),
              )
        ]
          where
            earlier : j < s → IsSettled float values before (mark_run float (i - s) s flags) j
            earlier lt =
                let e = mark_run_out float (i - s) s j flags (inl lt) in
                elim (inv.settled j lt) [
                  | inl (st, f) ↦ inl (st, e ∙ f)
                  | inr (free, f) ↦ inr (free, e ∙ f)
                ]

        kept : i - s < 6 → IsSettled float values before flags j
        kept short = elim (Bool-cases (ltb j s)) [
          | inl e ↦ inv.settled j (ltb→lt j s e)
          | inr e ↦
              let low = ltb-false→le j s e in
              inr (λ w. let (a, b) = Stuck-inside j low high w in omega arith, inv.rest j low)
        ]

    length-closed : length closed ≡ length values
    length-closed = elim (Bool-cases (leb 6 (i - s))) [
      | inl long ↦ rw long (length-mark_run float (i - s) s flags ∙ inv.room)
      | inr short ↦ rw short inv.room
    ]

    closed-rest : (j : ℕ) → i ≤ j → flag_at float closed j ≡ flag_at float before j
    closed-rest j low = elim (Bool-cases (leb 6 (i - s))) [
      | inl long ↦ rw long (
          mark_run_out float (i - s) s j flags (inr (omega (arith, inv.ahead)))
          ∙ inv.rest j (omega (arith, inv.ahead)))
      | inr short ↦ rw short (inv.rest j (omega (arith, inv.ahead)))
    ]

    border_of_end : (i ≡ 0) ⊎ ((i ≡ length values) ⊎ (¬ Same float values i (i - 1)))
    border_of_end = elim end [
      | inl over ↦ inr (inl (omega arith))
      | inr other ↦ inr (
          inr λ e. other (
            same_trans i (i - 1) s e
              (inv.run (i - 1) (omega (arith, inv.ahead)) (omega (arith, inv.ahead)))))
    ]

    -- The round that ends the run.
    end-Inv : Inv (i + 1) i closed
    end-Inv = record {
      ahead = omega arith;
      ended = omega arith;
      room = length-closed;
      run = λ j low high. let e : j ≡ i = omega arith in rw e (same_refl i);
      border = border_of_end;
      settled = closed-IsSettled;
      rest = closed-rest;
    }

  -- The round that lengthens the run.
  longer-Inv :
      (i s : ℕ) (flags : List Verdict)
      → Inv i s flags
      → i < length values
      → Same float values i s
      → Inv (i + 1) s flags
  longer-Inv i s flags inv h same = record {
    ahead = omega (arith, inv.ahead);
    ended = inl (omega arith);
    room = inv.room;
    run = λ j low high. elim (Bool-cases (ltb j i)) [
      | inl e ↦ inv.run j low (ltb→lt j i e)
      | inr e ↦ let here : j ≡ i = omega (arith, ltb-false→le j i e) in rw here same
    ];
    border = inv.border;
    settled = inv.settled;
    rest = inv.rest;
  }

  and_true : (a b : Bool) → (a && b) ≡ true → (a ≡ true) × (b ≡ true)
  and_true true b h = (refl, h)
  and_true false b h = cc

  is_end :
      (i s : ℕ) (b : Bool)
      → (ltb i (length values) && b) ≡ false
      → (b ≡ true → Same float values i s)
      → (Same float values i s → b ≡ true)
      → IsEnd i s
  is_end i s true h f g = inl (ground arith)
  is_end i s false h f g = inr (λ e. cc (g e))

  rounds-IsSettled :
      (k i s : ℕ) (flags : List Verdict)
      → i + k ≡ length values + 1
      → Inv i s flags
      → (j : ℕ) → j < length values
      → IsSettled float values before (flatline_rounds float values k i s flags) j
  unfolding flatline_rounds
  rounds-IsSettled zero i s flags e inv j h =
      inv.settled j (elim inv.ended [ inl a ↦ absurd (omega arith) | inr b ↦ omega arith ])
  rounds-IsSettled (suc k) i s flags e inv j h =
      let eqb = float.eq (at float values i) (at float values s) in
      elim (Bool-cases (ltb i (length values) && eqb)) [
        | inl same ↦
            let (lt, eq) = and_true (ltb i (length values)) eqb same in
            rw same (
              rounds-IsSettled k (i + 1) s flags (omega arith)
                (longer-Inv i s flags inv (ltb→lt i (length values) lt) eq) j h)
        | inr differ ↦
            let end = is_end i s eqb differ (λ x. x) (λ x. x) in
            rw differ (
              rounds-IsSettled k (i + 1) i (closed i s flags inv (omega arith) end) (omega arith)
                (end-Inv i s flags inv (omega arith) end) j h)
      ]

  -- The hypotheses are that `==` is an equivalence on the values and that there is a verdict for
  -- each. At every reading, `_flag_flatline` marks a clean verdict as a flatline if the reading
  -- stands in six neighbours with one value, and leaves every other verdict as it was.
  pub flag_flatline-IsSettled :
      length before ≡ length values
      → (j : ℕ) → j < length values
      → IsSettled float values before (flag_flatline float values before) j
  unfolding flag_flatline
  flag_flatline-IsSettled room j h =
      rounds-IsSettled (length values) 1 0 before (omega arith)
        (record {
          ahead = omega arith;
          ended = omega arith;
          room = room;
          run = λ i low high. let e : i ≡ 0 = omega arith in rw e (same_refl 0);
          border = inl refl;
          settled = λ i lt. elim lt [ ];
          rest = λ i low. refl;
        })
        j h
