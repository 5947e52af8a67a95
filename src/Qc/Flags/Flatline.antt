-- ===== src/Qc/Flags/Flatline.antt =====
-- `_flag_flatline`: it marks exactly the readings that stand in six neighbours with one value.
pub mod Loop
use swelter.Prelude.{
  ℕ, zero, suc, ◌+◌, ◌-◌, ◌≤◌, ◌<◌, ◌≡◌, ◌≢◌, ◌⊎◌, inl, inr, refl, sym, ap, ◌∙◌, List, [], ◌∷◌,
  Bool, true, false, ◌&&◌, if◌then◌else◌, ltb, leb, ltb→lt, lt→ltb, leb→le, ltb-false→le,
  leb-false→lt, length, get_or, set, length-set, get_or-set_self, get_or-set_ne, arith, Bool-cases,
  subst,
}
use swelter.Float.{Float}
use swelter.Models.{Verdict, ok, flatline, is_ok}
use swelter.Qc.Flags.{at, flag_at, mark_run, flatline_rounds, flag_flatline}

-- What a mark does to a verdict: only a clean one changes.
abbrev pub mark : Verdict → Verdict
mark v = if is_ok v then flatline else v

module _ (float : Float) where
  mark_one : ℕ → List Verdict → List Verdict
  mark_one j flags = if is_ok (flag_at float flags j) then set flags j flatline else flags

  length-mark_one : (j : ℕ) (flags : List Verdict) → length (mark_one j flags) ≡ length flags
  unfolding mark_one
  length-mark_one j flags = elim (Bool-cases (is_ok (flag_at float flags j))) [
    | inl e ↦ rw e (length-set flags j flatline)
    | inr e ↦ rw e
  ]

  mark_one_self :
      (j : ℕ) (flags : List Verdict)
      → j < length flags
      → flag_at float (mark_one j flags) j ≡ mark (flag_at float flags j)
  unfolding mark_one
  mark_one_self j flags h = elim (Bool-cases (is_ok (flag_at float flags j))) [
    | inl e ↦ rw e (get_or-set_self flags j flatline ok h)
    | inr e ↦ rw e
  ]

  mark_one_ne :
      (j x : ℕ) (flags : List Verdict)
      → j ≢ x
      → flag_at float (mark_one j flags) x ≡ flag_at float flags x
  unfolding mark_one
  mark_one_ne j x flags n = elim (Bool-cases (is_ok (flag_at float flags j))) [
    | inl e ↦ rw e (get_or-set_ne flags j x flatline ok n)
    | inr e ↦ rw e
  ]

  mark_run_step :
      (k j : ℕ) (flags : List Verdict)
      → mark_run float (suc k) j flags ≡ mark_run float k (j + 1) (mark_one j flags)
  unfolding mark_run mark_one
  mark_run_step k j flags = refl

  length-mark_run :
      (k j : ℕ) (flags : List Verdict) → length (mark_run float k j flags) ≡ length flags
  length-mark_run zero j flags = unfold mark_run in refl
  length-mark_run (suc k) j flags =
      ap length (mark_run_step k j flags)
      ∙ length-mark_run k (j + 1) (mark_one j flags)
      ∙ length-mark_one j flags

  mark_run_out :
      (k j x : ℕ) (flags : List Verdict)
      → (x < j) ⊎ (j + k ≤ x)
      → flag_at float (mark_run float k j flags) x ≡ flag_at float flags x
  mark_run_out zero j x flags h = unfold mark_run in refl
  mark_run_out (suc k) j x flags h =
      ap (λ l. flag_at float l x) (mark_run_step k j flags)
      ∙ mark_run_out k (j + 1) x (mark_one j flags) (omega arith)
      ∙ mark_one_ne j x flags (omega arith)

  mark_run_in :
      (k j x : ℕ) (flags : List Verdict)
      → j ≤ x
      → x < j + k
      → j + k ≤ length flags
      → flag_at float (mark_run float k j flags) x ≡ mark (flag_at float flags x)
  mark_run_in zero j x flags low high room = absurd (omega arith)
  mark_run_in (suc k) j x flags low high room = elim (Bool-cases (ltb j x)) [
    | inl later ↦
        ap (λ l. flag_at float l x) (mark_run_step k j flags)
        ∙ mark_run_in k (j + 1) x (mark_one j flags) (omega (arith, ltb→lt j x later)) (omega arith)
            (omega (arith, length-mark_one j flags))
        ∙ ap mark (mark_one_ne j x flags (omega (arith, ltb→lt j x later)))
    | inr here ↦
        let e : x ≡ j = omega (arith, ltb-false→le j x here) in
        ap (λ l. flag_at float l x) (mark_run_step k j flags)
        ∙ mark_run_out k (j + 1) x (mark_one j flags) (omega arith)
        ∙ rw e (mark_one_self j flags (omega arith))
  ]

module _ (float : Float) (values : List float.F) where
  -- Two readings of the series have one value, as Python's `==` tells.
  abbrev pub Same : ℕ → ℕ → Type 0
  Same i j = float.eq (at float values i) (at float values j) ≡ true

  -- `==` is an equivalence on the values, as it is where none of them is NaN.
  pub record SameLaws : Type 0 where
    pub same_refl : (i : ℕ) → Same i i
    pub same_sym : (i j : ℕ) → Same i j → Same j i
    pub same_trans : (i j k : ℕ) → Same i j → Same j k → Same i k

  -- The reading at j stands in six neighbours with one value.
  pub record Stuck (j : ℕ) : Type 0 where
    pub first : ℕ
    pub low : first ≤ j
    pub high : j ≤ first + 5
    pub inside : first + 5 < length values
    pub equal : (k : ℕ) → first ≤ k → k ≤ first + 5 → Same k first

  -- The verdict at j was marked if the reading is stuck, and is as before if it is not.
  abbrev pub IsSettled : List Verdict → List Verdict → ℕ → Type 0
  IsSettled before after j =
      (Stuck j × (flag_at float after j ≡ mark (flag_at float before j)))
      ⊎ (¬ Stuck j × (flag_at float after j ≡ flag_at float before j))
