-- ===== src/Firmware/Buffer/Crash.antt =====
-- `_rewrite` and `_replace` as single steps on flash, and what a reset between two of them leaves.
use swelter.Prelude.{
  ℕ, zero, suc, ◌+◌, ◌≡◌, ◌⊎◌, inl, inr, refl, sym, ap, ◌∙◌, List, [], ◌∷◌, ◌++◌, map, Bool, true,
  false, Option, none, some, length, append_assoc, append-nil,
}
use native.Mathlib.Nat.{zero-add, suc-add}

-- The two files of the buffer: `path` and `path + ".tmp"`; `none` is a file that is not there.
pub record Flash (Line : Type 0) : Type 0 where
  pub buffer : Option (List Line)
  pub tmp : Option (List Line)

module _ {Line : Type 0} where
  abbrev content : Option (List Line) → List Line
  content none = []
  content (some lines) = lines

  -- `open(tmp, "w")`
  abbrev pub open_tmp : Flash Line → Flash Line
  open_tmp f = record f { tmp = some [] }

  -- `handle.write(line + "\n")`, on flash at once or at the latest with `_sync`.
  abbrev pub write_tmp : Line → Flash Line → Flash Line
  write_tmp line f = record f { tmp = some (content f.tmp ++ line ∷ []) }

  -- `os.replace(tmp, path)`
  abbrev pub replace : Flash Line → Flash Line
  replace f = record { buffer = f.tmp; tmp = none }

  -- `os.remove(path)`
  abbrev pub remove : Flash Line → Flash Line
  remove f = record f { buffer = none }

  -- `os.rename(tmp, path)`
  abbrev pub rename : Flash Line → Flash Line
  rename f = record { buffer = f.tmp; tmp = none }

  -- `_replace`: one step where the runtime has `os.replace`, and two where it has not.
  unfoldable pub replace_steps : Bool → List (Flash Line → Flash Line)
  replace_steps true = replace ∷ []
  replace_steps false = remove ∷ rename ∷ []

  -- `_rewrite`, step by step.
  unfoldable pub rewrite_steps : Bool → List Line → List (Flash Line → Flash Line)
  unfolding replace_steps
  rewrite_steps has_replace lines = open_tmp ∷ map write_tmp lines ++ replace_steps has_replace

  -- The flash after a reset that comes behind the first k steps.
  unfoldable pub reset_after : ℕ → List (Flash Line → Flash Line) → Flash Line → Flash Line
  reset_after zero steps f = f
  reset_after (suc k) [] f = f
  reset_after (suc k) (step ∷ steps) f = reset_after k steps (step f)

  -- While the temporary file is written, the buffer is as it was.
  writing :
      (k : ℕ) (lines : List Line) (f : Flash Line) (old new written : List Line)
      → f.buffer ≡ some old
      → f.tmp ≡ some written
      → new ≡ written ++ lines
      → (let g = reset_after k (map write_tmp lines ++ replace ∷ []) f in
          (g.buffer ≡ some old) ⊎ (g.buffer ≡ some new))
  unfolding reset_after
  writing zero lines f old new written b t e = inl b
  writing (suc zero) [] f old new written b t e =
      inr (t ∙ ap some (sym (append-nil written)) ∙ ap some (sym e))
  writing (suc (suc k)) [] f old new written b t e =
      inr (t ∙ ap some (sym (append-nil written)) ∙ ap some (sym e))
  writing (suc k) (line ∷ lines) f old new written b t e =
      writing k lines (write_tmp line f) old new (written ++ line ∷ []) b
        (ap (λ o. some (content o ++ line ∷ [])) t)
        (e ∙ sym (append_assoc written (line ∷ []) lines))

  -- Where the runtime has `os.replace`, a reset behind any number of the steps of a rewrite leaves
  -- the buffer with its old lines or with exactly the new ones.
  pub rewrite_atomic :
      (k : ℕ) (lines old : List Line) (f : Flash Line)
      → f.buffer ≡ some old
      → (let g = reset_after k (rewrite_steps true lines) f in
          (g.buffer ≡ some old) ⊎ (g.buffer ≡ some lines))
  unfolding rewrite_steps reset_after
  rewrite_atomic zero lines old f b = inl b
  rewrite_atomic (suc k) lines old f b = writing k lines (open_tmp f) old lines [] b refl refl

  finish :
      (lines : List Line) (steps : List (Flash Line → Flash Line)) (f : Flash Line) (k : ℕ)
      (written : List Line)
      → f.tmp ≡ some written
      → reset_after (length lines + k) (map write_tmp lines ++ steps) f
        ≡ reset_after k steps (record f { tmp = some (written ++ lines) })
  unfolding reset_after
  finish [] steps f k written t =
      let q : f.tmp ≡ some (written ++ []) = t ∙ ap some (sym (append-nil written)) in
      rw zero-add (ap (λ (o : Option (List Line)). reset_after k steps (record f { tmp = o })) q)
  finish (line ∷ lines) steps f k written t = rw (suc-add (length lines) k) (
      finish lines steps (write_tmp line f) k (written ++ line ∷ [])
        (ap (λ o. some (content o ++ line ∷ [])) t)
      ∙ ap (λ (l : List Line). reset_after k steps (record f { tmp = some l }))
          (append_assoc written (line ∷ []) lines))

  -- All steps of a rewrite leave exactly the new lines, by either way to replace.
  pub rewrite_result :
      (has_replace : Bool) (lines : List Line) (f : Flash Line)
      → reset_after (suc (length lines + 2)) (rewrite_steps has_replace lines) f
        ≡ record { buffer = some lines; tmp = none }
  unfolding rewrite_steps reset_after
  rewrite_result true lines f = finish lines (replace ∷ []) (open_tmp f) 2 [] refl
  rewrite_result false lines f = finish lines (remove ∷ rename ∷ []) (open_tmp f) 2 [] refl

  -- Where the runtime has no `os.replace`, there is a step of every rewrite behind which a reset
  -- leaves no buffer at all, whatever its old and new lines: both are lost to `_read_lines`.
  pub rewrite_gap :
      (lines : List Line) (f : Flash Line)
      → (reset_after (suc (length lines + 1)) (rewrite_steps false lines) f).buffer ≡ none
  unfolding rewrite_steps reset_after
  rewrite_gap lines f =
      ap (λ (g : Flash Line). g.buffer) (finish lines (remove ∷ rename ∷ []) (open_tmp f) 1 [] refl)
