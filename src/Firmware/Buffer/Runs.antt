-- ===== src/Firmware/Buffer/Runs.antt =====
-- The buffer over any sequence of operations.
use swelter.Prelude.{
  ℕ, ◌≤◌, ◌≡◌, ◌⊎◌, inr, refl, ap, List, [], ◌∷◌, true, Option, none, some, length, length-append,
  arith, ◌∙◌,
}
use swelter.Firmware.Buffer.{World, Settings, Buffer, read_lines, pending, start, append, flush}
use swelter.Firmware.Buffer.Lines.{TextLaws, IsCounted}
use swelter.Firmware.Buffer.Flush.{
  flush-Outcome, max_records-flush, is_ended-flush, flush-IsCounted,
}
use swelter.Firmware.Buffer.Cap.{append-Appended, max_records-append}

module _ (w : World) where
  open w use {Payload, Line, Link}

  -- What the node does with its buffer, in any order: a sample that produced a payload or none, and
  -- an attempt to flush.
  pub data Op : Type 0 where
    sample : Option Payload → Op
    attempt : Option ℕ → Op

  abbrev pub step : Buffer w × Link → Op → Buffer w × Link
  step (b, link) (sample payload) = (append w b payload, link)
  step (b, link) (attempt limit) = let after = flush w limit b link in (after.1, after.2)

  abbrev pub run : Buffer w × Link → List Op → Buffer w × Link
  run state [] = state
  run state (op ∷ ops) = run (step state op) ops

  pub record IsSound (max_records : ℕ) (b : Buffer w) : Type 0 where
    pub cap : b.set_up.max_records ≡ max_records
    pub is_ended : b.is_ended ≡ true
    pub counted : IsCounted w b
    pub bounded : (max_records ≡ 0) ⊎ (b.count ≤ max_records)

  module _ (laws : TextLaws w) where
    append-IsSound :
        (n : ℕ) (b : Buffer w) (payload : Option Payload)
        → IsSound n b
        → IsSound n (append w b payload)
    append-IsSound n b none h = unfold append in h
    append-IsSound n b (some p) h =
        let a = append-Appended w laws b p h.is_ended h.counted in
        record {
          cap = max_records-append w b (some p) ∙ h.cap;
          is_ended = a.is_ended;
          counted = a.counted;
          bounded = omega (arith, h.cap, a.bounded);
        }

    flush-IsSound :
        (n : ℕ) (b : Buffer w) (limit : Option ℕ) (link : Link)
        → IsSound n b
        → IsSound n (flush w limit b link).1
    flush-IsSound n b limit link h =
        let o = flush-Outcome w laws limit b link in
        let counted = flush-IsCounted w laws limit b link h.counted in
        let left = read_lines w (flush w limit b link).1.file in
        record {
          cap = max_records-flush w limit b link ∙ h.cap;
          is_ended = is_ended-flush w limit b link h.is_ended;
          counted = counted;
          bounded =
              unfold pending in
              omega (
                arith,
                h.bounded,
                h.counted,
                counted,
                ap length o.split,
                length-append o.handled left,
              );
        }

    run-IsSound :
        (n : ℕ) (state : Buffer w × Link) (ops : List Op)
        → IsSound n state.0
        → IsSound n (run state ops).0
    run-IsSound n state [] h = h
    run-IsSound n (b, link) (sample p ∷ ops) h =
        run-IsSound n (append w b p, link) ops (append-IsSound n b p h)
    run-IsSound n (b, link) (attempt limit ∷ ops) h =
        let after = flush w limit b link in
        run-IsSound n (after.1, after.2) ops (flush-IsSound n b limit link h)

    -- A node that starts over a file of at most `max_records` lines that are not blank, the last of
    -- which ends with a newline, keeps over any sequence of samples and flushes with any transport
    -- a file that ends with a newline, a cached count that is the number of its lines that are not
    -- blank, and under a cap never more than `max_records` of them.
    pub run-start-IsSound :
        (s : Settings) (file : List Line) (link : Link) (ops : List Op)
        → length (read_lines w file) ≤ s.max_records
        → IsSound s.max_records (run (start w s file true, link) ops).0
    run-start-IsSound s file link ops h = run-IsSound s.max_records _ ops (
        unfold start pending in
        record { cap = refl; is_ended = refl; counted = refl; bounded = inr h })
