-- ===== src/Ingest/Account.antt =====
-- What a run of `ingest` reports: every payload is accounted for, and a replay stores nothing.
use swelter.Prelude.{
  ℕ, suc, ◌+◌, ◌≡◌, refl, ap, subst, ◌∙◌, String, List, [], ◌∷◌, length, length-append, Bool,
  Option, none, some, arith,
}
use swelter.Prelude.Int.{ℤ}
use swelter.Float.{Float}
use swelter.Models.{Observation}
use swelter.Store.{Table, WriteResult, write, count}
use swelter.Store.Keys.{IsKeyed}
use swelter.Store.Replay.{Written, write-Written, all_duplicates, write_replay}
use swelter.Ingest.Values.{Json, Fields}
use swelter.Ingest.{
  Canonical, Exploded, observations, quarantine, raises, Entry, Batch, rejected, accepted_with,
  take_payload, take_payloads, new_batch, labelled, ingest, IngestResult, judge, and_then, report,
  finish,
}

module _ (float : Float) (of_int : ℤ → Option float.F) (is_finite : float.F → Bool)
    (canonical : String → Canonical) where
  abbrev Loop : Type 0
  Loop = Batch float of_int is_finite canonical

  -- As many payloads as were accepted and quarantined, and a line for each that was quarantined.
  Counts : ℕ → Loop → Type 0
  Counts n b = (b.accepted + b.quarantined ≡ n) × (length b.entries ≡ b.quarantined)

  -- The state after a round that did not raise.
  After : ℕ → Option Loop → Type 0
  After n none = Unit
  After n (some b) = Counts n b

  Counts-rejected :
      (n : ℕ) (e : Entry float of_int is_finite canonical) (b : Loop)
      → Counts n b
      → Counts (suc n) (rejected float of_int is_finite canonical e b)
  unfolding Counts
  Counts-rejected n e b h =
      (omega (arith, h.0), length-append b.entries (e ∷ []) ∙ omega (arith, h.1))

  Counts-accepted_with :
      (n : ℕ) (os : List (Observation float)) (b : Loop)
      → Counts n b
      → Counts (suc n) (accepted_with float of_int is_finite canonical os b)
  unfolding Counts
  Counts-accepted_with n os b h = (omega (arith, h.0), h.1)

  judge-After :
      (n : ℕ) (payload : Fields float) (j : Option (Json float)) (x : Exploded float) (b : Loop)
      → Counts n b
      → After (suc n) (judge float of_int is_finite canonical payload j x b)
  unfolding judge After
  judge-After n payload (some j) x b h = Counts-rejected n _ b h
  judge-After n payload none (observations os) b h = Counts-accepted_with n os b h
  judge-After n payload none (quarantine r) b h = Counts-rejected n _ b h
  judge-After n payload none raises b h = tt

  take_payloads-After :
      (payloads : List (Fields float)) (n : ℕ) (b : Option Loop)
      → After n b
      → After (n + length payloads) (
          and_then float of_int is_finite canonical
            (take_payloads float of_int is_finite canonical payloads)
            b)
  unfolding take_payloads take_payload After
  take_payloads-After payloads n none h = tt
  take_payloads-After [] n (some b) h =
      let same : n ≡ n + length {A = Fields float} [] = omega arith in
      subst (λ m. Counts m b) same h
  take_payloads-After (p ∷ ps) n (some b) h =
      let same : suc n + length ps ≡ n + length (p ∷ ps) = omega arith in
      subst
        (λ m. After m (
          and_then float of_int is_finite canonical
            (take_payloads float of_int is_finite canonical ps)
            (take_payload float of_int is_finite canonical p b)))
        same
        (take_payloads-After ps (suc n) (take_payload float of_int is_finite canonical p b)
          (judge-After n p _ _ b h))

  module _ (instant : String → ℕ) (content_hash : Observation float → String) where
    -- What is asked of the outcome of a run on a table.
    pub IsAccounted :
        ℕ
        → Table float
        → Option (IngestResult × Table float × List (Entry float of_int is_finite canonical))
        → Type 0
    IsAccounted n t none = Unit
    IsAccounted n t (some (result, after, entries)) =
        (result.accepted_payloads + result.quarantined ≡ n)
        × (length entries ≡ result.quarantined)
        × IsKeyed float after.rows
        × (count float after ≡ count float t + result.observations_written)

    finish-IsAccounted :
        (n : ℕ) (run_qc : Bool) (t : Table float) (b : Option Loop)
        → IsKeyed float t.rows
        → After n b
        → IsAccounted n t (finish float of_int is_finite canonical instant content_hash run_qc t b)
    unfolding finish IsAccounted After Counts count Written
    finish-IsAccounted n run_qc t none k h = tt
    finish-IsAccounted n run_qc t (some b) k h =
        let os = labelled float of_int is_finite canonical instant content_hash run_qc b.rows in
        let (keyed, settled, (added, part, rows, written), all) =
          write-Written float content_hash os t k in
        (h.0, h.1, keyed, ap length rows ∙ length-append t.rows added ∙ omega (arith, written))

    -- The hypothesis is that the keys of the table are distinct. If a run returns, then each
    -- payload was accepted or quarantined, there is a line for each that was quarantined, the keys
    -- are still distinct, and the table has grown by the observations reported as written.
    pub ingest-IsAccounted :
        (run_qc : Bool) (payloads : List (Fields float)) (t : Table float)
        → IsKeyed float t.rows
        → IsAccounted
            (length payloads)
            t
            (ingest float of_int is_finite canonical instant content_hash run_qc payloads t)
    unfolding ingest After Counts
    ingest-IsAccounted run_qc payloads t k =
        let end =
          take_payloads float of_int is_finite canonical payloads
            (new_batch float of_int is_finite canonical) in
        let same : 0 + length payloads ≡ length payloads = omega arith in
        finish-IsAccounted (length payloads) run_qc t end k (
          subst (λ n. After n end) same
            (take_payloads-After payloads 0 (some (new_batch float of_int is_finite canonical))
              (refl, refl)))

    -- The hypothesis is that the loop over the payloads does not raise. Then a run returns, and a
    -- second run of the same payloads accepts and quarantines the same, leaves the table as the
    -- first run left it, and reports every observation as a duplicate.
    pub ingest_replay :
        (run_qc : Bool) (payloads : List (Fields float)) (t : Table float) (b : Loop)
        → take_payloads float of_int is_finite canonical payloads
            (new_batch float of_int is_finite canonical)
          ≡ some b
        → let os = labelled float of_int is_finite canonical instant content_hash run_qc b.rows in
          let first = write float content_hash os t in
          (ingest float of_int is_finite canonical instant content_hash run_qc payloads t
            ≡ some (
              report float of_int is_finite canonical instant content_hash b first.0,
              first.1,
              b.entries,
            ))
          × (ingest float of_int is_finite canonical instant content_hash run_qc payloads first.1
              ≡ some (
                report float of_int is_finite canonical instant content_hash b
                    (all_duplicates float content_hash os),
                first.1,
                b.entries,
              ))
    unfolding ingest finish write
    ingest_replay run_qc payloads t b h =
        let os = labelled float of_int is_finite canonical instant content_hash run_qc b.rows in
        let first = write float content_hash os t in
        (
          rw (ingest, h) refl,
          rw (ingest, h)
              (ap
                (λ (w : WriteResult × Table float). some (
                  report float of_int is_finite canonical instant content_hash b w.0,
                  w.1,
                  b.entries,
                ))
                (write_replay float content_hash os [] t)),
        )
