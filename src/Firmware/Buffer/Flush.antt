-- ===== src/Firmware/Buffer/Flush.antt =====
-- `flush`: what is delivered, what is dropped and what stays in the buffer.
use swelter.Prelude.{
  ℕ, suc, ◌+◌, ◌≡◌, refl, sym, ap, ◌∙◌, List, [], ◌∷◌, ◌++◌, Bool, true, false, ◌||◌, Option, none,
  some, length, arith, Bool-cases, Option-cases, List-cases, inl, inr, append_assoc, append-nil,
  subst,
}
use swelter.Firmware.Buffer.{
  pending, World, Settings, Buffer, read_lines, send_with_retry, Walk, at_limit, visit, walk, flush,
}
use swelter.Firmware.Buffer.Lines.{TextLaws, IsCounted, read_lines_suffix}

module _ (w : World) (s : Settings) (limit : Option ℕ) where
  open w use {Payload, Line, parse, Link}

  -- The transport confirmed the payloads of these lines one after the other, `n` in all, starting
  -- from the first link and leaving the second; the corrupt lines among them carry none.
  pub data Delivered : Link → List Line → ℕ → Link → Type 0 where
    done : (link : Link) → Delivered link [] 0 link
    corrupt :
        {link link' : Link} {raw : Line} {rest : List Line} {n : ℕ}
        → parse raw ≡ none
        → Delivered link rest n link'
        → Delivered link (raw ∷ rest) n link'
    confirmed :
        {link link' : Link} {raw : Line} {rest : List Line} {n : ℕ} (payload : Payload)
        → parse raw ≡ some payload
        → (send_with_retry w s payload link).confirmed ≡ true
        → Delivered (send_with_retry w s payload link).link rest n link'
        → Delivered link (raw ∷ rest) (suc n) link'

  -- Why the loop left lines in the buffer, `n` being the number sent: there are none, the limit is
  -- reached, or the first of them was tried and no attempt was confirmed.
  pub data Ending (n : ℕ) (link : Link) (remaining : List Line) (link' : Link) : Type 0 where
    emptied : remaining ≡ [] → link' ≡ link → Ending n link remaining link'
    limited : at_limit limit n ≡ true → link' ≡ link → Ending n link remaining link'
    refused :
        (raw : Line) (rest : List Line) (payload : Payload)
        → remaining ≡ raw ∷ rest
        → parse raw ≡ some payload
        → (send_with_retry w s payload link).confirmed ≡ false
        → link' ≡ (send_with_retry w s payload link).link
        → Ending n link remaining link'

  pub record Outcome (before n : ℕ) (link : Link) (records remaining : List Line) (link' : Link)
      : Type 0 where
    pub handled : List Line
    pub new : ℕ
    pub between : Link
    pub split : records ≡ handled ++ remaining
    pub delivered : Delivered link handled new between
    pub total : n ≡ before + new
    pub ending : Ending n between remaining link'

  drop_corrupt :
      {before n : ℕ} {link link' : Link} {raw : Line} {records remaining : List Line}
      → parse raw ≡ none
      → Outcome before n link records remaining link'
      → Outcome before n link (raw ∷ records) remaining link'
  drop_corrupt {raw = raw} bad o = record {
    handled = raw ∷ o.handled;
    new = o.new;
    between = o.between;
    split = ap (λ l. raw ∷ l) o.split;
    delivered = corrupt bad o.delivered;
    total = o.total;
    ending = o.ending;
  }

  count_sent :
      {before n : ℕ} {link link' : Link} {raw : Line} {records remaining : List Line}
      (payload : Payload)
      → parse raw ≡ some payload
      → (send_with_retry w s payload link).confirmed ≡ true
      → Outcome (before + 1) n (send_with_retry w s payload link).link records remaining link'
      → Outcome before n link (raw ∷ records) remaining link'
  count_sent {raw = raw} payload good sure o = record {
    handled = raw ∷ o.handled;
    new = suc o.new;
    between = o.between;
    split = ap (λ l. raw ∷ l) o.split;
    delivered = confirmed payload good sure o.delivered;
    total = omega (arith, o.total);
    ending = o.ending;
  }

  abbrev walking : ℕ → List Line → Bool → Link → Walk w
  walking sent remaining stopped link = record {
    sent = sent;
    remaining = remaining;
    stopped = stopped;
    link = link;
  }

  -- Once the loop has stopped, or the limit is reached, every further line stays.
  walk-kept :
      (sent : ℕ) (remaining : List Line) (stopped : Bool) (link : Link) (records : List Line)
      → (stopped || at_limit limit sent) ≡ true
      → walk w s limit (walking sent remaining stopped link) records
        ≡ walking sent (remaining ++ records) stopped link
  unfolding walk
  walk-kept sent remaining stopped link [] h = rw append-nil
  walk-kept sent remaining stopped link (raw ∷ records) h =
      rw (h, visit)
        (walk-kept sent (remaining ++ raw ∷ []) stopped link records h
          ∙ ap (λ l. walking sent l stopped link) (append_assoc remaining (raw ∷ []) records))

  visit_corrupt :
      (sent : ℕ) (link : Link) (raw : Line)
      → at_limit limit sent ≡ false
      → parse raw ≡ none
      → visit w s limit (walking sent [] false link) raw ≡ walking sent [] false link
  unfolding visit
  visit_corrupt sent link raw room bad = rw (room, bad, visit) refl

  visit_sent :
      (sent : ℕ) (link : Link) (raw : Line) (payload : Payload)
      → at_limit limit sent ≡ false
      → parse raw ≡ some payload
      → (send_with_retry w s payload link).confirmed ≡ true
      → visit w s limit (walking sent [] false link) raw
        ≡ walking (sent + 1) [] false (send_with_retry w s payload link).link
  visit_sent sent link raw payload room good sure =
      unfold visit in rw (room, good, sure, visit) refl

  visit_lost :
      (sent : ℕ) (link : Link) (raw : Line) (payload : Payload)
      → at_limit limit sent ≡ false
      → parse raw ≡ some payload
      → (send_with_retry w s payload link).confirmed ≡ false
      → visit w s limit (walking sent [] false link) raw
        ≡ walking sent (raw ∷ []) true (send_with_retry w s payload link).link
  visit_lost sent link raw payload room good lost =
      unfold visit in rw (room, good, lost, visit) refl

  walk_step :
      (k : Walk w) (raw : Line) (records : List Line)
      → walk w s limit k (raw ∷ records) ≡ walk w s limit (visit w s limit k raw) records
  unfolding walk
  walk_step k raw records = refl

  abbrev Reached : ℕ → Link → List Line → Walk w → Type 0
  Reached before link records k = Outcome before k.sent link records k.remaining k.link

  -- The loop, from a state in which nothing has been kept yet.
  walk-Outcome :
      (sent : ℕ) (link : Link) (records : List Line)
      → Reached sent link records (walk w s limit (walking sent [] false link) records)
  walk-Outcome sent link [] =
      unfold walk in
      record {
        handled = [];
        new = 0;
        between = link;
        split = refl;
        delivered = done link;
        total = omega arith;
        ending = emptied refl refl;
      }
  walk-Outcome sent link (raw ∷ records) = elim (Bool-cases (at_limit limit sent)) [
    | inl full ↦
        subst (Reached sent link (raw ∷ records))
          (sym (walk-kept sent [] false link (raw ∷ records) full))
          (record {
            handled = [];
            new = 0;
            between = link;
            split = refl;
            delivered = done link;
            total = omega arith;
            ending = limited full refl;
          })
    | inr room ↦ elim (Option-cases (parse raw)) [
      | inl bad ↦
          subst (Reached sent link (raw ∷ records))
            (sym (
              walk_step _ raw records
              ∙ ap (λ k. walk w s limit k records) (visit_corrupt sent link raw room bad)))
            (drop_corrupt bad (walk-Outcome sent link records))
      | inr (payload, good) ↦ elim (Bool-cases (send_with_retry w s payload link).confirmed) [
        | inl sure ↦
            subst (Reached sent link (raw ∷ records))
              (sym (
                walk_step _ raw records
                ∙ ap (λ k. walk w s limit k records)
                    (visit_sent sent link raw payload room good sure)))
              (count_sent payload good sure (walk-Outcome (sent + 1) _ records))
        | inr lost ↦
            subst (Reached sent link (raw ∷ records))
              (sym (
                walk_step _ raw records
                ∙ ap (λ k. walk w s limit k records)
                    (visit_lost sent link raw payload room good lost)
                ∙ walk-kept sent (raw ∷ []) true _ records refl))
              (record {
                handled = [];
                new = 0;
                between = link;
                split = refl;
                delivered = done link;
                total = omega arith;
                ending = refused raw records payload refl good lost refl;
              })
      ]
    ]
  ]

module _ (w : World) (laws : TextLaws w) where
  open w use {Line, Link}

  abbrev begun : Link → Walk w
  begun link = record { sent = 0; remaining = []; stopped = false; link = link }

  -- `flush` in terms of its loop, on an empty buffer too as far as a scan of the file shows.
  flush-walk :
      (limit : Option ℕ) (b : Buffer w) (link : Link)
      → (let k = walk w b.set_up limit (begun link) (read_lines w b.file) in
          let after = flush w limit b link in
          (after.0 ≡ k.sent)
          × (read_lines w after.1.file ≡ read_lines w k.remaining)
          × (after.2 ≡ k.link))
  unfolding flush
  flush-walk limit b link = elim (List-cases (read_lines w b.file)) [
    | inl e ↦ rw (e, flush, walk) (refl, e, refl)
    | inr (raw, records, e) ↦ rw (e, flush) (refl, refl, refl)
  ]

  -- Nothing is lost by a `flush`, whatever the transport does. The lines of the buffer are those
  -- that it handled followed by those that are left in it, in their old order. Each handled line
  -- is corrupt, or the transport confirmed its payload, in order; the number returned is the
  -- number confirmed. Lines are left only if the limit was reached, or if the first of them was
  -- tried and not confirmed.
  pub flush-Outcome :
      (limit : Option ℕ) (b : Buffer w) (link : Link)
      → (let after = flush w limit b link in
          Outcome w b.set_up limit 0 after.0 link
            (read_lines w b.file)
            (read_lines w after.1.file)
            after.2)
  flush-Outcome limit b link =
      let o = walk-Outcome w b.set_up limit 0 link (read_lines w b.file) in
      let f = flush-walk limit b link in
      let k = walk w b.set_up limit (begun link) (read_lines w b.file) in
      let same = f.1 ∙ read_lines_suffix w laws b.file o.handled k.remaining o.split in
      rw (f.0, same, f.2) o

  -- A `flush` leaves the cached count equal to the lines of the file.
  pub flush-IsCounted :
      (limit : Option ℕ) (b : Buffer w) (link : Link)
      → IsCounted w b
      → IsCounted w (flush w limit b link).1
  unfolding pending flush
  flush-IsCounted limit b link h = elim (List-cases (read_lines w b.file)) [
    | inl e ↦ rw (e, flush) h
    | inr (raw, records, e) ↦
        let o = walk-Outcome w b.set_up limit 0 link (read_lines w b.file) in
        let k = walk w b.set_up limit (begun link) (read_lines w b.file) in
        let kept = read_lines_suffix w laws b.file o.handled k.remaining o.split in
        rw (e, flush) (ap length (sym (rw e at kept)))
  ]

pub max_records-flush :
    (w : World) (limit : Option ℕ) (b : Buffer w) (link : w.Link)
    → (flush w limit b link).1.set_up.max_records ≡ b.set_up.max_records
unfolding flush
max_records-flush w limit b link = elim (List-cases (read_lines w b.file)) [
  | inl e ↦ rw (e, flush) refl
  | inr (raw, records, e) ↦ rw (e, flush) refl
]

pub is_ended-flush :
    (w : World) (limit : Option ℕ) (b : Buffer w) (link : w.Link)
    → b.is_ended ≡ true
    → (flush w limit b link).1.is_ended ≡ true
unfolding flush
is_ended-flush w limit b link h = elim (List-cases (read_lines w b.file)) [
  | inl e ↦ rw (e, flush) h
  | inr (raw, records, e) ↦ rw (e, flush) refl
]
