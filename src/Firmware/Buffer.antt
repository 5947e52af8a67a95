-- ===== src/Firmware/Buffer.antt =====
-- firmware/src/store_and_forward.py: the buffer on flash, a file of one JSON payload per line that
-- is appended at the tail and consumed from the head.
-- The JSON text of a line and the transport are parameters; durations are whole units of time.
pub mod Lines
pub mod Retry
pub mod Flush
pub mod Cap
pub mod Crash
pub mod Runs
use swelter.Prelude.{
  ℕ, zero, suc, ◌+◌, ◌-◌, ◌*◌, ◌/◌, ◌^◌, ◌≡◌, List, [], ◌∷◌, ◌++◌, map, Bool, true, false, not,
  ◌&&◌, ◌||◌, if◌then◌else◌, ◌==◌, ltb, leb, Option, none, some, length, drop, min, keep_if,
}

-- What the module takes from its surroundings: `json.dumps` and `json.loads` with the test that
-- `_parse` makes on its result, `str.strip`, and the transport, with the state of the link.
pub record World : Type 1 where
  pub Payload : Type 0
  pub Line : Type 0
  pub dumps : Payload → Line
  -- The line that a text becomes when another is written behind it.
  pub glue : Line → Line → Line
  pub strip : Line → Line
  pub is_blank : Line → Bool
  -- `none`: not JSON, no object, or no `node_id` or `timestamp`.
  pub parse : Line → Option Payload
  pub Link : Type 0
  -- One `transport.send`: true if it returned, false if it raised `TransportError`.
  pub send : Link → Payload → Bool × Link

-- The settings, as the constructor has normalised them. `max_records` is 0 for any setting that is
-- not positive, which all mean that there is no cap.
pub record Settings : Type 0 where
  pub max_records : ℕ
  pub max_attempts : ℕ
  pub backoff_base : ℕ
  pub backoff_cap : ℕ

-- `max(1, int(max_attempts))`
unfoldable pub settings : ℕ → ℕ → ℕ → ℕ → Settings
settings max_records max_attempts base cap = record {
  max_records = max_records;
  max_attempts = if ltb 1 max_attempts then max_attempts else 1;
  backoff_base = base;
  backoff_cap = cap;
}

-- `max(0, int(max_records * 0.9) - 1)`
abbrev pub keep_count : ℕ → ℕ
keep_count max_records = max_records * 9 / 10 - 1

-- The wait after a failed attempt.
abbrev pub wait_after : Settings → ℕ → ℕ
wait_after s attempt = min (s.backoff_base * 2 ^ (attempt - 1)) s.backoff_cap

-- `limit is not None and sent >= limit`
abbrev pub at_limit : Option ℕ → ℕ → Bool
at_limit none sent = false
at_limit (some n) sent = leb n sent

module _ (w : World) where
  open w use {Payload, Line, dumps, glue, strip, is_blank, parse, Link, send}

  -- The buffer object: its settings, the lines of its file, whether the last of them ends with a
  -- newline, and the cached count. A reset during a write can leave a last line without one.
  pub record Buffer : Type 0 where
    pub set_up : Settings
    pub file : List Line
    pub is_ended : Bool
    pub count : ℕ

  -- `_read_lines`: the stripped lines that are not empty. A file that is not there has none.
  unfoldable pub read_lines : List Line → List Line
  read_lines file = keep_if (λ l. not (is_blank l)) (map strip file)

  unfoldable pub pending : Buffer → ℕ
  unfolding read_lines
  pending b = length (read_lines b.file)

  -- `__init__`, over the file that is found on flash.
  unfoldable pub start : Settings → List Line → Bool → Buffer
  unfolding read_lines
  start s file is_ended = record {
    set_up = s;
    file = file;
    is_ended = is_ended;
    count = length (read_lines file);
  }

  -- `records[-keep:] if keep else []`
  unfoldable pub last : ℕ → List Line → List Line
  last keep records = if keep == 0 then [] else drop (length records - keep) records

  unfoldable pub enforce_cap : Buffer → Buffer
  unfolding read_lines last
  enforce_cap b =
      if b.set_up.max_records == 0 || ltb b.count b.set_up.max_records
      then b
      else (let records = last (keep_count b.set_up.max_records) (read_lines b.file) in
          record b { file = records; is_ended = true; count = length records })

  -- A text with its newline at the end of the file, behind whatever stands in a last line that has
  -- no newline.
  unfoldable pub write_line : Bool → List Line → Line → List Line
  write_line true file line = file ++ line ∷ []
  write_line false [] line = line ∷ []
  write_line false (torn ∷ []) line = glue torn line ∷ []
  write_line false (l ∷ m ∷ file) line = l ∷ write_line false (m ∷ file) line

  -- `append`; `none` is a payload of `None`.
  unfoldable pub append : Buffer → Option Payload → Buffer
  unfolding write_line
  append b none = b
  append b (some payload) =
      let b' = enforce_cap b in
      record b' {
        file = write_line b'.is_ended b'.file (dumps payload);
        is_ended = true;
        count = b'.count + 1;
      }

  -- What a run of `_send_with_retry` did: whether the transport confirmed, the link after it, how
  -- many attempts were made, and the waits between them.
  pub record Sending : Type 0 where
    pub confirmed : Bool
    pub link : Link
    pub attempts : ℕ
    pub waits : List ℕ

  -- The `for` loop at its attempt number, with the attempts that are left after it.
  unfoldable pub send_from : Settings → Payload → ℕ → ℕ → Link → Sending
  send_from s payload attempt zero link = record {
    confirmed = false;
    link = link;
    attempts = 0;
    waits = [];
  }
  send_from s payload attempt (suc left) link =
      let (confirmed, link') = send link payload in
      elim confirmed [
        | true ↦ record { confirmed = true; link = link'; attempts = 1; waits = [] }
        | false ↦ elim (leb s.max_attempts attempt) [
          | true ↦ record { confirmed = false; link = link'; attempts = 1; waits = [] }
          | false ↦
              let rest = send_from s payload (attempt + 1) left link' in
              let wait = wait_after s attempt in
              record rest {
                attempts = rest.attempts + 1;
                waits = (if ltb 0 wait then wait ∷ rest.waits else rest.waits);
              }
        ]
      ]

  unfoldable pub send_with_retry : Settings → Payload → Link → Sending
  unfolding send_from
  send_with_retry s payload link = send_from s payload 1 s.max_attempts link

  -- The variables of the loop of `flush`.
  pub record Walk : Type 0 where
    pub sent : ℕ
    pub remaining : List Line
    pub stopped : Bool
    pub link : Link

  -- The body of the loop of `flush`.
  unfoldable pub visit : Settings → Option ℕ → Walk → Line → Walk
  unfolding send_with_retry
  visit s limit k raw =
      if k.stopped || at_limit limit k.sent
      then record k { remaining = k.remaining ++ raw ∷ [] }
      else elim (parse raw) [
        | none ↦ k
        | some payload ↦
            let sending = send_with_retry s payload k.link in
            if sending.confirmed
            then record k { sent = k.sent + 1; link = sending.link }
            else record k {
              remaining = k.remaining ++ raw ∷ [];
              stopped = true;
              link = sending.link;
            }
      ]

  unfoldable pub walk : Settings → Option ℕ → Walk → List Line → Walk
  unfolding visit
  walk s limit k [] = k
  walk s limit k (raw ∷ records) = walk s limit (visit s limit k raw) records

  -- `flush`: the number sent, the buffer and the link after it. A missing transport is a failure
  -- before anything is read, and is not modelled. An empty buffer is left as it is.
  unfoldable pub flush : Option ℕ → Buffer → Link → ℕ × Buffer × Link
  unfolding read_lines walk
  flush limit b link = elim (read_lines b.file) [
    | [] ↦ (0, b, link)
    | raw ∷ records ↦
        let begin : Walk = record { sent = 0; remaining = []; stopped = false; link = link } in
        let k = walk b.set_up limit begin (raw ∷ records) in
        (
          k.sent,
          record b { file = k.remaining; is_ended = true; count = length k.remaining },
          k.link,
        )
  ]
