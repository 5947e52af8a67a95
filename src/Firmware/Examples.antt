-- ===== src/Firmware/Examples.antt =====
-- Runs of the firmware at small inputs.
use swelter.Prelude.{
  ℕ, ◌+◌, ◌≡◌, ◌≢◌, ◌++◌, refl, List, [], ◌∷◌, Bool, true, false, Option, none, some, arith, length,
  ◌==◌, ◌≤◌, if◌then◌else◌,
}
use swelter.Prelude.Int.{pos}
use swelter.Float.Whole.{whole}
use swelter.Firmware.Sht31
use swelter.Firmware.Sht31.{word, crc8}
use swelter.Firmware.Sht31.Detection
use swelter.Firmware.Sht31.Detection.{word_detects, parse_measurement-wire}
use swelter.Firmware.Pms5003
use swelter.Firmware.Pms5003.{Fields, parse_frame, read_frame, u16, sum, computed, decoded}
use swelter.Firmware.Pms5003.Checksum.{parse_frame-wire, IsSent, wire}
use swelter.Firmware.Buffer.{
  World, Settings, Buffer, append, enforce_cap, write_line, start, flush, send_with_retry, pending,
  read_lines,
}
use swelter.Firmware.Buffer.Lines.{TextLaws, IsCounted}
use swelter.Firmware.Buffer.Retry.{IsBounded, send_with_retry-IsBounded}
use swelter.Firmware.Buffer.Flush.{Outcome, flush-Outcome}
use swelter.Firmware.Buffer.Runs.{IsSound, Op, sample, attempt, run, run-start-IsSound}
use swelter.Firmware.Buffer.Crash.{Flash, rewrite_steps, reset_after, rewrite_result, rewrite_gap}

-- The worked example of the data sheet.
crc8_datasheet : crc8 (0xBE ∷ 0xEF ∷ []) ≡ 0x92
unfolding crc8
crc8_datasheet = refl

word_accepted : word 0xBE 0xEF 0x92 ≡ Sht31.ok 0xBEEF
unfolding word crc8
word_accepted = refl

other_byte : (m n : ℕ) → (m == n) ≡ false → m ≢ n
other_byte m n h e = ground arith

word_detects_example :
    (word 0xBF 0xEF 0x92 ≡ Sht31.err Sht31.crc_mismatch)
    × (word 0xBE 0xEE 0x92 ≡ Sht31.err Sht31.crc_mismatch)
    × (word 0xBE 0xEF 0x93 ≡ Sht31.err Sht31.crc_mismatch)
word_detects_example =
    word_detects 0xBE 0xEF 0x92 0xBEEF 0xBF 0xEE 0x93 (omega arith) (omega arith) (omega arith)
      (omega arith) word_accepted (other_byte 0xBF 0xBE refl) (other_byte 0xEE 0xEF refl)
      (other_byte 0x93 0x92 refl)

parse_measurement-wire_example :
    Sht31.parse_measurement whole (Detection.wire 26214 ++ Detection.wire 32768)
    ≡ Sht31.ok (Sht31.convert_raw whole 26214 32768)
parse_measurement-wire_example = parse_measurement-wire whole 26214 32768

abbrev fields : Fields
fields = record {
  frame_length_field = 28;
  pm1_0_cf1 = 5;
  pm2_5_cf1 = 8;
  pm10_cf1 = 9;
  pm1_0_ugm3 = 5;
  pm25_ugm3 = 300;
  pm10_ugm3 = 9;
  particles_0_3um = 1200;
  particles_0_5um = 350;
  particles_1_0um = 60;
  particles_2_5um = 4;
  particles_5_0um = 1;
  particles_10um = 0;
  version = 145;
  error_code = 0;
  checksum = 737;
}

fields-IsSent : IsSent fields
unfolding sum
fields-IsSent = record { bytes = omega arith; total = refl }

parse_frame-wire_example : parse_frame (wire fields) ≡ Pms5003.ok fields
parse_frame-wire_example = parse_frame-wire fields fields-IsSent

abbrev dust : List ℕ
dust = 0x42 ∷ 0x42 ∷ 0x01 ∷ 0x4D ∷ []

-- Payloads are numbers, written as the number above; the line 0 is empty and 1 is corrupt. A link
-- is the list of its answers to come.
parse_line : ℕ → Option ℕ
parse_line line = if line == 1 then none else some line

answer : List Bool → ℕ → Bool × List Bool
answer [] payload = (false, [])
answer (b ∷ bs) payload = (b, bs)

abbrev numbers : World
numbers = record {
  Payload = ℕ;
  Line = ℕ;
  dumps = λ p. p + 1;
  glue = λ torn line. 1;
  strip = λ l. l;
  is_blank = λ l. l == 0;
  parse = parse_line;
  Link = List Bool;
  send = answer;
}

numbers-full : (p : ℕ) → ((p + 1) == 0) ≡ false
numbers-full p = ground arith

abbrev numbers_laws : TextLaws numbers
numbers_laws = record { strip_idem = λ l. refl; strip_dumps = λ p. refl; dumps_full = numbers-full }

abbrev three_tries : Settings
three_tries = record { max_records = 10; max_attempts = 3; backoff_base = 1; backoff_cap = 2 }

abbrev backlog : Buffer numbers
backlog = record { set_up = three_tries; file = 5 ∷ 1 ∷ 6 ∷ 7 ∷ []; is_ended = true; count = 4 }

-- The first payload goes out at the second try, the corrupt line is dropped, the next payload goes
-- out at once, and the last one is refused three times.
flush-backlog :
    flush numbers none backlog (false ∷ true ∷ true ∷ false ∷ false ∷ false ∷ [])
    ≡ (2, record { set_up = three_tries; file = 7 ∷ []; is_ended = true; count = 1 }, [])
unfolding flush answer parse_line
flush-backlog = refl

abbrev answers : List Bool
answers = false ∷ true ∷ false ∷ []

flush-Outcome_example :
    (let after = flush numbers none backlog answers in
      Outcome numbers three_tries none 0 after.0 answers
        (read_lines numbers backlog.file)
        (read_lines numbers after.1.file)
        after.2)
flush-Outcome_example = flush-Outcome numbers numbers_laws none backlog answers

send_with_retry-IsBounded_example :
    IsBounded numbers three_tries 3 (send_with_retry numbers three_tries 8 answers)
send_with_retry-IsBounded_example =
    send_with_retry-IsBounded numbers three_tries 8 answers (omega arith)

backlog-IsCounted : IsCounted numbers backlog
unfolding pending
backlog-IsCounted = refl

abbrev outage : List (Op numbers)
outage = sample (some 3) ∷ attempt none ∷ sample none ∷ sample (some 4) ∷ attempt (some 1) ∷ []

start_room : length (read_lines numbers (5 ∷ 0 ∷ 6 ∷ [])) ≤ 10
unfolding read_lines
start_room = omega arith

run-start-IsSound_example :
    IsSound numbers 10
      (run numbers (start numbers three_tries (5 ∷ 0 ∷ 6 ∷ []) true, answers) outage).0
run-start-IsSound_example =
    run-start-IsSound numbers numbers_laws three_tries (5 ∷ 0 ∷ 6 ∷ []) answers outage start_room

-- After a reset during a write, the next payload is written behind the torn line. It is lost with
-- it, and the cached count is one more than the lines of the file.
abbrev torn : Buffer numbers
torn = start numbers three_tries (5 ∷ 1 ∷ []) false

append-torn :
    append numbers torn (some 7)
    ≡ record { set_up = three_tries; file = 5 ∷ 1 ∷ []; is_ended = true; count = 3 }
unfolding append enforce_cap write_line start read_lines
append-torn = refl

abbrev two_lines : Flash ℕ
two_lines = record { buffer = some (5 ∷ 6 ∷ []); tmp = none }

rewrite_gap_example : (reset_after 3 (rewrite_steps false (6 ∷ [])) two_lines).buffer ≡ none
rewrite_gap_example = rewrite_gap (6 ∷ []) two_lines

rewrite_result_example :
    reset_after 4 (rewrite_steps false (6 ∷ [])) two_lines
    ≡ record { buffer = some (6 ∷ []); tmp = none }
rewrite_result_example = rewrite_result false (6 ∷ []) two_lines

converted : Sht31.convert_raw whole 26214 32768 ≡ (pos 25, pos 50)
unfolding Sht31.convert_raw
converted = refl
