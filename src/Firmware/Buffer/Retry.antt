-- ===== src/Firmware/Buffer/Retry.antt =====
-- `_send_with_retry`: how often the link is tried, and how long the waits are.
use swelter.Prelude.{
  ℕ, zero, suc, ◌+◌, ◌-◌, ◌≤◌, ◌<◌, ◌≡◌, ◌⊎◌, refl, sym, List, [], ◌∷◌, true, false, if◌then◌else◌,
  Bool, ltb, leb, ltb→lt, le→leb, subst, length, All, arith, Bool-cases, inl, inr,
}
use swelter.Firmware.Buffer.{World, Settings, Sending, wait_after, send_from, send_with_retry}

module _ (w : World) (s : Settings) where
  open w use {Payload, Line, parse, Link, send}

  -- A run of the loop makes at least one attempt and at most those that are left, waits less often
  -- than it tries, never longer than the cap, and gives up only when no attempt is left.
  pub record IsBounded (left : ℕ) (r : Sending w) : Type 0 where
    pub some_attempt : 1 ≤ r.attempts
    pub within : r.attempts ≤ left
    pub fewer_waits : length r.waits + 1 ≤ r.attempts
    pub capped : All (λ wait. (0 < wait) × (wait ≤ s.backoff_cap)) r.waits
    pub exhausted : (r.confirmed ≡ true) ⊎ (r.attempts ≡ left)

  add_wait :
      (wait : ℕ) (waits : List ℕ)
      → wait ≤ s.backoff_cap
      → All (λ v. (0 < v) × (v ≤ s.backoff_cap)) waits
      → All (λ v. (0 < v) × (v ≤ s.backoff_cap)) (if ltb 0 wait then wait ∷ waits else waits)
  add_wait wait waits h k = elim (Bool-cases (ltb 0 wait)) [
    | inl pos ↦ rw pos ((ltb→lt 0 wait pos, h), k)
    | inr none_left ↦ rw none_left k
  ]

  length-add_wait :
      (wait : ℕ) (waits : List ℕ)
      → length (if ltb 0 wait then wait ∷ waits else waits) ≤ suc (length waits)
  length-add_wait wait waits = ground arith

  last_attempt : (attempt : ℕ) → attempt ≡ s.max_attempts → leb s.max_attempts attempt ≡ true
  last_attempt attempt e = le→leb _ _ (omega arith)

  confirmed-IsBounded :
      (left : ℕ) (link : Link)
      → IsBounded (suc left) (record { confirmed = true; link = link; attempts = 1; waits = [] })
  confirmed-IsBounded left link = record {
    some_attempt = omega arith;
    within = omega arith;
    fewer_waits = omega arith;
    capped = tt;
    exhausted = inl refl;
  }

  one_more :
      {left attempts : ℕ} {confirmed : Bool}
      → (confirmed ≡ true) ⊎ (attempts ≡ left)
      → (confirmed ≡ true) ⊎ (attempts + 1 ≡ suc left)
  one_more (inl e) = inl e
  one_more (inr e) = inr (omega arith)

  send_from-IsBounded :
      (payload : Payload) (attempt left : ℕ) (link : Link)
      → attempt + left ≡ s.max_attempts
      → IsBounded (suc left) (send_from w s payload attempt (suc left) link)
  unfolding send_from
  send_from-IsBounded payload attempt zero link e = elim (Bool-cases (send link payload).0) [
    | inl good ↦ rw (good, send_from) (confirmed-IsBounded 0 _)
    | inr bad ↦
        rw (bad, last_attempt attempt (omega arith), send_from)
          (record {
            some_attempt = omega arith;
            within = omega arith;
            fewer_waits = omega arith;
            capped = tt;
            exhausted = inr refl;
          })
  ]
  send_from-IsBounded payload attempt (suc left) link e =
      let again =
        send_from-IsBounded payload (attempt + 1) left (send link payload).1 (omega arith) in
      let more : leb s.max_attempts attempt ≡ false = ground arith in
      elim (Bool-cases (send link payload).0) [
        | inl good ↦ rw (good, send_from) (confirmed-IsBounded (suc left) _)
        | inr bad ↦
            rw (bad, more, send_from)
              (record {
                some_attempt = omega arith;
                within = omega (arith, again.within);
                fewer_waits =
                    omega (arith, again.fewer_waits, length-add_wait (wait_after s attempt) _);
                capped = add_wait (wait_after s attempt) _ (omega arith) again.capped;
                exhausted = one_more again.exhausted;
              })
      ]

  -- For any payload and any link, with at least one attempt allowed: `_send_with_retry` makes at
  -- least one and at most `max_attempts` attempts, waits between them only, each time for more than
  -- nothing and at most `backoff_cap`, and gives up only after exactly `max_attempts` attempts.
  pub send_with_retry-IsBounded :
      (payload : Payload) (link : Link)
      → 1 ≤ s.max_attempts
      → IsBounded s.max_attempts (send_with_retry w s payload link)
  unfolding send_with_retry
  send_with_retry-IsBounded payload link h =
      let e : s.max_attempts ≡ suc (s.max_attempts - 1) = omega arith in
      let b = send_from-IsBounded payload 1 (s.max_attempts - 1) link (omega arith) in
      subst (λ n. IsBounded n (send_from w s payload 1 n link)) (sym e) b
