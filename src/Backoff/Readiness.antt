-- ===== src/Backoff/Readiness.antt =====
-- When a peer may be dialed, after each operation of the backoff table.
use p2p_service.Prelude.{
  ℕ, ◌+◌, ◌*◌, ◌^◌, ◌≤◌, ◌<◌, ◌≡◌, ◌≢◌, true, false, min, some, List, ite, arith, length, ltb,
}
use p2p_service.HashMap
use p2p_service.HashMap.{IsUnique}
use p2p_service.HashMap.Laws.{get-insert, get-remove, get-retain}
use p2p_service.Backoff.{
  BackoffState, DialBackoff, u32_max, duration_max, failures_of, record_failure, record_success,
  prune, ready, new,
}
use p2p_service.Backoff.Delay.{
  Failure, fail_all, failures_on_record, failures_on_record-record_failure, ready-fail_all,
}

-- What `mul_f64` by a factor between 0.5 and 1.5 gives, up to rounding to a nanosecond.
abbrev pub InJitterRange : (ℕ → ℕ) → ℕ → Type 0
InJitterRange jittered d = (d ≤ 2 * jittered d + 1) × (2 * jittered d ≤ 3 * d + 1)

module _ {P : Type 0} (dec : Discrete P) where
  -- A failure leaves the readiness of every other peer as it was.
  pub ready-record_failure_ne :
      (jittered : ℕ → ℕ) (b : DialBackoff P) (peer q : P) (now later : ℕ)
      → q ≢ peer
      → ready dec (record_failure dec jittered b peer now) q later ≡ ready dec b q later
  unfolding ready record_failure
  ready-record_failure_ne jittered b peer q now later h = grind (arith, get-insert dec peer q)

  -- After a success the peer may be dialed at any time, and every other peer is as it was.
  pub ready-record_success :
      (b : DialBackoff P) (peer q : P) (later : ℕ)
      → ready dec (record_success dec b peer) q later ≡ ite (dec q peer) true (ready dec b q later)
  unfolding ready record_success
  ready-record_success b peer q later = ground (arith, get-remove dec peer q b.state)

  -- In a table that has each peer once, pruning at a time changes no answer of ready from then on.
  pub ready-prune :
      (b : DialBackoff P) (q : P) (now later : ℕ)
      → IsUnique dec b.state
      → now ≤ later
      → ready dec (prune b now) q later ≡ ready dec b q later
  unfolding ready prune
  ready-prune b q now later u h =
      ground
        (arith, get-retain dec (λ (s : BackoffState). ltb now (s.next_attempt + b.cap)) q b.state u)

  -- In a table that has each peer once, an entry that is left after pruning was there before, and
  -- its window ended less than one cap ago, or still runs.
  pub prune_recent :
      (b : DialBackoff P) (q : P) (now : ℕ) (s : BackoffState)
      → IsUnique dec b.state
      → HashMap.get dec q (prune b now).state ≡ some s
      → (HashMap.get dec q b.state ≡ some s) × (now < s.next_attempt + b.cap)
  unfolding prune
  prune_recent b q now s u h =
      ground
        (arith, get-retain dec (λ (s : BackoffState). ltb now (s.next_attempt + b.cap)) q b.state u)

  get-prune_none :
      (b : DialBackoff P) (q : P) (now : ℕ) (s : BackoffState)
      → IsUnique dec b.state
      → HashMap.get dec q b.state ≡ some s
      → s.next_attempt + b.cap ≤ now
      → failures_on_record dec (prune b now) q ≡ 0
  unfolding prune failures_of
  get-prune_none b q now s u found old =
      ground
        (arith, get-retain dec (λ (s : BackoffState). ltb now (s.next_attempt + b.cap)) q b.state u)

  -- In a table that has each peer once, pruning forgets the failures of a peer whose window ended
  -- one cap ago: its next failure counts as the first.
  pub prune_restarts :
      (b : DialBackoff P) (q : P) (now later : ℕ) (jittered : ℕ → ℕ) (s : BackoffState)
      → IsUnique dec b.state
      → HashMap.get dec q b.state ≡ some s
      → s.next_attempt + b.cap ≤ now
      → failures_on_record dec (record_failure dec jittered (prune b now) q later) q ≡ 1
  prune_restarts b q now later jittered s u found old = omega (
    arith,
    failures_on_record-record_failure dec (prune b now) q later jittered,
    get-prune_none b q now s u found old,
  )

  -- The table after the failures of `fs` and one more, all of one peer, from a fresh table.
  abbrev pub after_failures :
      (base top : ℕ) → P → List Failure → (now : ℕ) → (ℕ → ℕ) → DialBackoff P
  after_failures base top peer fs now jittered =
      record_failure dec jittered (fail_all dec (new base top) peer fs) peer now

  -- After n failures in a row and one more, with d = base * 2^n, capped: the peer is not dialed
  -- before half of d has passed, if the jitter is in its range and base reaches the cap.
  pub ready_early :
      (base top : ℕ) (peer : P) (fs : List Failure) (now : ℕ) (jittered : ℕ → ℕ) (later : ℕ)
      → top ≤ duration_max
      → top ≤ base * u32_max
      → length fs + 1 < 2 ^ 32
      → InJitterRange jittered (min (base * 2 ^ length fs) top)
      → 2 * later + 1 < 2 * now + min (base * 2 ^ length fs) top
      → ready dec (after_failures base top peer fs now jittered) peer later ≡ false
  ready_early base top peer fs now jittered later hd hu hn hj h =
      rw (ready-fail_all dec base top peer fs now jittered later hd hu hn) (ground arith)

  -- After n failures in a row and one more, with d = base * 2^n, capped: the peer is let through
  -- when one and a half d have passed, if the jitter is in its range and base reaches the cap.
  pub ready_late :
      (base top : ℕ) (peer : P) (fs : List Failure) (now : ℕ) (jittered : ℕ → ℕ) (later : ℕ)
      → top ≤ duration_max
      → top ≤ base * u32_max
      → length fs + 1 < 2 ^ 32
      → InJitterRange jittered (min (base * 2 ^ length fs) top)
      → 2 * now + 3 * min (base * 2 ^ length fs) top + 1 ≤ 2 * later
      → ready dec (after_failures base top peer fs now jittered) peer later ≡ true
  ready_late base top peer fs now jittered later hd hu hn hj h =
      rw (ready-fail_all dec base top peer fs now jittered later hd hu hn) (ground arith)
