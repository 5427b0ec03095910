-- ===== src/Backoff/Tests.antt =====
-- The unit tests of src/p2p/backoff.rs, at any peer, at any time and for any factors that are drawn:
-- `jittered n` is what the n-th one makes of a duration.
use p2p_service.Prelude.{
  ℕ, zero, suc, ◌+◌, ◌*◌, ◌^◌, ◌≡◌, refl, Bool, true, not, ◌&&◌, List, [], ◌∷◌, ◌++◌, length,
  length-append, min, ◌==◌, arith,
}
use p2p_service.HashMap
use p2p_service.Backoff.{
  DialBackoff, new, ready, record_failure, record_success, prune, next_failures, failures_of,
  capped_delay, saturating_mul, saturating_pow_2,
}
use p2p_service.Backoff.Delay.{Failure, fail_all}
use p2p_service.Backoff.Readiness.{InJitterRange, ready_early, ready_late}

-- `Duration::from_secs`
abbrev from_secs : ℕ → ℕ
from_secs n = n * 10 ^ 9

abbrev pub len : {P : Type 0} → DialBackoff P → ℕ
len b = length b.state

-- The rounds of `for _ in 0..n`.
pub draws : ℕ → (ℕ → ℕ → ℕ) → ℕ → List Failure
draws now jittered zero = []
draws now jittered (suc n) = draws now jittered n ++ (now, jittered n) ∷ []

length-draws : (now : ℕ) (jittered : ℕ → ℕ → ℕ) (n : ℕ) → length (draws now jittered n) ≡ n
unfolding draws
length-draws now jittered zero = refl
length-draws now jittered (suc n) = omega (
  arith,
  length-draws now jittered n,
  length-append (draws now jittered n) ((now, jittered n) ∷ []),
)

module _ {P : Type 0} (dec : Discrete P) (peer : P) (now : ℕ) (jittered : ℕ → ℕ → ℕ) where
  unfoldable pub unknown_peer_is_ready : Bool
  unknown_peer_is_ready = ready dec (new (from_secs 1) (from_secs 60)) peer now

  unfoldable pub failure_delays_next_attempt : Bool
  failure_delays_next_attempt =
      let backoff = new (from_secs 10) (from_secs 3600) in
      let backoff = record_failure dec (jittered 0) backoff peer now in
      not (ready dec backoff peer now) && ready dec backoff peer (now + from_secs 16)

  unfoldable pub repeated_failures_grow_to_cap : Bool
  repeated_failures_grow_to_cap =
      let backoff = new (from_secs 1) (from_secs 60) in
      let backoff = fail_all dec backoff peer (draws now jittered 20) in
      not (ready dec backoff peer (now + from_secs 29))
      && ready dec backoff peer (now + from_secs 91)

  unfoldable pub success_resets_backoff : Bool
  success_resets_backoff =
      let backoff = new (from_secs 10) (from_secs 3600) in
      let failed = record_failure dec (jittered 0) backoff peer now in
      let reset = record_success dec failed peer in
      not (ready dec failed peer now) && ready dec reset peer now

  unfoldable pub prune_removes_long_expired_entries : Bool
  prune_removes_long_expired_entries =
      let cap = from_secs 60 in
      let backoff = record_failure dec (jittered 0) (new (from_secs 1) cap) peer now in
      let later = now + cap * 3 in
      let pruned = prune backoff later in
      (len backoff == 1) && ready dec pruned peer later && (len pruned == 0)

  module _ (range : (n d : ℕ) → InJitterRange (jittered n) d) where
    program : Unit {0}
    unfolding new ready record_failure record_success prune next_failures failures_of capped_delay
        saturating_mul saturating_pow_2 HashMap.get HashMap.insert HashMap.remove HashMap.retain
    program = tt

    unknown_peer_is_ready_lem : unknown_peer_is_ready ≡ true
    unfolding unknown_peer_is_ready program
    unknown_peer_is_ready_lem = refl

    failure_delays_next_attempt_lem : failure_delays_next_attempt ≡ true
    unfolding failure_delays_next_attempt program
    failure_delays_next_attempt_lem = ground (arith, range 0 (from_secs 10))

    last_draw :
        (b : DialBackoff P) (fs : List Failure) (j : ℕ → ℕ)
        → fail_all dec b peer (fs ++ (now, j) ∷ [])
          ≡ record_failure dec j (fail_all dec b peer fs) peer now
    unfolding fail_all
    last_draw b [] j = refl
    last_draw b ((t, i) ∷ fs) j = last_draw (record_failure dec i b peer t) fs j

    grown :
        fail_all dec (new (from_secs 1) (from_secs 60)) peer (draws now jittered 20)
        ≡ record_failure dec
            (jittered 19)
            (fail_all dec (new (from_secs 1) (from_secs 60)) peer (draws now jittered 19))
            peer
            now
    unfolding draws
    grown = last_draw (new (from_secs 1) (from_secs 60)) (draws now jittered 19) (jittered 19)

    repeated_failures_grow_to_cap_lem : repeated_failures_grow_to_cap ≡ true
    unfolding repeated_failures_grow_to_cap
    repeated_failures_grow_to_cap_lem =
        let fs = draws now jittered 19 in
        let count : length fs ≡ 19 = length-draws now jittered 19 in
        let j : InJitterRange (jittered 19) (min (from_secs 1 * 2 ^ length fs) (from_secs 60)) =
          range 19 _ in
        let delay : min (from_secs 1 * 2 ^ length fs) (from_secs 60) ≡ from_secs 60 =
          rw count refl in
        rw
          (
            grown,
            ready_early dec (from_secs 1) (from_secs 60) peer fs now (jittered 19)
                (now + from_secs 29) (omega arith) (omega arith) (omega (arith, count)) j
                (rw delay (omega arith)),
            ready_late dec (from_secs 1) (from_secs 60) peer fs now (jittered 19)
                (now + from_secs 91) (omega arith) (omega arith) (omega (arith, count)) j
                (rw delay (omega arith)),
          )
          refl

    success_resets_backoff_lem : success_resets_backoff ≡ true
    unfolding success_resets_backoff program
    success_resets_backoff_lem = ground (arith, range 0 (from_secs 10))

    prune_removes_long_expired_entries_lem : prune_removes_long_expired_entries ≡ true
    unfolding prune_removes_long_expired_entries program
    prune_removes_long_expired_entries_lem = ground (arith, range 0 (from_secs 1))
