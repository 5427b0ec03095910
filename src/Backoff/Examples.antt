-- ===== src/Backoff/Examples.antt =====
-- The theorems about the backoff at concrete inputs, and the source's own tests.
use p2p_service.Prelude.{ℕ, ◌*◌, ◌^◌, ◌≡◌, refl, true, false, [], ◌∷◌, ℕ_discrete, arith, ◌/◌}
use p2p_service.HashMap
use p2p_service.Backoff.{
  DialBackoff, new, ready, record_failure, record_success, prune, capped_delay, next_failures,
  saturating_mul, saturating_pow_2,
}
use p2p_service.Backoff.Delay.{fail_all, failures_on_record}
use p2p_service.Backoff.Readiness

abbrev second : ℕ
second = 10 ^ 9

-- The jitter that multiplies by one half.
abbrev halve : ℕ → ℕ
halve d = d / 2

-- `BACKOFF_BASE` and `BACKOFF_CAP` of the maintenance loop.
abbrev fresh : DialBackoff ℕ
fresh = record { base = second; cap = 300 * second; state = [] }

abbrev failed_once : DialBackoff ℕ
failed_once = record fresh { state = (7, record { failures = 1; next_attempt = second }) ∷ [] }

program : Unit {0}
unfolding record_failure record_success prune ready new next_failures capped_delay saturating_mul
    saturating_pow_2 HashMap.insert HashMap.get HashMap.remove HashMap.retain ℕ_discrete fail_all
program = tt

one_failure : record_failure ℕ_discrete (λ d. d) (new second (300 * second)) 7 0 ≡ failed_once
unfolding program
one_failure = refl

success_resets : ready ℕ_discrete (record_success ℕ_discrete failed_once 7) 7 0 ≡ true
unfolding program
success_resets = refl

-- `repeated_failures_grow_to_cap` of the source, with a cap of 60 s.
grown_to_cap : capped_delay second (60 * second) 20 ≡ 60 * second
unfolding program
grown_to_cap = refl

-- Two failures at time 0; the third, at time 0 too, waits for 2 s at least.
ready_early_example :
    ready ℕ_discrete
      (record_failure ℕ_discrete halve
        (fail_all ℕ_discrete (new second (300 * second)) 7 ((0, halve) ∷ (0, halve) ∷ []))
        7
        0)
      7
      second
    ≡ false
ready_early_example =
    Readiness.ready_early ℕ_discrete second (300 * second) 7 ((0, halve) ∷ (0, halve) ∷ []) 0 halve
      second (omega arith) (omega arith) (omega arith) (omega arith) (omega arith)

ready_late_example :
    ready ℕ_discrete
      (record_failure ℕ_discrete halve
        (fail_all ℕ_discrete (new second (300 * second)) 7 ((0, halve) ∷ (0, halve) ∷ []))
        7
        0)
      7
      (7 * second)
    ≡ true
ready_late_example =
    Readiness.ready_late ℕ_discrete second (300 * second) 7 ((0, halve) ∷ (0, halve) ∷ []) 0 halve
      (7 * second) (omega arith) (omega arith) (omega arith) (omega arith) (omega arith)

prune_restarts_example :
    failures_on_record ℕ_discrete
      (record_failure ℕ_discrete halve (prune failed_once (301 * second)) 7 (301 * second))
      7
    ≡ 1
unfolding HashMap.get ℕ_discrete
prune_restarts_example =
    Readiness.prune_restarts ℕ_discrete failed_once 7 (301 * second) (301 * second) halve
      (record { failures = 1; next_attempt = second }) (refl, tt) refl (omega arith)
