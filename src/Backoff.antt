-- ===== src/Backoff.antt =====
-- src/p2p/backoff.rs. `Duration` and `Instant` are counts of nanoseconds; the overflow panics of
-- `Instant + Duration` are not modelled. The random factor of a call, drawn by the `rand` crate, is
-- the argument `jittered`: what `mul_f64` makes of a duration for the factor that was drawn.
pub mod Delay
pub mod Readiness
pub mod Tests
mod Examples
use p2p_service.Prelude.{
  ℕ, ◌+◌, ◌-◌, ◌*◌, ◌%◌, ◌^◌, ◌≤◌, Bool, true, min, Option, none, some, [], ltb, leb,
}
use p2p_service.HashMap
use p2p_service.HashMap.{HashMap}

pub record BackoffState : Type 0 where
  pub failures : ℕ
  pub next_attempt : ℕ

pub record DialBackoff (P : Type 0) : Type 0 where
  pub base : ℕ
  pub cap : ℕ
  pub state : HashMap P BackoffState

abbrev pub u32_max : ℕ
u32_max = 2 ^ 32 - 1

-- `Duration::MAX`
abbrev pub duration_max : ℕ
duration_max = (2 ^ 64 - 1) * 10 ^ 9 + 999_999_999

-- `2u32.saturating_pow(e)`
unfoldable pub saturating_pow_2 : ℕ → ℕ
saturating_pow_2 e = min (2 ^ e) u32_max

-- `Duration::saturating_mul`
unfoldable pub saturating_mul : ℕ → ℕ → ℕ
saturating_mul d k = min (d * k) duration_max

-- The failures on record, 0 for an unknown peer.
unfoldable pub failures_of : Option BackoffState → ℕ
failures_of none = 0
failures_of (some s) = s.failures

-- The delay before jitter.
unfoldable pub capped_delay : ℕ → ℕ → ℕ → ℕ
capped_delay base cap failures = min (saturating_mul base (saturating_pow_2 (failures - 1))) cap

-- The `u32` counter wraps as it does in a release build.
unfoldable pub next_failures : Option BackoffState → ℕ
unfolding failures_of
next_failures entry = (failures_of entry + 1) % 2 ^ 32

module _ {P : Type 0} where
  unfoldable pub new : ℕ → ℕ → DialBackoff P
  new base cap = record { base = base; cap = cap; state = [] }

  module _ (dec : Discrete P) where
    unfoldable pub ready : DialBackoff P → P → ℕ → Bool
    ready b peer now = elim (HashMap.get dec peer b.state) [
      | none ↦ true
      | some s ↦ leb s.next_attempt now
    ]

    -- The product of a delay and the jitter, and the time of the next attempt, are not bounded here;
    -- the panics of `mul_f64` and `Instant + Duration` on overflow are left out.
    unfoldable pub record_failure : (jittered : ℕ → ℕ) → DialBackoff P → P → ℕ → DialBackoff P
    record_failure jittered b peer now =
        let failures = next_failures (HashMap.get dec peer b.state) in
        let delay = jittered (capped_delay b.base b.cap failures) in
        record b {
          state =
              HashMap.insert dec peer (record { failures = failures; next_attempt = now + delay })
                b.state;
        }

    unfoldable pub record_success : DialBackoff P → P → DialBackoff P
    record_success b peer = record b { state = HashMap.remove dec peer b.state }

  unfoldable pub prune : DialBackoff P → ℕ → DialBackoff P
  prune b now = record b { state = HashMap.retain (λ s. ltb now (s.next_attempt + b.cap)) b.state }
