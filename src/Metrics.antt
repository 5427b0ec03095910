-- ===== src/Metrics.antt =====
-- src/metrics.rs: the values of the metrics. A `Counter` is a `u64` that wraps; a `Gauge` is an
-- `i64`, kept as an integer.
pub mod Gauge
pub mod Memory
use p2p_service.Prelude.{ℕ, ◌+◌, ◌%◌, ◌^◌, Option, none, some, String, [], String_discrete}
use p2p_service.HashMap
use p2p_service.HashMap.{HashMap}
use Gauge.{ℤ, pos}

pub record Metrics : Type 0 where
  pub connected_peers : ℤ
  pub total_messages_sent : ℕ
  pub total_messages_received : ℕ
  pub p2p_events : HashMap String ℕ
  pub memory_usage_bytes : ℤ
  pub http_requests_total : ℕ

unfoldable pub new : Metrics
new = record {
  connected_peers = pos 0;
  total_messages_sent = 0;
  total_messages_received = 0;
  p2p_events = [];
  memory_usage_bytes = pos 0;
  http_requests_total = 0;
}

-- `Counter::inc`
abbrev pub inc_counter : ℕ → ℕ
inc_counter n = (n + 1) % 2 ^ 64

-- The value of a counter of the family, 0 for one that was never touched.
unfoldable pub events_of : Metrics → String → ℕ
events_of m event_type = elim (HashMap.get String_discrete event_type m.p2p_events) [
  | none ↦ 0
  | some n ↦ n
]

unfoldable pub increment_event : Metrics → String → Metrics
unfolding events_of
increment_event m event_type = record m {
  p2p_events =
      HashMap.insert String_discrete event_type (inc_counter (events_of m event_type)) m.p2p_events;
}
