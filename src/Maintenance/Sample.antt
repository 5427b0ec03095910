-- ===== src/Maintenance/Sample.antt =====
-- The data of the examples of the maintenance loop.
use p2p_service.Prelude.{ℕ, false, Option, String, [], ◌∷◌}
use p2p_service.Backoff.{DialBackoff}
use p2p_service.Peerstore
use p2p_service.Maintenance.{Shuffles, backoff_base, backoff_cap}
use p2p_service.Maintenance.Attempts.{Attempt, View}
use p2p_service.Maintenance.Rounds.{Round}
use p2p_service.Samples.{sample_net}

-- The shuffles of the examples leave the order alone.
abbrev pub in_order : Shuffles sample_net
in_order = record { preferred = λ l. l; stored = λ l. l }

-- Every dial fails at once, and is retried after the full delay.
abbrev pub failing : ℕ → Attempt
failing n = record { asked_at = n; reached = false; failed_at = n; jittered = λ d. d }

abbrev pub nobody : View sample_net
nobody = record {
  connected = [];
  preferred = ("ann", "loop" ∷ "lan1" ∷ []) ∷ ("bob", "loop" ∷ []) ∷ [];
}

abbrev pub table : DialBackoff String
table = record { base = backoff_base; cap = backoff_cap; state = [] }

-- A round in which all clocks show the same time and every dial fails.
abbrev pub round_at : ℕ → Option (View sample_net) → Round sample_net
round_at now snapshot = record {
  shuffles = in_order;
  now = now;
  now_unix = 0;
  snapshot = snapshot;
  store = Peerstore.default;
  world = λ n. record { asked_at = now; reached = false; failed_at = now; jittered = λ d. d };
}
