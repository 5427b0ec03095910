-- ===== src/Grpc/Stream.antt =====
-- The stream of Subscribe in src/grpc.rs, on what its calls of `recv` return in turn.
use p2p_service.Prelude.{
  ℕ, ◌+◌, ◌<◌, ◌%◌, ◌^◌, ◌≡◌, refl, ap, Bool, true, false, String, List, [], ◌∷◌, arith,
  String_discrete,
}
use p2p_service.Metrics.{Metrics, increment_event, events_of, inc_counter}
use p2p_service.Subscriptions.Channel.{Envelope}
use p2p_service.Subscriptions.Receive.{Recv, got, lagged, closed}
use p2p_service.Grpc.Publish.{events_of-increment_event}

-- `PubsubEnvelope`
pub record PubsubEnvelope : Type 0 where
  pub topic : String
  pub source_peer_id : String
  pub payload : List ℕ
  pub received_at_millis : ℕ

unfoldable pub to_proto : Envelope → PubsubEnvelope
to_proto envelope = record {
  topic = envelope.topic;
  source_peer_id = envelope.source_peer_id;
  payload = envelope.payload;
  received_at_millis = envelope.received_at_millis;
}

-- What the stream has yielded, the metrics, and whether the stream has ended.
pub record Streamed : Type 0 where
  pub yielded : List PubsubEnvelope
  pub metrics : Metrics
  pub ended : Bool

unfoldable pub stream : Metrics → List Recv → Streamed
unfolding to_proto
stream metrics [] = record { yielded = []; metrics = metrics; ended = false }
stream metrics (got envelope ∷ rest) =
    let later = stream metrics rest in record later { yielded = to_proto envelope ∷ later.yielded }
stream metrics (lagged n ∷ rest) = stream (increment_event metrics "subscriber_lagged") rest
stream metrics (closed ∷ rest) = record { yielded = []; metrics = metrics; ended = true }

-- The results of `recv` before the channel closes.
unfoldable pub before_close : List Recv → List Recv
before_close [] = []
before_close (closed ∷ rest) = []
before_close (r ∷ rest) = r ∷ before_close rest

unfoldable pub received : List Recv → List PubsubEnvelope
received [] = []
received (got envelope ∷ rest) = to_proto envelope ∷ received rest
received (_ ∷ rest) = received rest

unfoldable pub lags : List Recv → ℕ
lags [] = 0
lags (lagged n ∷ rest) = 1 + lags rest
lags (_ ∷ rest) = lags rest

unfoldable pub is_closed : List Recv → Bool
is_closed [] = false
is_closed (closed ∷ rest) = true
is_closed (_ ∷ rest) = is_closed rest

-- The counter of lagging subscribers.
abbrev pub lagged_count : Metrics → ℕ
lagged_count metrics = events_of metrics "subscriber_lagged"

lagged_count-increment :
    (m : Metrics)
    → lagged_count (increment_event m "subscriber_lagged") ≡ inc_counter (lagged_count m)
unfolding String_discrete
lagged_count-increment m = events_of-increment_event m "subscriber_lagged" "subscriber_lagged"

inc_then_add : (n k : ℕ) → (inc_counter n + k) % 2 ^ 64 ≡ (n + (1 + k)) % 2 ^ 64
inc_then_add n k = omega arith

-- A stream of Subscribe yields exactly the messages that it received before the channel closed, in
-- order, has ended exactly if the channel closed, and counts one lag for each report of skipped
-- messages, however many were skipped, if the counter is below 2^64.
pub stream_lem :
    (m : Metrics) (rs : List Recv)
    → lagged_count m < 2 ^ 64
    → let s = stream m rs in
      (s.yielded ≡ received (before_close rs))
      × (s.ended ≡ is_closed rs)
      × (lagged_count s.metrics ≡ (lagged_count m + lags (before_close rs)) % 2 ^ 64)
unfolding stream before_close received lags is_closed
stream_lem m [] h = (refl, refl, omega (arith, h))
stream_lem m (got envelope ∷ rest) h =
    let ih = stream_lem m rest h in (ap (λ es. to_proto envelope ∷ es) ih.0, ih.1, ih.2)
stream_lem m (lagged n ∷ rest) h =
    let counted = lagged_count-increment m in
    let (yielded, ended, count) =
      stream_lem (increment_event m "subscriber_lagged") rest (omega (arith, counted)) in
    (yielded, ended, omega (arith, count, counted))
stream_lem m (closed ∷ rest) h = (refl, refl, omega (arith, h))
