-- ===== src/Grpc/Publish.antt =====
-- What Publish counts and what it echoes.
use p2p_service.Prelude.{
  ℕ, ◌≡◌, ◌≢◌, refl, ◌&&◌, String, String_discrete, ite, if_neg, arith, Bool-cases, inl, inr,
  if◌then◌else◌,
}
use p2p_service.HashMap.Laws.{get-insert}
use p2p_service.Deps.{Outcome, ok, failed, is_ok}
use p2p_service.Metrics.{Metrics, inc_counter, increment_event, events_of}
use p2p_service.Subscriptions
use p2p_service.Subscriptions.{Subscriptions}
use p2p_service.Subscriptions.Channel.{Broadcast}
use p2p_service.Network.{BoxError}
use p2p_service.Grpc.{
  Shared, PublishRequest, publish, count_publish, goes_on, is_no_peers, internal_error,
}

pub events_of-increment_event :
    (m : Metrics) (t u : String)
    → events_of (increment_event m t) u
      ≡ ite (String_discrete u t) (inc_counter (events_of m t)) (events_of m u)
unfolding events_of increment_event
events_of-increment_event m t u =
    ground (arith, get-insert String_discrete t u (inc_counter (events_of m t)) m.p2p_events)

-- The event that a publish with this answer is.
abbrev pub event_of : Outcome BoxError → String
event_of ok = "message_published"
event_of (failed e) = if is_no_peers e then "publish_no_peers" else "publish_error"

count_publish-events :
    (m : Metrics) (answer : Outcome BoxError) (u : String)
    → (events_of (count_publish m answer) u
        ≡ ite
            (String_discrete u (event_of answer))
            (inc_counter (events_of m (event_of answer)))
            (events_of m u))
      × ((count_publish m answer).total_messages_sent
          ≡ (if is_ok answer then inc_counter m.total_messages_sent else m.total_messages_sent))
unfolding count_publish events_of increment_event
count_publish-events m ok u = (
  events_of-increment_event (record m { total_messages_sent = inc_counter m.total_messages_sent })
      "message_published" u,
  refl,
)
count_publish-events m (failed e) u = elim (Bool-cases (is_no_peers e)) [
  | inl mesh ↦ rw (mesh) (events_of-increment_event m "publish_no_peers" u, refl)
  | inr broken ↦ rw (broken) (events_of-increment_event m "publish_error" u, refl)
]

module _ (b : Broadcast) where
  -- The echo, if it was asked for.
  abbrev echoed : (local_peer_id : String) (now_millis : ℕ) → Shared b → PublishRequest → Shared b
  echoed local_peer_id now_millis s request =
      if request.echo
      then record s {
        subscriptions =
            (Subscriptions.publish b s.subscriptions (record {
              topic = request.topic;
              source_peer_id = local_peer_id;
              payload = request.payload;
              received_at_millis = now_millis;
            })).0;
      }
      else s

  pub with_topic :
      (local_peer_id : String) (now_millis : ℕ) (answer : Outcome BoxError) (s : Shared b)
      (request : PublishRequest)
      → request.topic ≢ ""
      → publish b local_peer_id now_millis answer s request ≡ (
          let counted = record s { metrics = count_publish s.metrics answer } in
          if goes_on answer
          then (echoed local_peer_id now_millis counted request, ok)
          else (counted, failed internal_error))
  unfolding publish
  with_topic local_peer_id now_millis answer s request h =
      if_neg (String_discrete request.topic "") h _ _

  -- A publish with a topic counts exactly one event, that of its outcome, counts a sent message
  -- exactly if the event loop published it, and echoes it to the local consumers exactly if that
  -- was asked for and the outcome was a success or a mesh without peers; it fails exactly if it
  -- was neither.
  pub publish_lem :
      (local_peer_id : String) (now_millis : ℕ) (answer : Outcome BoxError) (s : Shared b)
      (request : PublishRequest) (u : String)
      → request.topic ≢ ""
      → let r = publish b local_peer_id now_millis answer s request in
        (events_of r.0.metrics u
          ≡ ite
              (String_discrete u (event_of answer))
              (inc_counter (events_of s.metrics (event_of answer)))
              (events_of s.metrics u))
        × (r.0.metrics.total_messages_sent ≡ (
            if is_ok answer
            then inc_counter s.metrics.total_messages_sent
            else s.metrics.total_messages_sent))
        × (r.0.subscriptions ≡ (
            if request.echo && goes_on answer
            then (Subscriptions.publish b s.subscriptions (record {
              topic = request.topic;
              source_peer_id = local_peer_id;
              payload = request.payload;
              received_at_millis = now_millis;
            })).0
            else s.subscriptions))
        × (is_ok r.1 ≡ goes_on answer)
  publish_lem local_peer_id now_millis answer s request u h =
      let counted = count_publish-events s.metrics answer u in
      rw (with_topic local_peer_id now_millis answer s request h)
        (elim (Bool-cases (goes_on answer)) [
          | inl on ↦ elim (Bool-cases request.echo) [
            | inl loud ↦ rw (on, loud) (counted.0, counted.1, refl, refl)
            | inr quiet ↦ rw (on, quiet) (counted.0, counted.1, refl, refl)
          ]
          | inr off ↦ elim (Bool-cases request.echo) [
            | inl loud ↦ rw (off, loud) (counted.0, counted.1, refl, refl)
            | inr quiet ↦ rw (off, quiet) (counted.0, counted.1, refl, refl)
          ]
        ])
