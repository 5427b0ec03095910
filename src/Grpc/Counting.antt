-- ===== src/Grpc/Counting.antt =====
-- Publish of src/grpc.rs from the request to what it counts, echoes and replies.
use p2p_service.Prelude.{
  ℕ, ◌≡◌, ◌≢◌, refl, ap, ◌∙◌, Bool, true, false, ◌&&◌, Option, none, some, String, String_discrete,
  List, ite, if_pos, if_neg, if◌then◌else◌,
}
use p2p_service.Deps.{
  Deps, Outcome, ok, failed, is_ok, PublishError, no_peers_subscribed_to_topic, other_publish_error,
}
use p2p_service.Metrics.{Metrics, inc_counter, events_of}
use p2p_service.Subscriptions
use p2p_service.Subscriptions.{Subscriptions}
use p2p_service.Network.{EventLoop, BoxError, publish_error, channel_closed}
use p2p_service.Network.Commands.{ack_or_publish_error}
use p2p_service.Network.Loop.{Input}
use p2p_service.Network.Client.{client_publish, send_command_and_wait, read_unit}
use p2p_service.Grpc.{
  StatusCode, internal_error, invalid_argument, Shared, PublishRequest, publish, goes_on,
  is_no_peers,
}
use p2p_service.Grpc.Publish.{event_of, publish_lem, with_topic}
use p2p_service.Grpc.Echo.{said, client_publish_lem}
use p2p_service.Grpc.Handlers.{GrpcService, handle_publish, publish_outcome}

-- What is to come of a request: the event that is counted, whether a sent message is counted, and
-- the reply.
pub record Reaction : Type 0 where
  pub event : Option String
  pub is_sent : Bool
  pub reply : Outcome StatusCode

-- `none`: the event loop is gone; else what its swarm says to the message.
abbrev pub reaction_to : Option (Outcome PublishError) → Reaction
reaction_to none = record {
  event = some "publish_error";
  is_sent = false;
  reply = failed internal_error;
}
reaction_to (some ok) = record { event = some "message_published"; is_sent = true; reply = ok }
reaction_to (some (failed no_peers_subscribed_to_topic)) = record {
  event = some "publish_no_peers";
  is_sent = false;
  reply = ok;
}
reaction_to (some (failed (other_publish_error e))) = record {
  event = some "publish_error";
  is_sent = false;
  reply = failed internal_error;
}

-- A request without a topic is refused before the event loop is asked.
abbrev pub reaction : String → Option (Outcome PublishError) → Reaction
reaction topic answer =
    ite (String_discrete topic "")
      (record { event = none; is_sent = false; reply = failed invalid_argument })
      (reaction_to answer)

-- The counters of events after one was counted.
abbrev pub after_event : Option String → Metrics → String → ℕ
after_event none m u = events_of m u
after_event (some t) m u = ite (String_discrete u t) (inc_counter (events_of m t)) (events_of m u)

module _ (d : Deps) where
  abbrev pub said_by : Option (EventLoop d) → PublishRequest → Option (Outcome PublishError)
  said_by none request = none
  said_by (some s) request = some (said d s request)

  -- The service's state and its reply are what the reaction says.
  pub record Follows (r : Shared d.broadcast × Outcome StatusCode) (s : Shared d.broadcast)
      (source : String) (now_millis : ℕ) (request : PublishRequest) (c : Reaction) : Type 0 where
    pub events : (u : String) → events_of r.0.metrics u ≡ after_event c.event s.metrics u
    pub sent : r.0.metrics.total_messages_sent ≡ (
        if c.is_sent
        then inc_counter s.metrics.total_messages_sent
        else s.metrics.total_messages_sent)
    pub echo : r.0.subscriptions ≡ (
        if request.echo && is_ok c.reply
        then (Subscriptions.publish d.broadcast s.subscriptions (record {
          topic = request.topic;
          source_peer_id = source;
          payload = request.payload;
          received_at_millis = now_millis;
        })).0
        else s.subscriptions)
    pub reply : r.1 ≡ c.reply

  -- The answer as the handler gets it.
  abbrev boxed : Option (Outcome PublishError) → Outcome BoxError
  boxed none = failed channel_closed
  boxed (some ok) = ok
  boxed (some (failed e)) = failed (publish_error e)

  boxed_said :
      (o : Outcome PublishError)
      → publish_outcome (read_unit d (ack_or_publish_error d o)) ≡ boxed (some o)
  unfolding publish_outcome read_unit ack_or_publish_error
  boxed_said ok = refl
  boxed_said (failed e) = refl

  answer_lem :
      (o : Option (EventLoop d)) (later : List (Input d)) (n : ℕ) (request : PublishRequest)
      → publish_outcome (
          client_publish d
            (record { event_loop = o; later = later })
            n
            request.topic
            request.payload)
        ≡ boxed (said_by o request)
  unfolding publish_outcome client_publish send_command_and_wait
  answer_lem none later n request = refl
  answer_lem (some s) later n request =
      ap publish_outcome (client_publish_lem d s later n request) ∙ boxed_said (said d s request)

  module _ (source : String) (now_millis : ℕ) (s : Shared d.broadcast)
      (request : PublishRequest) where
    -- What the answer stands for, in the handler's own terms.
    told-Follows :
        (a : Outcome BoxError) (c : Reaction)
        → request.topic ≢ ""
        → c.event ≡ some (event_of a)
        → c.is_sent ≡ is_ok a
        → is_ok c.reply ≡ goes_on a
        → (if goes_on a then ok else failed internal_error) ≡ c.reply
        → Follows (publish d.broadcast source now_millis a s request) s source now_millis request c
    told-Follows a c h event is_sent goes reply =
        let did = publish_lem d.broadcast source now_millis a s request "" h in
        record {
          events = λ u. rw event (publish_lem d.broadcast source now_millis a s request u h).0;
          sent = rw is_sent (did.1);
          echo = rw goes (did.2);
          reply =
              ap (λ r. r.1) (with_topic d.broadcast source now_millis a s request h)
              ∙ last (goes_on a) _ _
              ∙ reply;
        }
      where
        second : Shared d.broadcast × Outcome StatusCode → Outcome StatusCode
        second r = r.1

        last :
            (b : Bool) (x y : Shared d.broadcast)
            → second (if b then (x, ok) else (y, failed internal_error))
              ≡ (if b then ok else failed internal_error)
        last true x y = refl
        last false x y = refl

    with_topic-Follows :
        (o : Option (Outcome PublishError))
        → request.topic ≢ ""
        → Follows
            (publish d.broadcast source now_millis (boxed o) s request)
            s
            source
            now_millis
            request
            (reaction_to o)
    unfolding goes_on is_no_peers
    with_topic-Follows none h = told-Follows (boxed none) (reaction_to none) h refl refl refl refl
    with_topic-Follows (some ok) h = told-Follows ok (reaction_to (some ok)) h refl refl refl refl
    with_topic-Follows (some (failed no_peers_subscribed_to_topic)) h =
        told-Follows _ (reaction_to (some (failed no_peers_subscribed_to_topic))) h refl refl refl
          refl
    with_topic-Follows (some (failed (other_publish_error e))) h =
        told-Follows _ (reaction_to (some (failed (other_publish_error e)))) h refl refl refl refl

    no_topic-Follows :
        (a : Outcome BoxError)
        → request.topic ≡ ""
        → Follows
            (publish d.broadcast source now_millis a s request)
            s
            source
            now_millis
            request
            (record { event = none; is_sent = false; reply = failed invalid_argument })
    unfolding publish
    no_topic-Follows a h =
        rw (if_pos (String_discrete request.topic "") h)
          (record { events = λ u. refl; sent = refl; echo = quiet _ _ request.echo; reply = refl })
      where
        quiet : (x y : Subscriptions d.broadcast) (b : Bool) → y ≡ (if b && false then x else y)
        quiet x y true = refl
        quiet x y false = refl

  -- Publish refuses a request without a topic as INVALID_ARGUMENT and counts and echoes nothing;
  -- else it replies with success if the swarm took the message or has no peer to send it to, and
  -- INTERNAL if the swarm reports another error or the event loop is gone; it counts exactly one
  -- event, message_published, publish_no_peers or publish_error in these cases, counts a sent
  -- message exactly if the swarm took it, and echoes the message to the local consumers exactly if
  -- that was asked for and it replies with success.
  pub handle_publish-Follows :
      (service : GrpcService d) (n now_millis : ℕ) (request : PublishRequest)
      → Follows
          (handle_publish d service n now_millis request)
          service.shared
          (d.show_peer service.local_peer_id)
          now_millis
          request
          (reaction request.topic (said_by service.client.event_loop request))
  unfolding handle_publish
  handle_publish-Follows service n now_millis request =
      let source = d.show_peer service.local_peer_id in
      let answers = said_by service.client.event_loop request in
      elim (String_discrete request.topic "") [
        | yes unnamed ↦
            rw (if_pos (String_discrete request.topic "") unnamed)
              (no_topic-Follows source now_millis service.shared request _ unnamed)
        | no named ↦
            rw
              (
                if_neg (String_discrete request.topic "") named,
                answer_lem service.client.event_loop service.client.later n request,
              )
              (with_topic-Follows source now_millis service.shared request answers named)
      ]
