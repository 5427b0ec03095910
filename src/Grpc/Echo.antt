-- ===== src/Grpc/Echo.antt =====
-- Publish of src/grpc.rs from the request to what local consumers find: the handler, the event loop's
-- answer, and the echo through the registry.
use p2p_service.Prelude.{
  ℕ, ◌≡◌, ◌≢◌, ◌≤◌, refl, sym, ap, ◌∙◌, Bool, true, false, ◌&&◌, some, String, String_discrete,
  List, [], ◌∷◌, ◌++◌, keep_last, Bool-cases, inl, inr, if◌then◌else◌,
}
use p2p_service.HashMap
use p2p_service.Deps.{
  Deps, Outcome, ok, failed, is_ok, PublishError, no_peers_subscribed_to_topic, other_publish_error,
}
use p2p_service.Subscriptions
use p2p_service.Subscriptions.{Subscriptions}
use p2p_service.Subscriptions.Channel.{BroadcastLaws}
use p2p_service.Subscriptions.Calls
use p2p_service.Subscriptions.Calls.{Call, publishes, sent_on, run-append}
use p2p_service.Subscriptions.Delivery.{delivery}
use p2p_service.Network.{EventLoop, publish_message}
use p2p_service.Network.Commands.{handle_command, ack_or_publish_error}
use p2p_service.Network.Loop.{Input, step}
use p2p_service.Network.Client.{Link, client_publish, read_unit}
use p2p_service.Network.Client.Wait.{send_replied}
use p2p_service.Grpc.{PublishRequest, goes_on, is_no_peers}
use p2p_service.Grpc.Publish.{publish_lem}
use p2p_service.Grpc.Handlers.{GrpcService, handle_publish, publish_outcome}

-- The swarm took the message, or has no peer to send it to.
abbrev pub is_taken : Outcome PublishError → Bool
is_taken ok = true
is_taken (failed no_peers_subscribed_to_topic) = true
is_taken (failed (other_publish_error e)) = false

module _ (d : Deps) where
  taken_lem :
      (o : Outcome PublishError)
      → goes_on (publish_outcome (read_unit d (ack_or_publish_error d o))) ≡ is_taken o
  unfolding goes_on is_no_peers publish_outcome read_unit ack_or_publish_error
  taken_lem ok = refl
  taken_lem (failed no_peers_subscribed_to_topic) = refl
  taken_lem (failed (other_publish_error e)) = refl

  -- What the swarm of the event loop says to the message.
  abbrev pub said : EventLoop d → PublishRequest → Outcome PublishError
  said s request = (d.gossipsub_publish s.swarm request.topic request.payload).1

  pub client_publish_lem :
      (s : EventLoop d) (later : List (Input d)) (n : ℕ) (request : PublishRequest)
      → client_publish d
          (record { event_loop = some s; later = later })
          n
          request.topic
          request.payload
        ≡ read_unit d (ack_or_publish_error d (said s request))
  unfolding client_publish
  client_publish_lem s later n request =
      send_replied d n (read_unit d) s later (publish_message request.topic request.payload n)
        (ack_or_publish_error d (said s request)) (unfold step handle_command in refl)

  -- The message that the handler hands to the registry, if it hands one over.
  abbrev pub echoes : GrpcService d → (now_millis : ℕ) → EventLoop d → PublishRequest → List Call
  echoes service now_millis s request =
      if request.echo && is_taken (said s request)
      then publishes (record {
        topic = request.topic;
        source_peer_id = d.show_peer service.local_peer_id;
        payload = request.payload;
        received_at_millis = now_millis;
      })
        ∷ []
      else []

  module _ (service : GrpcService d) (n now_millis : ℕ) (request : PublishRequest) (s : EventLoop d)
      (later : List (Input d)) where
    echoed :
        service.client ≡ record { event_loop = some s; later = later }
        → request.topic ≢ ""
        → let done = handle_publish d service n now_millis request in
          (done.0.subscriptions
            ≡ Calls.run d.broadcast service.shared.subscriptions
                (echoes service now_millis s request))
          × (is_ok done.1 ≡ is_taken (said s request))
    unfolding handle_publish Calls.run Calls.step
    echoed meets named =
        let answer =
          publish_outcome (client_publish d service.client n request.topic request.payload) in
        let taken : goes_on answer ≡ is_taken (said s request) =
          ap
            (λ (link : Link d).
              goes_on (publish_outcome (client_publish d link n request.topic request.payload)))
            meets
          ∙ ap (λ a. goes_on (publish_outcome a)) (client_publish_lem s later n request)
          ∙ taken_lem (said s request) in
        let did =
          publish_lem d.broadcast (d.show_peer service.local_peer_id) now_millis answer
            service.shared request "" named in
        (
          did.2
              ∙ rw taken (elim (Bool-cases (request.echo && is_taken (said s request))) [
                | inl loud ↦ rw loud refl
                | inr quiet ↦ rw quiet refl
              ]),
          did.3 ∙ taken,
        )

  -- For a request with a topic, on a running event loop, Publish succeeds exactly if the swarm
  -- took the message or has no peer to send it to; a consumer of any topic, which subscribed to a
  -- registry that any calls had led to, then finds waiting the messages of its topic that any
  -- calls published since, and after them that of the request, if it is of the topic, asks for an
  -- echo and succeeds; if they are more than its channel holds, the newest ones; the channel holds
  -- at least the capacity of the registry.
  pub handle_publish_delivers :
      (laws : BroadcastLaws d.broadcast) (service : GrpcService d) (n now_millis : ℕ)
      (request : PublishRequest) (s : EventLoop d) (later : List (Input d)) (size : ℕ)
      (before after : List Call) (topic : String)
      → service.client ≡ record { event_loop = some s; later = later }
      → request.topic ≢ ""
      → service.shared.subscriptions ≡ (
          let start = Calls.run d.broadcast (Subscriptions.new d.broadcast size) before in
          Calls.run d.broadcast (Subscriptions.subscribe d.broadcast start topic).0 after)
      → let start = Calls.run d.broadcast (Subscriptions.new d.broadcast size) before in
        let r = (Subscriptions.subscribe d.broadcast start topic).1 in
        let done = handle_publish d service n now_millis request in
        (sender : d.broadcast.Sender) × (HashMap.get String_discrete topic
            done.0.subscriptions.senders
          ≡ some sender)
        × (laws.waiting sender r
            ≡ keep_last
                (laws.capacity sender)
                (sent_on topic (after ++ echoes service now_millis s request)))
        × (size ≤ laws.capacity sender)
        × (is_ok done.1 ≡ is_taken (said s request))
  handle_publish_delivers laws service n now_millis request s later size before after topic meets
        named grown =
      let start = Calls.run d.broadcast (Subscriptions.new d.broadcast size) before in
      let joined = (Subscriptions.subscribe d.broadcast start topic).0 in
      let more = echoes service now_millis s request in
      let did = echoed service n now_millis request s later meets named in
      let (sender, registered, reads, wide) =
        delivery d.broadcast laws size before (after ++ more) topic in
      let same =
        did.0
        ∙ ap (λ subs. Calls.run d.broadcast subs more) grown
        ∙ sym (run-append d.broadcast joined after more) in
      (
        sender,
        ap (λ (subs : Subscriptions d.broadcast). HashMap.get String_discrete topic subs.senders)
              same
            ∙ registered,
        reads,
        wide,
        did.1,
      )
