-- ===== src/Grpc/Delivery.antt =====
-- What a consumer finds that Subscribe of src/grpc.rs let in: the messages that the event loop takes
-- from the moment at which the handler made its receiver.
use p2p_service.Prelude.{
  ℕ, zero, suc, ◌+◌, ◌-◌, ◌<◌, [], ◌∷◌, ◌++◌, refl, true, false, ltb, length, if◌then◌else◌, ◌≡◌,
  ◌≤◌, sym, ap, ◌∙◌, some, String, String_discrete, List, map, keep_last, arith,
}
use p2p_service.HashMap
use p2p_service.Deps.{Deps}
use p2p_service.Subscriptions
use p2p_service.Subscriptions.{Subscriptions}
use p2p_service.Subscriptions.Channel.{BroadcastLaws}
use p2p_service.Subscriptions.Calls
use p2p_service.Subscriptions.Calls.{Call, publishes, sent_on}
use p2p_service.Subscriptions.Delivery.{delivery}
use p2p_service.Network.{EventLoop}
use p2p_service.Network.Fanout.{gossip, of_topic, run-PublishesOn, sent_on-publishes}
use p2p_service.Network.Loop.{Input, run}
use p2p_service.Network.Client.{Link}
use p2p_service.Subscriptions.Receive.{Receive, got, polls, report}
use p2p_service.Subscriptions.Reading.{reading}
use p2p_service.Subscriptions.Channel.{Envelope}
use p2p_service.Metrics.{Metrics, increment_event}
use p2p_service.Grpc.Stream.{Streamed, stream, to_proto}
use p2p_service.Grpc.Handlers.{GrpcService, replied, or_internal, handle_subscribe}

-- The stream of a consumer that was told of a loss, if there was one, and got the messages.
stream-got :
    (m : Metrics) (es : List Envelope)
    → stream m (map got es) ≡ record { yielded = map to_proto es; metrics = m; ended = false }
unfolding stream
stream-got m [] = refl
stream-got m (e ∷ es) =
    ap (λ (s : Streamed). record s { yielded = to_proto e ∷ s.yielded }) (stream-got m es)

stream-report :
    (m : Metrics) (j : ℕ) (es : List Envelope)
    → stream m (report j ++ map got es) ≡ record {
      yielded = map to_proto es;
      metrics = if ltb 0 j then increment_event m "subscriber_lagged" else m;
      ended = false;
    }
unfolding stream
stream-report m zero es = stream-got m es
stream-report m (suc j) es =
    rw (some_lost j) (stream-got (increment_event m "subscriber_lagged") es)
  where
    some_lost : (j : ℕ) → ltb 0 (suc j) ≡ true
    some_lost j = ground arith

over : (n cap : ℕ) → ltb 0 (n - cap) ≡ ltb cap n
over n cap = ground arith

module _ (d : Deps) (laws : BroadcastLaws d.broadcast) where
  -- A Subscribe that is let in has subscribed to the registry.
  let_in :
      (service : GrpcService d) (n : ℕ) (meets : Subscriptions d.broadcast → Link d)
      (topic : String) (subs : Subscriptions d.broadcast) (r : d.broadcast.Receiver)
      → handle_subscribe d service n meets topic ≡ (subs, replied r)
      → Subscriptions.subscribe d.broadcast service.shared.subscriptions topic ≡ (subs, r)
  unfolding handle_subscribe or_internal
  let_in service n meets topic subs r h = ground (arith, h)

  -- If Subscribe lets a consumer in, with a registry that any calls have led to, then whatever the
  -- event loop takes from the registry that the handler left, the consumer finds waiting exactly
  -- the gossipsub messages of its topic that have a source, in order and each once; if they are
  -- more than its channel holds, the newest ones; the channel holds at least the registry's
  -- capacity.
  pub handle_subscribe_delivers :
      (service : GrpcService d) (n size : ℕ) (meets : Subscriptions d.broadcast → Link d)
      (topic : String) (before : List Call) (s : EventLoop d) (r : d.broadcast.Receiver)
      (is : List (Input d))
      → service.shared.subscriptions
        ≡ Calls.run d.broadcast (Subscriptions.new d.broadcast size) before
      → handle_subscribe d service n meets topic ≡ (s.subscriptions, replied r)
      → (sender : d.broadcast.Sender) × (HashMap.get String_discrete topic
            (run d s is).0.subscriptions.senders
          ≡ some sender)
        × (laws.waiting sender r ≡ keep_last (laws.capacity sender) (of_topic topic (gossip d is)))
        × (size ≤ laws.capacity sender)
  handle_subscribe_delivers service n size meets topic before s r is grown h =
      let start = Calls.run d.broadcast (Subscriptions.new d.broadcast size) before in
      let joined : Subscriptions.subscribe d.broadcast start topic ≡ (s.subscriptions, r) =
        ap (λ subs. Subscriptions.subscribe d.broadcast subs topic) (sym grown)
        ∙ let_in service n meets topic s.subscriptions r h in
      let (sender, registered, reads, wide) =
        delivery d.broadcast laws size before (map publishes (gossip d is)) topic in
      (
        sender,
        ap (λ (subs : Subscriptions d.broadcast). HashMap.get String_discrete topic subs.senders)
              (run-PublishesOn d s is
                ∙ ap
                    (λ (x : Subscriptions d.broadcast × d.broadcast.Receiver).
                      Calls.run d.broadcast x.0 (map publishes (gossip d is)))
                    (sym joined))
            ∙ registered,
        ap (λ (x : Subscriptions d.broadcast × d.broadcast.Receiver). laws.waiting sender x.1)
              (sym joined)
            ∙ reads
            ∙ ap (keep_last (laws.capacity sender)) (sent_on-publishes topic (gossip d is)),
        wide,
      )

  -- If Subscribe lets a consumer in, with a registry that any calls have led to, then whatever the
  -- event loop takes from the registry that the handler left, a stream that reads the channel
  -- until it has to wait yields exactly the gossipsub messages of its topic that have a source, in
  -- order and each once, has not ended, and counts nothing; if they are more than the channel
  -- holds, it yields the newest ones and counts one lag; the channel holds at least the capacity
  -- of the registry.
  pub handle_subscribe_streams :
      (c : Receive d.broadcast laws) (service : GrpcService d) (n size : ℕ)
      (meets : Subscriptions d.broadcast → Link d) (topic : String) (before : List Call)
      (s : EventLoop d) (r : d.broadcast.Receiver) (is : List (Input d)) (m : Metrics) (calls : ℕ)
      → service.shared.subscriptions
        ≡ Calls.run d.broadcast (Subscriptions.new d.broadcast size) before
      → handle_subscribe d service n meets topic ≡ (s.subscriptions, replied r)
      → length (of_topic topic (gossip d is)) + 1 < calls
      → (sender : d.broadcast.Sender) × (HashMap.get String_discrete topic
            (run d s is).0.subscriptions.senders
          ≡ some sender)
        × (stream m (polls c calls sender r) ≡ record {
          yielded = map to_proto (keep_last (laws.capacity sender) (of_topic topic (gossip d is)));
          metrics =
              if ltb (laws.capacity sender) (length (of_topic topic (gossip d is)))
              then increment_event m "subscriber_lagged"
              else m;
          ended = false;
        })
        × (size ≤ laws.capacity sender)
  handle_subscribe_streams c service n size meets topic before s r is m calls grown h enough =
      let start = Calls.run d.broadcast (Subscriptions.new d.broadcast size) before in
      let joined : Subscriptions.subscribe d.broadcast start topic ≡ (s.subscriptions, r) =
        ap (λ subs. Subscriptions.subscribe d.broadcast subs topic) (sym grown)
        ∙ let_in service n meets topic s.subscriptions r h in
      let sent = sent_on-publishes topic (gossip d is) in
      let (sender, registered, reads, wide) =
        reading d.broadcast laws c size before (map publishes (gossip d is)) topic calls
          (rw sent enough) in
      (
        sender,
        ap (λ (subs : Subscriptions d.broadcast). HashMap.get String_discrete topic subs.senders)
              (run-PublishesOn d s is
                ∙ ap
                    (λ (x : Subscriptions d.broadcast × d.broadcast.Receiver).
                      Calls.run d.broadcast x.0 (map publishes (gossip d is)))
                    (sym joined))
            ∙ registered,
        ap
              (λ (x : Subscriptions d.broadcast × d.broadcast.Receiver).
                stream m (polls c calls sender x.1))
              (sym joined)
            ∙ ap (stream m) reads
            ∙ ap
                (λ es. stream m (
                  report (length es - laws.capacity sender)
                  ++ map got (keep_last (laws.capacity sender) es)))
                sent
            ∙ stream-report m _ _
            ∙ ap
                (λ lost. record {
                  yielded =
                      map to_proto
                        (keep_last (laws.capacity sender) (of_topic topic (gossip d is)));
                  metrics = if lost then increment_event m "subscriber_lagged" else m;
                  ended = false;
                })
                (over (length (of_topic topic (gossip d is))) (laws.capacity sender)),
        wide,
      )
