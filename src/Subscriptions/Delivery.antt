-- ===== src/Subscriptions/Delivery.antt =====
-- What a subscriber receives, over every sequence of calls of the registry.
use p2p_service.Prelude.{
  ℕ, ◌≤◌, ◌≡◌, refl, sym, ◌∙◌, some, String, List, [], ◌∷◌, ◌++◌, if_pos, if_neg, keep_last,
  keep_last-keep_last, keep_last-nil, String_discrete,
}
use mathlib.Core.Path.{subst}
use mathlib.Core.List.{append_assoc, append-nil}
use p2p_service.HashMap
use p2p_service.Subscriptions.{Subscriptions, sender_or_new, new, subscribe, publish}
use p2p_service.Subscriptions.Channel.{Envelope, Broadcast, BroadcastLaws}
use p2p_service.Subscriptions.Calls.{
  Call, subscribes, publishes, on_topic, sent_on, step, run, get-subscribe, get-publish_self,
  get-publish_ne,
}
use p2p_service.Subscriptions.Sizes.{subscribe-IsSized, run-IsSized, new-IsSized}

module _ (b : Broadcast) (laws : BroadcastLaws b) where
  -- The receiver `r` of the topic has yet to read the newest of `sent`, as many as its channel
  -- holds, which is `size`.
  pub record Holds (topic : String) (r : b.Receiver) (size : ℕ) (subs : Subscriptions b)
      (sent : List Envelope) : Type 0 where
    pub sender : b.Sender
    pub registered : HashMap.get String_discrete topic subs.senders ≡ some sender
    pub live : laws.IsLive sender r
    pub sized : laws.capacity sender ≡ size
    pub reads : laws.waiting sender r ≡ keep_last size sent

  pub publish-Holds :
      (topic : String) (r : b.Receiver) (size : ℕ) (subs : Subscriptions b) (sent : List Envelope)
      (e : Envelope)
      → Holds topic r size subs sent
      → Holds topic r size (publish b subs e).0 (sent ++ on_topic topic (publishes e))
  publish-Holds topic r size subs sent e h = elim (String_discrete topic e.topic) [
    | yes p ↦ record {
      sender = (b.send h.sender e).0;
      registered =
          subst
            (λ t.
              HashMap.get String_discrete t (publish b subs e).0.senders
              ≡ some (b.send h.sender e).0)
            (sym p)
            (get-publish_self b subs e h.sender (
              subst (λ t. HashMap.get String_discrete t subs.senders ≡ some h.sender) p
                h.registered));
      live = laws.live-send h.sender e r h.live;
      sized = laws.capacity-send h.sender e ∙ h.sized;
      reads = rw (if_pos (String_discrete topic e.topic) p) (
          laws.waiting-send h.sender e r h.live
          ∙ rw (h.sized, h.reads) (keep_last-keep_last size sent (e ∷ [])));
    }
    | no p ↦ record {
      sender = h.sender;
      registered = get-publish_ne b subs e topic p ∙ h.registered;
      live = h.live;
      sized = h.sized;
      reads = rw (if_neg (String_discrete topic e.topic) p, append-nil) h.reads;
    }
  ]

  pub subscribe-Holds :
      (topic : String) (r : b.Receiver) (size : ℕ) (subs : Subscriptions b) (sent : List Envelope)
      (t : String)
      → Holds topic r size subs sent
      → Holds topic r size (subscribe b subs t).0 (sent ++ [])
  subscribe-Holds topic r size subs sent t h = elim (String_discrete topic t) [
    | yes p ↦ record {
      sender = (b.subscribe h.sender).0;
      registered =
          get-subscribe b subs t topic
          ∙ if_pos (String_discrete topic t) p _ _
          ∙ subst
              (λ k.
                some
                  (b.subscribe
                    (sender_or_new b subs.capacity (HashMap.get String_discrete k subs.senders))).0
                ≡ some (b.subscribe h.sender).0)
              p (rw h.registered (unfold sender_or_new in refl));
      live = laws.live-subscribe h.sender r h.live;
      sized = laws.capacity-subscribe h.sender ∙ h.sized;
      reads = rw append-nil (laws.waiting-subscribe h.sender r h.live ∙ h.reads);
    }
    | no p ↦ record {
      sender = h.sender;
      registered =
          get-subscribe b subs t topic ∙ if_neg (String_discrete topic t) p _ _ ∙ h.registered;
      live = h.live;
      sized = h.sized;
      reads = rw append-nil h.reads;
    }
  ]

  pub run-Holds :
      (topic : String) (r : b.Receiver) (size : ℕ) (subs : Subscriptions b) (sent : List Envelope)
      (cs : List Call)
      → Holds topic r size subs sent
      → Holds topic r size (run b subs cs) (sent ++ sent_on topic cs)
  unfolding run sent_on step
  run-Holds topic r size subs sent [] h = rw append-nil h
  run-Holds topic r size subs sent (subscribes t ∷ cs) h = rw (← append_assoc) (
      run-Holds topic r size (subscribe b subs t).0 (sent ++ []) cs
        (subscribe-Holds topic r size subs sent t h))
  run-Holds topic r size subs sent (publishes e ∷ cs) h =
      rw (← append_assoc) (
        run-Holds topic r size (publish b subs e).0 _ cs (publish-Holds topic r size subs sent e h))

  pub subscribed :
      (subs : Subscriptions b) (topic : String)
      → (size : ℕ) × Holds topic (subscribe b subs topic).1 size (subscribe b subs topic).0 []
  unfolding subscribe keep_last
  subscribed subs topic =
      let made = sender_or_new b subs.capacity (HashMap.get String_discrete topic subs.senders) in
      (
        laws.capacity made,
        record {
          sender = (b.subscribe made).0;
          registered =
              get-subscribe b subs topic topic ∙ if_pos (String_discrete topic topic) refl _ _;
          live = laws.live_new made;
          sized = laws.capacity-subscribe made;
          reads = laws.waiting_new made ∙ sym (keep_last-nil (laws.capacity made));
        },
      )

  -- A consumer that subscribes to a topic at any time then finds waiting exactly the messages
  -- published on that topic since, in order and each once; if they are more than its channel
  -- holds, the newest ones; the channel holds at least the registry's capacity.
  pub delivery :
      (size : ℕ) (before after : List Call) (topic : String)
      → let (subs, r) = subscribe b (run b (new b size) before) topic in
        (s : b.Sender) × (HashMap.get String_discrete topic (run b subs after).senders ≡ some s)
        × (laws.waiting s r ≡ keep_last (laws.capacity s) (sent_on topic after))
        × (size ≤ laws.capacity s)
  delivery size before after topic =
      let subs = run b (new b size) before in
      let start = subscribed subs topic in
      let done =
        run-Holds topic (subscribe b subs topic).1 start.0 (subscribe b subs topic).0 [] after
          start.1 in
      let wide = run-IsSized b laws size (subscribe b subs topic).0 after (
        subscribe-IsSized b laws size subs topic
          (run-IsSized b laws size (new b size) before (new-IsSized b laws size))) in
      (
        done.sender,
        done.registered,
        rw done.sized done.reads,
        wide.wide topic done.sender done.registered,
      )
