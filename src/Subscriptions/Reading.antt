-- ===== src/Subscriptions/Reading.antt =====
-- What a consumer reads, and what it is told that it lost, after any calls of the registry.
use mathlib.Core.Path.{subst}
use mathlib.Core.List.{append_assoc, append-nil}
use p2p_service.Prelude.{
  ℕ, ◌+◌, ◌-◌, ◌<◌, ◌≤◌, ◌≡◌, refl, sym, ap, ◌∙◌, some, some_inj, String, String_discrete, List, [],
  ◌∷◌, ◌++◌, map, length, length-append, keep_last, length-keep_last, if_pos, if_neg, arith,
}
use p2p_service.HashMap
use p2p_service.Subscriptions.{Subscriptions, subscribe, publish, new, sender_or_new}
use p2p_service.Subscriptions.Channel.{Envelope, Broadcast, BroadcastLaws}
use p2p_service.Subscriptions.Receive.{Receive, got, polls, polls_lem, report}
use p2p_service.Subscriptions.Calls.{
  Call, subscribes, publishes, on_topic, sent_on, step, run, get-subscribe, get-publish_self,
  get-publish_ne,
}
use p2p_service.Subscriptions.Delivery.{delivery, Holds, publish-Holds, subscribe-Holds, subscribed}

module _ (b : Broadcast) (laws : BroadcastLaws b) (c : Receive b laws) where
  -- The receiver lost what its channel could not hold, and has not been told of it.
  record Lost (topic : String) (r : b.Receiver) (size : ℕ) (subs : Subscriptions b)
      (sent : List Envelope) : Type 0 where
    holds : Holds b laws topic r size subs sent
    lost : c.missed holds.sender r ≡ length sent - size

  lost_one :
      (size : ℕ) (sent : List Envelope) (e : Envelope) (kept : List Envelope) (k : ℕ)
      → k ≡ length sent - size
      → kept ≡ keep_last size sent
      → k + (length (kept ++ e ∷ []) - size) ≡ length (sent ++ e ∷ []) - size
  lost_one size sent e kept k h same = omega (
    arith,
    h,
    ap length same,
    length-keep_last size sent,
    length-append sent (e ∷ []),
    length-append kept (e ∷ []),
  )

  publish-Lost :
      (topic : String) (r : b.Receiver) (size : ℕ) (subs : Subscriptions b) (sent : List Envelope)
      (e : Envelope)
      → Lost topic r size subs sent
      → Lost topic r size (publish b subs e).0 (sent ++ on_topic topic (publishes e))
  publish-Lost topic r size subs sent e h = elim (String_discrete topic e.topic) [
    | yes p ↦
        let next = publish-Holds b laws topic r size subs sent e h.holds in
        let same : next.sender ≡ (b.send h.holds.sender e).0 = some_inj (
          sym next.registered
          ∙ subst
              (λ t.
                HashMap.get String_discrete t (publish b subs e).0.senders
                ≡ some (b.send h.holds.sender e).0)
              (sym p)
              (get-publish_self b subs e h.holds.sender (
                subst (λ t. HashMap.get String_discrete t subs.senders ≡ some h.holds.sender) p
                  h.holds.registered))) in
        record {
          holds = next;
          lost =
              ap (λ s. c.missed s r) same
              ∙ c.missed-send h.holds.sender e r h.holds.live
              ∙ rw (if_pos (String_discrete topic e.topic) p) (
                  rw h.holds.sized (
                    lost_one size sent e (laws.waiting h.holds.sender r) (c.missed h.holds.sender r)
                      h.lost h.holds.reads));
        }
    | no p ↦
        let next = publish-Holds b laws topic r size subs sent e h.holds in
        let same : next.sender ≡ h.holds.sender =
          some_inj (sym next.registered ∙ get-publish_ne b subs e topic p ∙ h.holds.registered) in
        record {
          holds = next;
          lost =
              ap (λ s. c.missed s r) same
              ∙ h.lost
              ∙ rw (if_neg (String_discrete topic e.topic) p, append-nil) refl;
        }
  ]

  subscribe-Lost :
      (topic : String) (r : b.Receiver) (size : ℕ) (subs : Subscriptions b) (sent : List Envelope)
      (t : String)
      → Lost topic r size subs sent
      → Lost topic r size (subscribe b subs t).0 (sent ++ [])
  subscribe-Lost topic r size subs sent t h = elim (String_discrete topic t) [
    | yes p ↦
        let next = subscribe-Holds b laws topic r size subs sent t h.holds in
        let same : next.sender ≡ (b.subscribe h.holds.sender).0 = some_inj (
          sym next.registered
          ∙ get-subscribe b subs t topic
          ∙ if_pos (String_discrete topic t) p _ _
          ∙ subst
              (λ k.
                some
                  (b.subscribe
                    (sender_or_new b subs.capacity (HashMap.get String_discrete k subs.senders))).0
                ≡ some (b.subscribe h.holds.sender).0)
              p (rw h.holds.registered (unfold sender_or_new in refl))) in
        record {
          holds = next;
          lost =
              ap (λ s. c.missed s r) same
              ∙ c.missed-subscribe h.holds.sender r h.holds.live
              ∙ h.lost
              ∙ rw append-nil refl;
        }
    | no p ↦
        let next = subscribe-Holds b laws topic r size subs sent t h.holds in
        let same : next.sender ≡ h.holds.sender = some_inj (
          sym next.registered
          ∙ get-subscribe b subs t topic
          ∙ if_neg (String_discrete topic t) p _ _
          ∙ h.holds.registered) in
        record { holds = next; lost = ap (λ s. c.missed s r) same ∙ h.lost ∙ rw append-nil refl }
  ]

  run-Lost :
      (topic : String) (r : b.Receiver) (size : ℕ) (subs : Subscriptions b) (sent : List Envelope)
      (cs : List Call)
      → Lost topic r size subs sent
      → Lost topic r size (run b subs cs) (sent ++ sent_on topic cs)
  unfolding run sent_on step
  run-Lost topic r size subs sent [] h = rw append-nil h
  run-Lost topic r size subs sent (subscribes t ∷ cs) h = rw (← append_assoc) (
      run-Lost topic r size (subscribe b subs t).0 (sent ++ []) cs
        (subscribe-Lost topic r size subs sent t h))
  run-Lost topic r size subs sent (publishes e ∷ cs) h =
      rw (← append_assoc)
        (run-Lost topic r size (publish b subs e).0 _ cs (publish-Lost topic r size subs sent e h))

  subscribed-Lost :
      (subs : Subscriptions b) (topic : String)
      → (size : ℕ) × Lost topic (subscribe b subs topic).1 size (subscribe b subs topic).0 []
  unfolding subscribe
  subscribed-Lost subs topic =
      let made = sender_or_new b subs.capacity (HashMap.get String_discrete topic subs.senders) in
      let (size, holds) = subscribed b laws subs topic in
      let same : holds.sender ≡ (b.subscribe made).0 = some_inj (
        sym holds.registered
        ∙ get-subscribe b subs topic topic
        ∙ if_pos (String_discrete topic topic) refl _ _) in
      (
        size,
        record {
          holds = holds;
          lost =
              ap (λ s. c.missed s (b.subscribe made).1) same ∙ c.missed_new made ∙ none_sent size;
        },
      )
    where
      none_sent : (size : ℕ) → 0 ≡ 0 - size
      none_sent size = omega arith

  -- A consumer that subscribes to a topic at any time and then reads until it has to wait, in
  -- enough calls, is told once of how many messages published on that topic since its channel
  -- could not hold, if there were any, and gets the others, the newest ones, in order and each
  -- once; its channel holds at least the registry's capacity.
  pub reading :
      (size : ℕ) (before after : List Call) (topic : String) (n : ℕ)
      → length (sent_on topic after) + 1 < n
      → let (subs, r) = subscribe b (run b (new b size) before) topic in
        (s : b.Sender) × (HashMap.get String_discrete topic (run b subs after).senders ≡ some s)
        × (polls c n s r
            ≡ report (length (sent_on topic after) - laws.capacity s)
              ++ map got (keep_last (laws.capacity s) (sent_on topic after)))
        × (size ≤ laws.capacity s)
  reading size before after topic n enough =
      let subs = run b (new b size) before in
      let start = subscribed-Lost subs topic in
      let r = (subscribe b subs topic).1 in
      let done = run-Lost topic r start.0 (subscribe b subs topic).0 [] after start.1 in
      let h = done.holds in
      let sent = sent_on topic after in
      let (sender, registered, reads, wide) = delivery b laws size before after topic in
      let fits : length (laws.waiting h.sender r) + 1 < n =
        omega (arith, ap length h.reads, length-keep_last start.0 sent, enough) in
      (
        h.sender,
        h.registered,
        polls_lem c n h.sender r fits h.live ∙ rw (done.lost, h.reads, h.sized) refl,
        subst (λ x. size ≤ laws.capacity x) (some_inj (sym registered ∙ h.registered)) wide,
      )
