-- ===== src/Subscriptions/Calls.antt =====
-- Sequences of calls of the registry (src/subscriptions.rs), and what a call does to the senders.
use p2p_service.Prelude.{
  ◌≡◌, ◌≢◌, refl, ◌∙◌, some, String, List, [], ◌∷◌, ◌++◌, ite, if_pos, if_neg, Option-cases, inl,
  inr, String_discrete,
}
use p2p_service.HashMap
use p2p_service.HashMap.Laws.{get-insert}
use p2p_service.Subscriptions.{Subscriptions, sender_or_new, subscribe, publish}
use p2p_service.Subscriptions.Channel.{Envelope, Broadcast}

pub data Call : Type 0 where
  subscribes : String → Call
  publishes : Envelope → Call

-- The messages that a call puts on the topic.
abbrev pub on_topic : String → Call → List Envelope
on_topic topic (subscribes t) = []
on_topic topic (publishes e) = ite (String_discrete topic e.topic) (e ∷ []) []

unfoldable pub sent_on : String → List Call → List Envelope
sent_on topic [] = []
sent_on topic (c ∷ cs) = on_topic topic c ++ sent_on topic cs

module _ (b : Broadcast) where
  unfoldable pub step : Subscriptions b → Call → Subscriptions b
  step subs (subscribes t) = (subscribe b subs t).0
  step subs (publishes e) = (publish b subs e).0

  unfoldable pub run : Subscriptions b → List Call → Subscriptions b
  run subs [] = subs
  run subs (c ∷ cs) = run (step subs c) cs

  pub run-append :
      (subs : Subscriptions b) (xs ys : List Call) → run subs (xs ++ ys) ≡ run (run subs xs) ys
  unfolding run
  run-append subs [] ys = refl
  run-append subs (x ∷ xs) ys = run-append (step subs x) xs ys

  pub get-subscribe :
      (subs : Subscriptions b) (t topic : String)
      → HashMap.get String_discrete topic (subscribe b subs t).0.senders
        ≡ ite
            (String_discrete topic t)
            (some
              (b.subscribe
                (sender_or_new b subs.capacity (HashMap.get String_discrete t subs.senders))).0)
            (HashMap.get String_discrete topic subs.senders)
  unfolding subscribe
  get-subscribe subs t topic = get-insert String_discrete t topic _ subs.senders

  pub get-publish_self :
      (subs : Subscriptions b) (e : Envelope) (s : b.Sender)
      → HashMap.get String_discrete e.topic subs.senders ≡ some s
      → HashMap.get String_discrete e.topic (publish b subs e).0.senders ≡ some (b.send s e).0
  unfolding publish
  get-publish_self subs e s h =
      rw (h, publish)
        (get-insert String_discrete e.topic e.topic (b.send s e).0 subs.senders
          ∙ if_pos (String_discrete e.topic e.topic) refl _ _)

  pub get-publish_ne :
      (subs : Subscriptions b) (e : Envelope) (topic : String)
      → topic ≢ e.topic
      → HashMap.get String_discrete topic (publish b subs e).0.senders
        ≡ HashMap.get String_discrete topic subs.senders
  unfolding publish
  get-publish_ne subs e topic h =
      elim (Option-cases (HashMap.get String_discrete e.topic subs.senders)) [
        | inl absent ↦ rw (absent, publish)
        | inr (s, found) ↦
            rw (found, publish)
              (get-insert String_discrete e.topic topic (b.send s e).0 subs.senders
                ∙ if_neg (String_discrete topic e.topic) h _ _)
      ]
