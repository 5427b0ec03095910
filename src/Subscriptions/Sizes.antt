-- ===== src/Subscriptions/Sizes.antt =====
-- How much the channels of the registry hold.
use p2p_service.Prelude.{
  ℕ, ◌≤◌, ◌≡◌, refl, sym, ◌∙◌, Option, none, some, String, List, [], ◌∷◌, if_pos, if_neg,
  Option-cases, inl, inr, String_discrete, arith, some_inj,
}
use mathlib.Core.Path.{subst}
use p2p_service.HashMap
use p2p_service.Subscriptions.{Subscriptions, sender_or_new, new, subscribe, publish}
use p2p_service.Subscriptions.Channel.{Envelope, Broadcast, BroadcastLaws}
use p2p_service.Subscriptions.Calls.{
  Call, subscribes, publishes, step, run, get-subscribe, get-publish_self, get-publish_ne,
}

module _ (b : Broadcast) (laws : BroadcastLaws b) where
  -- Every channel of the registry holds at least `size` messages.
  pub record IsSized (size : ℕ) (subs : Subscriptions b) : Type 0 where
    pub configured : subs.capacity ≡ size
    pub wide :
        (t : String) (s : b.Sender)
        → HashMap.get String_discrete t subs.senders ≡ some s
        → size ≤ laws.capacity s

  sender_or_new-wide :
      (size : ℕ) (o : Option b.Sender)
      → ((s : b.Sender) → o ≡ some s → size ≤ laws.capacity s)
      → size ≤ laws.capacity (sender_or_new b size o)
  unfolding sender_or_new
  sender_or_new-wide size none h = laws.capacity-channel size
  sender_or_new-wide size (some s) h = h s refl

  pub subscribe-IsSized :
      (size : ℕ) (subs : Subscriptions b) (t : String)
      → IsSized size subs
      → IsSized size (subscribe b subs t).0
  subscribe-IsSized size subs t h = record {
    configured = unfold subscribe in h.configured;
    wide = λ k s found. elim (String_discrete k t) [
      | yes p ↦
          let made = sender_or_new b subs.capacity (HashMap.get String_discrete t subs.senders) in
          let same : (b.subscribe made).0 ≡ s =
            some_inj
              (sym (get-subscribe b subs t k ∙ if_pos (String_discrete k t) p _ _) ∙ found) in
          let room : size ≤ laws.capacity made =
            rw h.configured (sender_or_new-wide size _ (h.wide t)) in
          rw (← same, laws.capacity-subscribe made) room
      | no p ↦
          h.wide k s (sym (get-subscribe b subs t k ∙ if_neg (String_discrete k t) p _ _) ∙ found)
    ];
  }

  capacity-publish :
      (subs : Subscriptions b) (e : Envelope) → (publish b subs e).0.capacity ≡ subs.capacity
  unfolding publish
  capacity-publish subs e = ground arith

  publish-wide :
      (size : ℕ) (subs : Subscriptions b) (e : Envelope) (s : b.Sender)
      → IsSized size subs
      → HashMap.get String_discrete e.topic (publish b subs e).0.senders ≡ some s
      → size ≤ laws.capacity s
  publish-wide size subs e s h found =
      elim (Option-cases (HashMap.get String_discrete e.topic subs.senders)) [
        | inl absent ↦ h.wide e.topic s (unfold publish in rw (absent, publish) at found)
        | inr (t, known) ↦
            let same : (b.send t e).0 ≡ s =
              some_inj (sym (get-publish_self b subs e t known) ∙ found) in
            rw (← same, laws.capacity-send t e) (h.wide e.topic t known)
      ]

  publish-IsSized :
      (size : ℕ) (subs : Subscriptions b) (e : Envelope)
      → IsSized size subs
      → IsSized size (publish b subs e).0
  publish-IsSized size subs e h = record {
    configured = capacity-publish subs e ∙ h.configured;
    wide = λ k s found. elim (String_discrete k e.topic) [
      | yes p ↦
          publish-wide size subs e s h (
            subst (λ t. HashMap.get String_discrete t (publish b subs e).0.senders ≡ some s) p
              found)
      | no p ↦ h.wide k s (sym (get-publish_ne b subs e k p) ∙ found)
    ];
  }

  pub run-IsSized :
      (size : ℕ) (subs : Subscriptions b) (cs : List Call)
      → IsSized size subs
      → IsSized size (run b subs cs)
  unfolding run step
  run-IsSized size subs [] h = h
  run-IsSized size subs (subscribes t ∷ cs) h =
      run-IsSized size (subscribe b subs t).0 cs (subscribe-IsSized size subs t h)
  run-IsSized size subs (publishes e ∷ cs) h =
      run-IsSized size (publish b subs e).0 cs (publish-IsSized size subs e h)

  pub new-IsSized : (size : ℕ) → IsSized size (new b size)
  unfolding new HashMap.get
  new-IsSized size = record { configured = refl; wide = λ t s h. cc }
