-- ===== src/Startup/Boot/Steps.antt =====
-- What each step of startup (src/main.rs) has done when it goes on.
use p2p_service.Prelude.{
  ◌≡◌, refl, sym, ◌∙◌, String, List, [], ◌∷◌, ◌++◌, Option, none, some, arith,
}
use p2p_service.Deps.{Deps, Outcome, ok, failed}
use p2p_service.Network.{EventLoop, subscribe}
use p2p_service.Network.Client.{Result, returned, raised, client_subscribe}
use p2p_service.Network.Loop.{Input, command, step, run}
use p2p_service.Startup.{ConfigError}
use p2p_service.Startup.Boot.{
  Boot, reached, stopped, Failure, ◌>>=◌, required, accepted, running, subscribe_to_topics,
  listened, not_subscribed,
}

-- A chain that goes on has gone on at its first step.
pub bind_reached :
    {A B : Type 0} (m : Boot A) (f : A → Boot B) (b : B)
    → (m >>= f) ≡ reached b
    → (a : A) × (m ≡ reached a) × (f a ≡ reached b)
bind_reached (reached a) f b h = (a, refl, h)
bind_reached (stopped e) f b h = absurd (ground (arith, h))

pub reached_inj : {A : Type 0} (a b : A) → reached a ≡ reached b → a ≡ b
reached_inj a b h = cc h

pub required_reached :
    {A : Type 0} (o : Option A) (e : Failure) (a : A) → required o e ≡ reached a → o ≡ some a
required_reached none e a h = absurd (ground (arith, h))
required_reached (some b) e a h = ground (arith, h)

module _ (d : Deps) where
  pub accepted_reached : (o : Outcome ConfigError) (x : Unit) → accepted d o ≡ reached x → o ≡ ok
  unfolding accepted
  accepted_reached ok x h = refl
  accepted_reached (failed e) x h = absurd (ground (arith, h))

  pub listened_reached :
      (s s' : EventLoop d) (r : Result Unit) → listened d s r ≡ reached s' → s' ≡ s
  unfolding listened
  listened_reached s s' (returned x) h = ground (arith, h)
  listened_reached s s' (raised e) h = absurd (ground (arith, h))

  -- Two runs in a row.
  pub run-append :
      (s : EventLoop d) (xs ys : List (Input d))
      → (run d s (xs ++ ys)).0 ≡ (run d (run d s xs).0 ys).0
  unfolding run
  run-append s [] ys = refl
  run-append s (i ∷ xs) ys = run-append (step d s i).0 xs ys

  -- What the event loop takes while topics are subscribed to.
  unfoldable pub subscription_inputs :
      (before : String → List (Input d)) → List String → List (Input d)
  subscription_inputs before [] = []
  subscription_inputs before (topic ∷ topics) =
      before topic ++ command (subscribe topic 0) ∷ subscription_inputs before topics

  subscribed_reached :
      (topic : String) (r : Result Unit) (next : Boot (EventLoop d)) (s' : EventLoop d)
      → elim r [ raised e ↦ stopped (not_subscribed topic e) | returned x ↦ next ] ≡ reached s'
      → next ≡ reached s'
  subscribed_reached topic (raised e) next s' h = absurd (ground (arith, h))
  subscribed_reached topic (returned x) next s' h = h

  pub subscribe_to_topics_reached :
      (before : String → List (Input d)) (s s' : EventLoop d) (topics : List String)
      → subscribe_to_topics d before s topics ≡ reached s'
      → s' ≡ (run d s (subscription_inputs before topics)).0
  unfolding subscribe_to_topics subscription_inputs run
  subscribe_to_topics_reached before s s' [] h = ground (arith, h)
  subscribe_to_topics_reached before s s' (topic ∷ topics) h =
      let s1 = (run d s (before topic)).0 in
      let next = (step d s1 (command (subscribe topic 0))).0 in
      subscribe_to_topics_reached before next s' topics
        (subscribed_reached topic (client_subscribe d (running d s1) 0 topic) _ s' h)
      ∙ sym (run-append s (before topic) _)
