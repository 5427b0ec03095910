-- ===== src/Network/Fanout.antt =====
-- What the event loop of src/p2p/network.rs hands to the subscription registry: each gossipsub message
-- that has a source, and nothing else.
use p2p_service.Prelude.{
  ℕ, ◌≡◌, refl, sym, ap, ◌∙◌, none, some, String, List, [], ◌∷◌, ◌++◌, arith, ite, String_discrete,
  map,
}
use mathlib.Core.List.{map-append}
use p2p_service.HashSet.{from_list}
use p2p_service.Deps.{Deps}
use p2p_service.Subscriptions.Channel.{Envelope}
use p2p_service.Subscriptions.Calls
use p2p_service.Subscriptions.Calls.{Call, publishes, sent_on, on_topic, run-append}
use p2p_service.Network.{
  EventLoop, Endpoint, SwarmEvent, Command, Response, message, identify_received,
  connection_established, outgoing_connection_error, error, dial_failed, dial, set_preferred_peers,
}
use p2p_service.Network.Events.{
  Clock, handle_event, on_message, on_identify_received, on_connection_established, on_dialed,
  count_connected, resolve_dials, track_address, grant_score, enforce_connection_limits,
  on_connection_closed, on_outgoing_connection_error,
}
use p2p_service.Network.Commands.{
  handle_command, on_dial, start_dial, drop_one, drop_protection, add_protection, clear_preferred,
  accepted_peers, on_set_preferred_peers,
}
use p2p_service.Network.Loop.{Input, event, command, step, run}

module _ (d : Deps) where
  -- The message as it is handed over.
  abbrev pub envelope_of : Clock → d.PeerId → String → List ℕ → Envelope
  envelope_of clock source topic payload = record {
    topic = topic;
    source_peer_id = d.show_peer source;
    payload = payload;
    received_at_millis = clock.millis;
  }

  abbrev pub handed_over : Input d → List Envelope
  handed_over (event clock (message (some source) topic payload)) =
      envelope_of clock source topic payload ∷ []
  handed_over _ = []

  unfoldable pub gossip : List (Input d) → List Envelope
  gossip [] = []
  gossip (i ∷ is) = handed_over i ++ gossip is

  abbrev SameRegistry : EventLoop d → EventLoop d → Type 0
  SameRegistry s s' = s'.subscriptions ≡ s.subscriptions

  dialed-SameRegistry :
      (clock : Clock) (s : EventLoop d) (p : d.PeerId) (endpoint : Endpoint d)
      → SameRegistry s (on_dialed d clock s p endpoint).0
  unfolding on_dialed resolve_dials
  dialed-SameRegistry clock s p endpoint = ground arith

  limits-SameRegistry :
      (s : EventLoop d) (p : d.PeerId) (c : d.ConnectionId) (addr : d.Multiaddr)
      → SameRegistry s (enforce_connection_limits d (grant_score d s p) p c addr)
  unfolding enforce_connection_limits grant_score
  limits-SameRegistry s p c addr = ground arith

  established-SameRegistry :
      (clock : Clock) (s : EventLoop d) (p : d.PeerId) (c : d.ConnectionId) (endpoint : Endpoint d)
      → SameRegistry s (on_connection_established d clock s p c endpoint).0
  unfolding on_connection_established track_address count_connected
  established-SameRegistry clock s p c endpoint =
      limits-SameRegistry
        (track_address d (on_dialed d clock (count_connected d s) p endpoint).0 p
          endpoint.remote_address)
        p c endpoint.remote_address
      ∙ dialed-SameRegistry clock (count_connected d s) p endpoint

  identify-SameRegistry :
      (clock : Clock) (s : EventLoop d) (p : d.PeerId) (addrs : List d.Multiaddr)
      → SameRegistry s (on_identify_received d clock s p addrs)
  unfolding on_identify_received
  identify-SameRegistry clock s p addrs = ground arith

  resolve-SameRegistry :
      (s : EventLoop d) (p : d.PeerId) (r : Response d) → SameRegistry s (resolve_dials d s p r).0
  unfolding resolve_dials
  resolve-SameRegistry s p r = ground arith

  drop-SameRegistry :
      (new_set old : List d.PeerId) (s : EventLoop d)
      → SameRegistry s (drop_protection d new_set old s)
  unfolding drop_protection drop_one
  drop-SameRegistry new_set [] s = refl
  drop-SameRegistry new_set (p ∷ old) s =
      drop-SameRegistry new_set old (drop_one d new_set p s) ∙ ground arith

  add-SameRegistry :
      (accepted : List (d.PeerId × List d.Multiaddr)) (s : EventLoop d)
      → SameRegistry s (add_protection d accepted s)
  unfolding add_protection
  add-SameRegistry [] s = refl
  add-SameRegistry ((p, addrs) ∷ rest) s = add-SameRegistry rest _

  preferred-SameRegistry :
      (s : EventLoop d) (peers : List (d.PeerId × List d.Multiaddr)) (n : ℕ)
      → SameRegistry s (on_set_preferred_peers d s peers n).0
  unfolding on_set_preferred_peers clear_preferred
  preferred-SameRegistry s peers n =
      add-SameRegistry (accepted_peers d s peers) _
      ∙ drop-SameRegistry (from_list d.peer_eq (map (λ e. e.0) (accepted_peers d s peers)))
          s.protected s

  dial-SameRegistry :
      (s : EventLoop d) (p : d.PeerId) (addrs : List d.Multiaddr) (n : ℕ)
      → SameRegistry s (on_dial d s p addrs n).0
  unfolding on_dial start_dial
  dial-SameRegistry s p addrs n = ground arith

  -- The registry after a step: the message of the step was published on it.
  abbrev pub PublishesOn : EventLoop d → EventLoop d → List Envelope → Type 0
  PublishesOn s s' es = s'.subscriptions ≡ Calls.run d.broadcast s.subscriptions (map publishes es)

  event-PublishesOn :
      (clock : Clock) (s : EventLoop d) (e : SwarmEvent d)
      → PublishesOn s (handle_event d clock s e).0 (handed_over (event clock e))
  unfolding handle_event on_message on_connection_closed on_outgoing_connection_error Calls.run
      Calls.step
  event-PublishesOn clock s (message (some source) topic payload) = refl
  event-PublishesOn clock s (message none topic payload) = refl
  event-PublishesOn clock s (identify_received p addrs) = identify-SameRegistry clock s p addrs
  event-PublishesOn clock s (connection_established p c endpoint) =
      established-SameRegistry clock s p c endpoint
  event-PublishesOn clock s (outgoing_connection_error (some p) e) =
      resolve-SameRegistry s p (error (dial_failed e))
  event-PublishesOn clock s (outgoing_connection_error none e) = refl
  event-PublishesOn clock s _ = refl

  command-SameRegistry : (s : EventLoop d) (c : Command d) → SameRegistry s (handle_command d s c).0
  unfolding handle_command
  command-SameRegistry s (dial p addrs n) = dial-SameRegistry s p addrs n
  command-SameRegistry s (set_preferred_peers peers n) = preferred-SameRegistry s peers n
  command-SameRegistry s _ = refl

  step-PublishesOn : (s : EventLoop d) (i : Input d) → PublishesOn s (step d s i).0 (handed_over i)
  unfolding step Calls.run
  step-PublishesOn s (event clock e) = event-PublishesOn clock s e
  step-PublishesOn s (command c) = command-SameRegistry s c

  -- The registry after any sequence of events and commands.
  pub run-PublishesOn :
      (s : EventLoop d) (is : List (Input d)) → PublishesOn s (run d s is).0 (gossip is)
  unfolding run gossip Calls.run
  run-PublishesOn s [] = refl
  run-PublishesOn s (i ∷ is) =
      run-PublishesOn (step d s i).0 is
      ∙ ap (λ subs. Calls.run d.broadcast subs (map publishes (gossip is))) (step-PublishesOn s i)
      ∙ sym (
          run-append d.broadcast s.subscriptions (map publishes (handed_over i))
            (map publishes (gossip is)))
      ∙ ap (Calls.run d.broadcast s.subscriptions)
          (sym (map-append publishes (handed_over i) (gossip is)))

-- The messages of one topic.
unfoldable pub of_topic : String → List Envelope → List Envelope
of_topic topic [] = []
of_topic topic (e ∷ es) =
    ite (String_discrete topic e.topic) (e ∷ of_topic topic es) (of_topic topic es)

pub sent_on-publishes :
    (topic : String) (es : List Envelope) → sent_on topic (map publishes es) ≡ of_topic topic es
unfolding sent_on of_topic
sent_on-publishes topic [] = refl
sent_on-publishes topic (e ∷ es) = ground (arith, sent_on-publishes topic es)
