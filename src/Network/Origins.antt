-- ===== src/Network/Origins.antt =====
-- Where the addresses that the event loop of src/p2p/network.rs keeps come from: the peerstore and
-- the dial hints.
pub mod Runs
use p2p_service.Prelude.{
  ℕ, ◌≡◌, refl, ◌∙◌, Bool, true, false, none, some, String, Option, List, [], ◌∷◌, map, Each, arith,
  Each-take, Bool-cases, Option-cases, inl, inr,
}
use p2p_service.HashMap
use p2p_service.HashMap.Entries.{insert-Each}
use p2p_service.HashSet
use p2p_service.HashSet.{contains}
use p2p_service.Deps.{
  Deps, DialError, Outcome, ok, failed, dial_peer_condition_false, wrong_peer_id, other_dial_error,
}
use p2p_service.Peerstore.{record_peer}
use p2p_service.Peerstore.Origins.{HasOrigins, Reads, record_peer-Origins}
use p2p_service.Network.{
  EventLoop, Endpoint, Response, done, SwarmEvent, message, identify_received,
  connection_established, connection_closed, outgoing_connection_error, logged, Command,
  start_listening, dial, identify, subscribe, publish_message, network_snapshot,
  set_preferred_peers, get_peers,
}
use p2p_service.Network.Commands.{
  drop_one, drop_protection, add_protection, on_set_preferred_peers, clear_preferred, on_dial,
  start_dial, handle_command, accepted_peers,
}
use p2p_service.Network.Events.{
  Clock, has_tcp, tcp_only, on_message, on_identify_received, on_dialed, on_connection_established,
  on_connection_closed, on_outgoing_connection_error, resolve_dials, count_connected, track_address,
  grant_score, enforce_connection_limits, handle_event,
}
use p2p_service.Network.Frames.Events.{handle_event-roles}
use p2p_service.Network.Frames.Commands.{on_dial-roles}
use p2p_service.Network.Loop.{Input, event, command, step, run}

module _ (d : Deps) (K : d.PeerId → d.Multiaddr → Type 0) where
  -- The relation has the addresses that the input brings in: those with TCP that a peer announces,
  -- the one where a peer was reached by a dial, and those of preferred peers.
  abbrev pub BringsKnown : Input d → Type 0
  BringsKnown (event clock (identify_received p addrs)) =
      Each (λ addr. has_tcp (d.iter addr) ≡ true → K p addr) addrs
  BringsKnown (event clock (connection_established p c endpoint)) =
      endpoint.is_dialer ≡ true → K p endpoint.remote_address
  BringsKnown (command (set_preferred_peers peers n)) = Each (λ e. Each (K e.0) e.1) peers
  BringsKnown _ = Unit

  -- The relation has every address of the peerstore and of the dial hints.
  pub record KeepsKnown (s : EventLoop d) : Type 0 where
    pub stored : HasOrigins d.net K s.peerstore
    pub hinted : Each (λ e. Each (K e.0) e.1) s.dial_hints

  tcp_only-Each :
      (p : d.PeerId) (addrs : List d.Multiaddr)
      → Each (λ addr. has_tcp (d.iter addr) ≡ true → K p addr) addrs
      → Each (K p) (tcp_only d addrs)
  unfolding tcp_only Each
  tcp_only-Each p [] h = tt
  tcp_only-Each p (a ∷ rest) h = elim (Bool-cases (has_tcp (d.iter a))) [
    | inl tcp ↦ rw (tcp, tcp_only) (h.0 tcp, tcp_only-Each p rest h.1)
    | inr none_such ↦ rw (none_such, tcp_only) (tcp_only-Each p rest h.1)
  ]

  -- Two states with the same peerstore.
  abbrev pub SameStore : EventLoop d → EventLoop d → Type 0
  SameStore s s' = s'.peerstore ≡ s.peerstore

  resolve_dials-store :
      (s : EventLoop d) (p : d.PeerId) (r : Response d) → SameStore s (resolve_dials d s p r).0
  unfolding resolve_dials
  resolve_dials-store s p r = elim (Option-cases (HashMap.get d.peer_eq p s.pending_dials)) [
    | inl e ↦ rw (e, resolve_dials) refl
    | inr (senders, e) ↦ rw (e, resolve_dials) refl
  ]

  enforce-store :
      (s : EventLoop d) (p : d.PeerId) (c : d.ConnectionId) (addr : d.Multiaddr)
      → SameStore s (enforce_connection_limits d s p c addr)
  unfolding enforce_connection_limits
  enforce-store s p c addr = ground arith

  grant_score-store : (s : EventLoop d) (p : d.PeerId) → SameStore s (grant_score d s p)
  unfolding grant_score
  grant_score-store s p = ground arith

  on_message-store :
      (clock : Clock) (s : EventLoop d) (source : Option d.PeerId) (topic : String)
      (payload : List ℕ)
      → SameStore s (on_message d clock s source topic payload)
  unfolding on_message
  on_message-store clock s none topic payload = refl
  on_message-store clock s (some p) topic payload = refl

  established-store :
      (clock : Clock) (s : EventLoop d) (p : d.PeerId) (c : d.ConnectionId) (endpoint : Endpoint d)
      → SameStore
          (on_dialed d clock (count_connected d s) p endpoint).0
          (on_connection_established d clock s p c endpoint).0
  unfolding on_connection_established track_address
  established-store clock s p c endpoint =
      enforce-store _ p c endpoint.remote_address ∙ grant_score-store _ p

  module _ (reads : Reads d.net) where
    on_identify_received-Origins :
        (clock : Clock) (s : EventLoop d) (p : d.PeerId) (addrs : List d.Multiaddr)
        → BringsKnown (event clock (identify_received p addrs))
        → HasOrigins d.net K s.peerstore
        → HasOrigins d.net K (on_identify_received d clock s p addrs).peerstore
    unfolding on_identify_received
    on_identify_received-Origins clock s p addrs k h =
        recorded (tcp_only d addrs) (tcp_only-Each p addrs k)
      where
        recorded :
            (kept : List d.Multiaddr)
            → Each (K p) kept
            → HasOrigins d.net K
                (elim kept as (λ x. EventLoop d) [
                  | [] ↦ s
                  | a ∷ rest ↦ record s {
                    peerstore = record_peer d.net s.peerstore p (a ∷ rest) clock.unix;
                  }
                ]).peerstore
        recorded [] k = h
        recorded (a ∷ rest) k =
            record_peer-Origins d.net K s.peerstore p (a ∷ rest) clock.unix reads k h

    on_dialed-Origins :
        (clock : Clock) (s : EventLoop d) (p : d.PeerId) (endpoint : Endpoint d)
        → (endpoint.is_dialer ≡ true → K p endpoint.remote_address)
        → HasOrigins d.net K s.peerstore
        → HasOrigins d.net K (on_dialed d clock s p endpoint).0.peerstore
    unfolding on_dialed Each
    on_dialed-Origins clock s p endpoint k h = elim (Bool-cases endpoint.is_dialer) [
      | inl dialer ↦
          rw (dialer, on_dialed, resolve_dials-store _ p done)
            (record_peer-Origins d.net K s.peerstore p (endpoint.remote_address ∷ []) clock.unix
              reads (k dialer, tt) h)
      | inr inbound ↦ rw (inbound, on_dialed) h
    ]

    pub event-Origins :
        (clock : Clock) (s : EventLoop d) (e : SwarmEvent d)
        → BringsKnown (event clock e)
        → HasOrigins d.net K s.peerstore
        → HasOrigins d.net K (handle_event d clock s e).0.peerstore
    unfolding handle_event on_connection_closed on_outgoing_connection_error count_connected
    event-Origins clock s (message source topic payload) k h =
        rw (on_message-store clock s source topic payload) h
    event-Origins clock s (identify_received p addrs) k h =
        on_identify_received-Origins clock s p addrs k h
    event-Origins clock s (connection_established p c endpoint) k h =
        rw (established-store clock s p c endpoint)
          (on_dialed-Origins clock (count_connected d s) p endpoint k h)
    event-Origins clock s (connection_closed p endpoint n) k h = h
    event-Origins clock s (outgoing_connection_error none e) k h = h
    event-Origins clock s (outgoing_connection_error (some p) e) k h =
        rw (resolve_dials-store s p _) h
    event-Origins clock s logged k h = h
