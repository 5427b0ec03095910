-- ===== src/Network/Frames/Events.antt =====
-- What an established connection, and any event of the swarm, leaves alone in the state of the
-- event loop (src/p2p/network.rs).
use mathlib.Core.Path.{ap₂}
use p2p_service.Prelude.{ℕ, ◌≡◌, refl, ap, ◌∙◌, none, some, List, [], ◌∷◌, ◌++◌, arith}
use p2p_service.HashMap
use p2p_service.HashSet.{contains}
use p2p_service.Deps.{Deps}
use p2p_service.Subnet.{on_connection}
use p2p_service.Network.{
  EventLoop, Endpoint, SwarmEvent, message, identify_received, connection_established,
  connection_closed, outgoing_connection_error, logged, error, dial_failed,
}
use p2p_service.Network.Events.{
  Clock, addrs_or_default, enforce_connection_limits, on_connection_established, on_dialed,
  count_connected, resolve_dials, track_address, grant_score, handle_event, on_connection_closed,
  on_outgoing_connection_error,
}
use p2p_service.Network.Frames.{
  SameRoles, SameConnections, SameDials, Established, on_message-roles, on_identify_received-roles,
  resolve_dials-roles,
}

module _ (d : Deps) where
  module _ (clock : Clock) (s : EventLoop d) (p : d.PeerId) where
    enforce-roles :
        (c : d.ConnectionId) (addr : d.Multiaddr)
        → SameRoles d s (enforce_connection_limits d s p c addr)
    unfolding enforce_connection_limits
    enforce-roles c addr = ground arith

    enforce-dials :
        (c : d.ConnectionId) (addr : d.Multiaddr)
        → SameDials d s (enforce_connection_limits d s p c addr)
    unfolding enforce_connection_limits
    enforce-dials c addr = ground arith

    pub enforce-connections :
        (c : d.ConnectionId) (addr : d.Multiaddr)
        → let s' = enforce_connection_limits d s p c addr in
          (s'.connected ≡ s.connected)
          × (s'.subnet_limits
              ≡ (on_connection d.net s.subnet_limits addr (contains d.peer_eq p s.protected)).0)
          × (s'.metrics.connected_peers ≡ s.metrics.connected_peers)
    unfolding enforce_connection_limits
    enforce-connections c addr = ground arith

    grant_score-roles : SameRoles d s (grant_score d s p)
    unfolding grant_score
    grant_score-roles = ground arith

    grant_score-connections : SameConnections d s (grant_score d s p)
    unfolding grant_score
    grant_score-connections = ground arith

    grant_score-dials : SameDials d s (grant_score d s p)
    unfolding grant_score
    grant_score-dials = ground arith

    on_dialed-roles : (endpoint : Endpoint d) → SameRoles d s (on_dialed d clock s p endpoint).0
    unfolding on_dialed resolve_dials
    on_dialed-roles endpoint = ground arith

    on_dialed-connections :
        (endpoint : Endpoint d) → SameConnections d s (on_dialed d clock s p endpoint).0
    unfolding on_dialed resolve_dials
    on_dialed-connections endpoint = ground arith

  module _ (clock : Clock) (s : EventLoop d) (p : d.PeerId) (c : d.ConnectionId)
      (endpoint : Endpoint d) where
    abbrev dialed : EventLoop d
    dialed = (on_dialed d clock (count_connected d s) p endpoint).0

    abbrev tracked : EventLoop d
    tracked = track_address d dialed p endpoint.remote_address

    abbrev pub granted : EventLoop d
    granted = grant_score d tracked p

    -- What the limits are enforced on.
    pub granted_lem :
        ((on_connection_established d clock s p c endpoint).0
          ≡ enforce_connection_limits d granted p c endpoint.remote_address)
        × SameRoles d s granted
        × (granted.subnet_limits ≡ s.subnet_limits)
    unfolding on_connection_established track_address count_connected
    granted_lem =
        let r1 = on_dialed-roles clock (count_connected d s) p endpoint in
        let r2 = grant_score-roles clock tracked p in
        let k1 = on_dialed-connections clock (count_connected d s) p endpoint in
        let k2 = grant_score-connections clock tracked p in
        (
          refl,
          record {
            protected = r2.protected ∙ r1.protected;
            bootstrap_peers = r2.bootstrap_peers ∙ r1.bootstrap_peers;
            dial_hints = r2.dial_hints ∙ r1.dial_hints;
            settings = r2.settings ∙ r1.settings;
          },
          k2.subnet_limits ∙ k1.subnet_limits,
        )

    -- The answers of an established connection are those of its dial, and so is the table of dials.
    pub established-dials :
        SameDials d dialed (on_connection_established d clock s p c endpoint).0
        × ((on_connection_established d clock s p c endpoint).1
            ≡ (on_dialed d clock (count_connected d s) p endpoint).1)
    unfolding on_connection_established track_address
    established-dials = (
      enforce-dials clock granted p c endpoint.remote_address ∙ grant_score-dials clock tracked p,
      refl,
    )

    pub established_lem :
        Established d s
          (on_connection_established d clock s p c endpoint).0
          p
          endpoint.remote_address
    unfolding on_connection_established track_address count_connected
    established_lem =
        let r1 = on_dialed-roles clock (count_connected d s) p endpoint in
        let k1 = on_dialed-connections clock (count_connected d s) p endpoint in
        let r2 = grant_score-roles clock tracked p in
        let k2 = grant_score-connections clock tracked p in
        let r3 = enforce-roles clock granted p c endpoint.remote_address in
        let k3 = enforce-connections clock granted p c endpoint.remote_address in
        record {
          roles = record {
            protected = r3.protected ∙ r2.protected ∙ r1.protected;
            bootstrap_peers = r3.bootstrap_peers ∙ r2.bootstrap_peers ∙ r1.bootstrap_peers;
            dial_hints = r3.dial_hints ∙ r2.dial_hints ∙ r1.dial_hints;
            settings = r3.settings ∙ r2.settings ∙ r1.settings;
          };
          connected =
              k3.0
              ∙ k2.connected
              ∙ ap
                  (λ (m : HashMap.HashMap d.PeerId (List d.Multiaddr)).
                    HashMap.insert d.peer_eq p
                      (addrs_or_default (HashMap.get d.peer_eq p m) ++ endpoint.remote_address ∷ [])
                      m)
                  k1.connected;
          subnet_limits =
              k3.1
              ∙ ap₂
                  (λ l q.
                    (on_connection d.net l endpoint.remote_address (contains d.peer_eq p q)).0)
                  (k2.subnet_limits ∙ k1.subnet_limits) (r2.protected ∙ r1.protected);
          gauge = k3.2 ∙ k2.gauge ∙ k1.gauge;
        }

  module _ (s : EventLoop d) where
    on_connection_closed-roles :
        (p : d.PeerId) (endpoint : Endpoint d) (k : ℕ)
        → SameRoles d s (on_connection_closed d s p endpoint k)
    unfolding on_connection_closed
    on_connection_closed-roles p endpoint k = ground arith

    -- No event changes who is protected, nor the settings.
    pub handle_event-roles :
        (clock : Clock) (e : SwarmEvent d) → SameRoles d s (handle_event d clock s e).0
    unfolding handle_event on_outgoing_connection_error
    handle_event-roles clock (message source topic payload) =
        on_message-roles d clock s source topic payload
    handle_event-roles clock (identify_received p addrs) =
        on_identify_received-roles d clock s p addrs
    handle_event-roles clock (connection_established p c endpoint) =
        (established_lem clock s p c endpoint).roles
    handle_event-roles clock (connection_closed p endpoint k) =
        on_connection_closed-roles p endpoint k
    handle_event-roles clock (outgoing_connection_error none e) = ground arith
    handle_event-roles clock (outgoing_connection_error (some p) e) =
        resolve_dials-roles d clock s p (error (dial_failed e))
    handle_event-roles clock logged = ground arith
