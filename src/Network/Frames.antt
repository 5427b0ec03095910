-- ===== src/Network/Frames.antt =====
-- What the parts of the handlers of events leave alone.
pub mod Commands
pub mod Events
use mathlib.Core.Path.{ap₂}
use p2p_service.Prelude.{
  ℕ, ◌≡◌, refl, ap, ◌∙◌, String, Option, none, some, List, [], ◌∷◌, ◌++◌, ◌-◌, ◌%◌, ◌^◌, map,
  length, arith,
}
use p2p_service.HashMap
use p2p_service.HashSet.{contains, from_list}
use p2p_service.Deps.{Deps}
use p2p_service.Metrics.Gauge.{inc}
use p2p_service.Subnet.{on_connection}
use p2p_service.Network.{
  EventLoop, Endpoint, Response, counts, SwarmEvent, message, identify_received,
  connection_established, connection_closed, outgoing_connection_error, logged, error, dial_failed,
  Command, dial, set_preferred_peers,
}
use p2p_service.Network.Commands.{
  drop_one, drop_protection, add_protection, on_set_preferred_peers, clear_preferred, on_dial,
  start_dial, handle_command, reply, accepted_peers, protected_cap,
}
use p2p_service.Network.Events.{
  Clock, addrs_or_default, enforce_connection_limits, on_message, on_identify_received,
  on_connection_established, on_dialed, count_connected, resolve_dials, track_address, grant_score,
  handle_event, on_connection_closed, on_outgoing_connection_error,
}

module _ (d : Deps) where
  -- The two states agree on who is protected, and on the settings.
  pub record SameRoles (s s' : EventLoop d) : Type 0 where
    pub protected : s'.protected ≡ s.protected
    pub bootstrap_peers : s'.bootstrap_peers ≡ s.bootstrap_peers
    pub dial_hints : s'.dial_hints ≡ s.dial_hints
    pub settings : s'.settings ≡ s.settings

  -- The two states agree on the connections.
  pub record SameConnections (s s' : EventLoop d) : Type 0 where
    pub connected : s'.connected ≡ s.connected
    pub subnet_limits : s'.subnet_limits ≡ s.subnet_limits
    pub gauge : s'.metrics.connected_peers ≡ s.metrics.connected_peers

  -- What an established connection does, apart from the swarm and what `on_dialed` does to the
  -- peerstore and the table of dials.
  pub record Established (s s' : EventLoop d) (p : d.PeerId) (addr : d.Multiaddr) : Type 0 where
    pub roles : SameRoles s s'
    pub connected :
        s'.connected
        ≡ HashMap.insert d.peer_eq p
            (addrs_or_default (HashMap.get d.peer_eq p s.connected) ++ addr ∷ [])
            s.connected
    pub subnet_limits :
        s'.subnet_limits
        ≡ (on_connection d.net s.subnet_limits addr (contains d.peer_eq p s.protected)).0
    pub gauge : s'.metrics.connected_peers ≡ inc s.metrics.connected_peers

  -- The two states agree on the dials in flight.
  abbrev pub SameDials : EventLoop d → EventLoop d → Type 0
  SameDials s s' = s'.pending_dials ≡ s.pending_dials

  module _ (clock : Clock) (s : EventLoop d) where
    pub on_message-roles :
        (source : Option d.PeerId) (topic : String) (payload : List ℕ)
        → SameRoles s (on_message d clock s source topic payload)
    unfolding on_message
    on_message-roles none topic payload = ground arith
    on_message-roles (some q) topic payload = ground arith

    pub on_message-connections :
        (source : Option d.PeerId) (topic : String) (payload : List ℕ)
        → SameConnections s (on_message d clock s source topic payload)
    unfolding on_message
    on_message-connections none topic payload = ground arith
    on_message-connections (some q) topic payload = ground arith

    pub on_message-dials :
        (source : Option d.PeerId) (topic : String) (payload : List ℕ)
        → SameDials s (on_message d clock s source topic payload)
    unfolding on_message
    on_message-dials none topic payload = refl
    on_message-dials (some q) topic payload = refl

  module _ (clock : Clock) (s : EventLoop d) (p : d.PeerId) where
    pub resolve_dials-roles : (r : Response d) → SameRoles s (resolve_dials d s p r).0
    unfolding resolve_dials
    resolve_dials-roles r = ground arith

    pub resolve_dials-connections : (r : Response d) → SameConnections s (resolve_dials d s p r).0
    unfolding resolve_dials
    resolve_dials-connections r = ground arith

    pub on_identify_received-roles :
        (addrs : List d.Multiaddr) → SameRoles s (on_identify_received d clock s p addrs)
    unfolding on_identify_received
    on_identify_received-roles addrs = ground arith

    pub on_identify_received-connections :
        (addrs : List d.Multiaddr) → SameConnections s (on_identify_received d clock s p addrs)
    unfolding on_identify_received
    on_identify_received-connections addrs = ground arith

    pub on_identify_received-dials :
        (addrs : List d.Multiaddr) → SameDials s (on_identify_received d clock s p addrs)
    unfolding on_identify_received
    on_identify_received-dials addrs = ground arith
