-- ===== src/Network/Connections.antt =====
-- The tables of the event loop against the connections that are open.
pub mod Counts
pub mod Orders
pub mod Cap
use mathlib.Core.List.{map-append}
use mathlib.Core.Path.{subst}
use p2p_service.Prelude.{
  ℕ, zero, suc, ◌+◌, ◌≤◌, ◌≡◌, refl, sym, ap, ◌∙◌, Bool, true, false, not, ◌&&◌, Option, none, some,
  List, [], ◌∷◌, ◌++◌, map, ite, if_pos, if_neg, length, length-append, ltb, ◌==◌, arith,
  if◌then◌else◌, Option-cases, Bool-cases, inl, inr,
}
use p2p_service.HashMap
use p2p_service.HashMap.{contains_key}
use p2p_service.HashMap.Laws.{get-insert, get-remove}
use p2p_service.HashSet.{HashSet, contains}
use p2p_service.Deps.{Deps}
use p2p_service.Metrics
use p2p_service.Metrics.{Metrics}
use p2p_service.Metrics.Gauge.{pos, inc, dec}
use p2p_service.Peerstore.{PeerStore}
use p2p_service.Subscriptions.{Subscriptions}
use p2p_service.Subnet
use p2p_service.Subnet.{Octets, on_connection, on_disconnection}
use p2p_service.Subnet.Counts.{Conn, Reach}
use p2p_service.Subnet.Cap.{admitted_in, admitted_in-le-limit}
use p2p_service.Network.{
  EventLoop, NetworkSettings, new, SwarmEvent, Command, Endpoint, message, identify_received,
  connection_established, connection_closed, outgoing_connection_error, logged, start_listening,
  dial, identify, subscribe, publish_message, network_snapshot, set_preferred_peers, get_peers,
  error, dial_failed,
}
use p2p_service.Network.Events.{
  Clock, handle_event, on_connection_established, on_connection_closed, forget_address,
  addrs_or_default, resolve_dials, on_outgoing_connection_error,
}
use p2p_service.Network.Commands.{handle_command, on_dial, start_dial, on_set_preferred_peers}
use p2p_service.Network.Frames.{
  SameConnections, on_message-connections, on_identify_received-connections,
  resolve_dials-connections,
}
use p2p_service.Network.Frames.Events.{established_lem}
use p2p_service.Network.Frames.Commands.{on_set_preferred_peers-frame}

-- An event that neither opens nor closes a connection.
abbrev pub IsQuiet : {d : Deps} → SwarmEvent d → Type 0
IsQuiet (connection_established p c endpoint) = ⊥
IsQuiet (connection_closed p endpoint k) = ⊥
IsQuiet _ = Unit

-- An open connection, the peer at its other end, and the swarm before and after the event that
-- opened it was handled.
pub record Link (d : Deps) : Type 0 where
  pub peer : d.PeerId
  pub conn : Conn d.net
  pub id : d.ConnectionId
  pub before : d.Swarm
  pub after : d.Swarm

module _ (d : Deps) where
  -- The number of open connections of a peer.
  unfoldable pub links_of : d.PeerId → List (Link d) → ℕ
  links_of p [] = 0
  links_of p (l ∷ ls) = ite (d.peer_eq p l.peer) 1 0 + links_of p ls

  abbrev pub opened : Clock → EventLoop d → d.PeerId → d.ConnectionId → Endpoint d → Link d
  opened clock s p c endpoint =
      let exempt = contains d.peer_eq p s.protected in
      record {
        peer = p;
        id = c;
        before = s.swarm;
        after = (handle_event d clock s (connection_established p c endpoint)).0.swarm;
        conn = record {
          addr = endpoint.remote_address;
          exempt = exempt;
          verdict = (on_connection d.net s.subnet_limits endpoint.remote_address exempt).1;
        };
      }

  -- The states and the open connections that the loop reaches from `s₀`, where only open connections
  -- close, and the swarm reports how many the peer has left.
  pub data History (s₀ : EventLoop d) : EventLoop d → List (Link d) → Type 0 where
    begins : History s₀ s₀ []
    opens :
        {s : EventLoop d} {ls : List (Link d)} (clock : Clock) (p : d.PeerId) (c : d.ConnectionId)
        (endpoint : Endpoint d)
        → History s₀ s ls
        → History s₀
            (handle_event d clock s (connection_established p c endpoint)).0
            (opened clock s p c endpoint ∷ ls)
    closes :
        {s : EventLoop d} {ls : List (Link d)} (clock : Clock) (xs : List (Link d)) (l : Link d)
        (ys : List (Link d)) (is_dialer : Bool)
        → ls ≡ xs ++ l ∷ ys
        → History s₀ s ls
        → History s₀
            (handle_event d clock s (
              connection_closed l.peer
                (record { is_dialer = is_dialer; remote_address = l.conn.addr })
                (links_of l.peer (xs ++ ys)))).0
            (xs ++ ys)
    handles :
        {s : EventLoop d} {ls : List (Link d)} (clock : Clock) (e : SwarmEvent d)
        → IsQuiet e
        → History s₀ s ls
        → History s₀ (handle_event d clock s e).0 ls
    obeys :
        {s : EventLoop d} {ls : List (Link d)} (c : Command d)
        → History s₀ s ls
        → History s₀ (handle_command d s c).0 ls

  pub quiet-connections :
      (clock : Clock) (s : EventLoop d) (e : SwarmEvent d)
      → IsQuiet e
      → SameConnections d s (handle_event d clock s e).0
  unfolding handle_event on_outgoing_connection_error
  quiet-connections clock s (message source topic payload) q =
      on_message-connections d clock s source topic payload
  quiet-connections clock s (identify_received p addrs) q =
      on_identify_received-connections d clock s p addrs
  quiet-connections clock s (connection_established p c endpoint) q = absurd q
  quiet-connections clock s (connection_closed p endpoint k) q = absurd q
  quiet-connections clock s (outgoing_connection_error none e) q = ground arith
  quiet-connections clock s (outgoing_connection_error (some p) e) q =
      resolve_dials-connections d clock s p (error (dial_failed e))
  quiet-connections clock s logged q = ground arith

  on_dial-connections :
      (s : EventLoop d) (p : d.PeerId) (addrs : List d.Multiaddr) (n : ℕ)
      → SameConnections d s (on_dial d s p addrs n).0
  unfolding on_dial start_dial
  on_dial-connections s p addrs n = ground arith

  pub command-connections :
      (s : EventLoop d) (c : Command d) → SameConnections d s (handle_command d s c).0
  unfolding handle_command
  command-connections s (dial p addrs n) = on_dial-connections s p addrs n
  command-connections s (set_preferred_peers ps n) =
      (on_set_preferred_peers-frame d s ps n).connections
  command-connections s _ = record { connected = refl; subnet_limits = refl; gauge = refl }

  pub links_of-append :
      (p : d.PeerId) (xs ys : List (Link d)) → links_of p (xs ++ ys) ≡ links_of p xs + links_of p ys
  unfolding links_of
  links_of-append p [] ys = omega arith
  links_of-append p (l ∷ xs) ys = omega (arith, links_of-append p xs ys)

  abbrev pub conns : List (Link d) → List (Conn d.net)
  conns = map (λ l. l.conn)
