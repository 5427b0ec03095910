-- ===== src/Network.antt =====
-- src/p2p/network.rs: the state of the event loop, the events and commands that it handles, and the
-- answers that it sends.
pub mod Events
pub mod Commands
pub mod Loop
pub mod Errors
pub mod Frames
pub mod Dials
pub mod Connections
pub mod Protection
pub mod Build
pub mod Fanout
pub mod Origins
pub mod Client
pub mod Sample
mod Examples
use p2p_service.Prelude.{ℕ, Bool, String, List, [], Option, none, some}
use p2p_service.HashMap.{HashMap}
use p2p_service.HashSet.{HashSet}
use p2p_service.Deps.{Deps, DialError, PublishError}
use p2p_service.Metrics.{Metrics}
use p2p_service.Subnet.{SubnetLimits}
use p2p_service.Subnet
use p2p_service.Peerstore.{PeerStore}
use p2p_service.Subscriptions.{Subscriptions}

pub record NetworkSettings (d : Deps) : Type 0 where
  pub low_water : ℕ
  pub high_water : ℕ
  pub per_subnet_cap : ℕ
  pub max_protected_share : d.F32

pub record NodeInfo (d : Deps) : Type 0 where
  pub peer_id : d.PeerId
  pub listen_multiaddrs : List d.Multiaddr
  pub external_multiaddrs : List d.Multiaddr

pub record NetworkSnapshot (d : Deps) : Type 0 where
  pub connected : HashSet d.PeerId
  pub preferred : List (d.PeerId × List d.Multiaddr)

pub record PeerSnapshot (d : Deps) : Type 0 where
  pub peer_id : d.PeerId
  pub multiaddrs : List d.Multiaddr
  pub preferred : Bool
  pub score : d.Score

-- `Box<dyn Error + Send>`: the errors that callers can tell apart by downcasting.
pub data BoxError : Type 0 where
  dial_failed : DialError → BoxError
  dial_error : DialError → BoxError
  publish_error : PublishError → BoxError
  other_error : String → BoxError
  channel_closed : BoxError

-- What goes back on the one-shot channel of a command.
pub data Response (d : Deps) : Type 0 where
  done : Response d
  error : BoxError → Response d
  node_info : NodeInfo d → Response d
  snapshot : NetworkSnapshot d → Response d
  counts : (accepted truncated : ℕ) → Response d
  peer_list : List (PeerSnapshot d) → Response d

-- A one-shot sender, by its number, and what was sent on it.
pub record Sent (d : Deps) : Type 0 where
  pub sender : ℕ
  pub response : Response d

-- A command with the number of its one-shot sender.
pub data Command (d : Deps) : Type 0 where
  start_listening : d.Multiaddr → ℕ → Command d
  dial : d.PeerId → List d.Multiaddr → ℕ → Command d
  identify : ℕ → Command d
  subscribe : String → ℕ → Command d
  publish_message : String → List ℕ → ℕ → Command d
  network_snapshot : ℕ → Command d
  set_preferred_peers : List (d.PeerId × List d.Multiaddr) → ℕ → Command d
  get_peers : ℕ → Command d

-- `ConnectedPoint`: whether this node dialed, and the remote address.
pub record Endpoint (d : Deps) : Type 0 where
  pub is_dialer : Bool
  pub remote_address : d.Multiaddr

-- The swarm events that the loop looks into; all others are only logged.
pub data SwarmEvent (d : Deps) : Type 0 where
  message : Option d.PeerId → String → List ℕ → SwarmEvent d
  identify_received : d.PeerId → List d.Multiaddr → SwarmEvent d
  connection_established : d.PeerId → d.ConnectionId → Endpoint d → SwarmEvent d
  connection_closed : d.PeerId → Endpoint d → (num_established : ℕ) → SwarmEvent d
  outgoing_connection_error : Option d.PeerId → DialError → SwarmEvent d
  logged : SwarmEvent d

-- The command channel is the sequence of commands that the handler is given.
pub record EventLoop (d : Deps) : Type 0 where
  pub swarm : d.Swarm
  pub subscriptions : Subscriptions d.broadcast
  pub pending_dials : HashMap d.PeerId (List ℕ)
  pub metrics : Metrics
  pub peerstore : PeerStore
  pub settings : NetworkSettings d
  pub subnet_limits : SubnetLimits
  pub connected : HashMap d.PeerId (List d.Multiaddr)
  pub protected : HashSet d.PeerId
  pub bootstrap_peers : HashSet d.PeerId
  pub dial_hints : HashMap d.PeerId (List d.Multiaddr)

-- `EventLoop::new`
unfoldable pub new :
    (d : Deps) (swarm : d.Swarm) (subscriptions : Subscriptions d.broadcast) (metrics : Metrics)
    (peerstore : PeerStore) (settings : NetworkSettings d) (bootstrap_peers : HashSet d.PeerId)
    → EventLoop d
new d swarm subscriptions metrics peerstore settings bootstrap_peers = record {
  swarm = swarm;
  subscriptions = subscriptions;
  pending_dials = [];
  metrics = metrics;
  peerstore = peerstore;
  settings = settings;
  subnet_limits = Subnet.new settings.per_subnet_cap;
  connected = [];
  protected = bootstrap_peers;
  bootstrap_peers = bootstrap_peers;
  dial_hints = [];
}
