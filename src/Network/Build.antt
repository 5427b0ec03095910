-- ===== src/Network/Build.antt =====
-- `make_gossipsub_config` and `new` of src/p2p/network.rs: what libp2p is asked to build. The builder
-- itself is libp2p's; it is an argument, and `none` is its error.
use p2p_service.Prelude.{ℕ, ◌*◌, ◌^◌, Bool, true, String, List, [], ◌∷◌, Option, some, ◌>>=◌}
use Prim.Native.String.{◌++◌ as ◌<>◌}
use p2p_service.HashSet.{HashSet}
use p2p_service.Deps.{Deps}
use p2p_service.Metrics.{Metrics}
use p2p_service.Peerstore.{PeerStore}
use p2p_service.Subscriptions.{Subscriptions}
use p2p_service.Network
use p2p_service.Network.{NetworkSettings, EventLoop}

pub data ValidationMode : Type 0 where
  strict permissive anonymous no_validation : ValidationMode

pub data Muxer : Type 0 where
  yamux mplex : Muxer

-- The settings of `ConfigBuilder` that are not left at their defaults; durations in nanoseconds. A
-- message id is computed from the payload alone.
pub record GossipsubConfig : Type 0 where
  pub heartbeat_interval : ℕ
  pub validation_mode : ValidationMode
  pub message_id_fn : List ℕ → String
  pub max_transmit_size : ℕ
  pub max_messages_per_rpc : Option ℕ
  pub duplicate_cache_time : ℕ
  pub do_px : Bool

abbrev pub identify_protocol_version : String
identify_protocol_version = "/aleph/id/1.0.0"

module _ (d : Deps) where
  unfoldable pub message_id : List ℕ → String
  message_id payload = d.show_u64 (d.hash_bytes payload)

  unfoldable pub make_gossipsub_config : GossipsubConfig
  make_gossipsub_config = record {
    heartbeat_interval = 10 ^ 9;
    validation_mode = strict;
    message_id_fn = message_id;
    max_transmit_size = 262144;
    max_messages_per_rpc = some 100;
    duplicate_cache_time = 1800 * 10 ^ 9;
    do_px = true;
  }

-- `Behaviour` and the rest of what the builder is given.
pub record SwarmConfig (d : Deps) : Type 0 where
  pub identity : d.Keypair
  pub tcp_nodelay : Bool
  pub muxers : List Muxer
  pub signed_by : d.Keypair
  pub gossipsub : GossipsubConfig
  pub app_specific_weight : d.Score
  pub protocol_version : String
  pub agent_version : String
  pub idle_connection_timeout : ℕ

module _ (d : Deps) (cargo_pkg_version : String) where
  unfoldable pub swarm_config : d.Keypair → SwarmConfig d
  swarm_config id_keys = record {
    identity = id_keys;
    tcp_nodelay = true;
    muxers = yamux ∷ mplex ∷ [];
    signed_by = id_keys;
    gossipsub = make_gossipsub_config d;
    app_specific_weight = d.score 1;
    protocol_version = identify_protocol_version;
    agent_version = "aleph-p2p-service/" <> cargo_pkg_version;
    idle_connection_timeout = 300 * 10 ^ 9;
  }

  -- `new`. The client that it returns besides the event loop is the sending end of the command
  -- channel, which has no state of its own.
  unfoldable pub new_network :
      (build : SwarmConfig d → Option d.Swarm) (id_keys : d.Keypair) (settings : NetworkSettings d)
      (bootstrap_peers : HashSet d.PeerId) (metrics : Metrics)
      (subscriptions : Subscriptions d.broadcast) (peerstore : PeerStore)
      → Option (EventLoop d)
  new_network build id_keys settings bootstrap_peers metrics subscriptions peerstore = do
    swarm ← build (swarm_config id_keys)
    some (Network.new d swarm subscriptions metrics peerstore settings bootstrap_peers)
