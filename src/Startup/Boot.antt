-- ===== src/Startup/Boot.antt =====
-- `main` of src/main.rs up to the supervision: the service that runs then, or what stopped startup.
-- The host gives the files, the command line and what the libraries make of them.
pub mod Steps
pub mod Reached
pub mod Limits
mod Examples
use p2p_service.Prelude.{
  ℕ, ◌*◌, ◌^◌, Bool, true, false, String, String_discrete, List, [], ◌∷◌, Option, none, some,
  or_else, is_some,
}
use p2p_service.HashMap
use p2p_service.Net.{tcp}
use p2p_service.Deps.{Deps, Outcome, ok, failed}
use p2p_service.Metrics
use p2p_service.Subscriptions
use p2p_service.Peerstore.{PeerStore}
use p2p_service.Peerstore.File.{Files, load}
use p2p_service.Config.{AppConfig, P2pKeys, SentryConfig, read_app_config}
use p2p_service.Network.{EventLoop, BoxError, start_listening, subscribe}
use p2p_service.Network.Build.{SwarmConfig, new_network}
use p2p_service.Network.Loop.{Input, command, step, run}
use p2p_service.Network.Client.{
  Result, returned, raised, Link, client_start_listening, client_subscribe,
}
use p2p_service.Startup.{
  ConfigError, validate_config, network_settings, bootstrap_peer_ids, dedup_topics,
}

-- What stops startup: a panic or an error that `main` returns.
pub data Failure : Type 0 where
  no_config_file invalid_yaml no_key_file invalid_key no_network invalid_bind_address : Failure
  invalid_config : ConfigError → Failure
  not_listening : BoxError → Failure
  not_subscribed : String → BoxError → Failure
  invalid_grpc_address no_grpc_listener no_http_listener : Failure

pub data Boot (A : Type 0) : Type 0 where
  reached : A → Boot A
  stopped : Failure → Boot A

infixl 5 ◌>>=◌
abbrev pub ◌>>=◌ : {A B : Type 0} → Boot A → (A → Boot B) → Boot B
reached a >>= f = f a
stopped e >>= f = stopped e

-- `unwrap_or_else` with a panic, `expect` and `?`
abbrev pub required : {A : Type 0} → Option A → Failure → Boot A
required none e = stopped e
required (some a) e = reached a

-- A condition that has to hold.
abbrev pub require : Bool → Failure → Boot Unit
require true e = reached tt
require false e = stopped e

-- `CliArgs`
pub record CliArgs : Type 0 where
  pub config : String
  pub private_key_file : String

-- `CliArgs::parse` on the values of the two options.
unfoldable pub parse_args : Option String → Option String → CliArgs
parse_args config private_key_file = record {
  config = or_else "config.yml" config;
  private_key_file = or_else "node-secret.pkcs8.der" private_key_file;
}

-- What startup finds: the files, and the libraries that read them and bind the sockets.
pub record Host (d : Deps) : Type 0 where
  pub args : CliArgs
  pub files : Files
  -- `serde_yaml::from_reader`, up to the sections of the document
  pub parse_yaml : String → Option (Option (P2pKeys d) × Option (SentryConfig d))
  pub try_decode_pkcs8 : String → Option d.Keypair
  -- `serde_json` on the peerstore
  pub to_json : PeerStore → Option String
  pub from_json : String → Option PeerStore
  pub cargo_pkg_version : String
  pub build_swarm : SwarmConfig d → Option d.Swarm
  -- whether host and port make a socket address, and whether the two servers can bind
  pub is_socket_addr : (grpc_host : String) (grpc_port : ℕ) → Bool
  pub binds_grpc : (grpc_host : String) (grpc_port : ℕ) → Bool
  pub binds_http : (metrics_port : ℕ) → Bool
  -- what the event loop takes before it takes each of the commands of startup
  pub before_listening : List (Input d)
  pub before_subscribing : String → List (Input d)

-- `MaintenanceSettings`, with the interval in nanoseconds
pub record MaintenanceSettings : Type 0 where
  pub interval : ℕ
  pub low_water : ℕ

-- What runs when the supervision starts.
pub record Service (d : Deps) : Type 0 where
  pub app_config : AppConfig d
  pub peer_id : d.PeerId
  pub event_loop : EventLoop d
  pub maintenance : MaintenanceSettings
  pub peerstore_path : String
  pub has_sentry : Bool

module _ (d : Deps) where
  unfoldable pub read_config : Host d → String → Boot (AppConfig d)
  read_config host config_file = do
    text ← required (HashMap.get String_discrete config_file host.files) no_config_file
    sections ← required (host.parse_yaml text) invalid_yaml
    required (read_app_config d sections.0 sections.1) invalid_yaml

  unfoldable pub load_p2p_private_key : Host d → String → Boot d.Keypair
  load_p2p_private_key host private_key_path = do
    private_key_bytes ←
        required (HashMap.get String_discrete private_key_path host.files) no_key_file
    required (host.try_decode_pkcs8 private_key_bytes) invalid_key

  -- `configure_sentry`: whether the client is initialised.
  unfoldable pub configure_sentry : AppConfig d → Bool
  configure_sentry app_config = is_some app_config.sentry.dsn

  -- A running loop, for a command that it answers at once.
  abbrev pub running : EventLoop d → Link d
  running s = record { event_loop = some s; later = [] }

  unfoldable pub subscribe_to_topics :
      (before : String → List (Input d)) → EventLoop d → List String → Boot (EventLoop d)
  subscribe_to_topics before s [] = reached s
  subscribe_to_topics before s (topic ∷ topics) =
      let s' = (run d s (before topic)).0 in
      elim (client_subscribe d (running s') 0 topic) [
        | raised e ↦ stopped (not_subscribed topic e)
        | returned x ↦ subscribe_to_topics before (step d s' (command (subscribe topic 0))).0 topics
      ]

  unfoldable pub listened : EventLoop d → Result Unit → Boot (EventLoop d)
  listened s (returned x) = reached s
  listened s (raised e) = stopped (not_listening e)

  -- `/ip4/0.0.0.0` with the port, and the command.
  unfoldable pub listen_on_port : Host d → EventLoop d → (port : ℕ) → Boot (EventLoop d)
  unfolding listened
  listen_on_port host s port = do
    any_host ← required (d.read_addr "/ip4/0.0.0.0") invalid_bind_address
    let p2p_bind_multiaddr = d.push any_host (tcp port)
    let s' = (run d s host.before_listening).0
    listened (step d s' (command (start_listening p2p_bind_multiaddr 0))).0
        (client_start_listening d (running s') 0 p2p_bind_multiaddr)

  unfoldable pub accepted : Outcome ConfigError → Boot Unit
  accepted ok = reached tt
  accepted (failed e) = stopped (invalid_config e)

  -- The service as it is handed over to the supervision.
  unfoldable pub ready : AppConfig d → d.Keypair → EventLoop d → Service d
  ready app_config id_keys event_loop = record {
    app_config = app_config;
    peer_id = d.peer_id_of id_keys;
    event_loop = event_loop;
    maintenance = record {
      interval = app_config.p2p.maintenance_interval_secs * 10 ^ 9;
      low_water = app_config.p2p.low_water;
    };
    peerstore_path = app_config.p2p.peerstore_path;
    has_sentry = configure_sentry app_config;
  }

  -- The gRPC server, then the metrics server.
  unfoldable pub serve_grpc : Host d → AppConfig d → Boot Unit
  serve_grpc host app_config = do
    parsed ←
        require (host.is_socket_addr app_config.p2p.grpc_host app_config.p2p.grpc_port.number)
          invalid_grpc_address
    require (host.binds_grpc app_config.p2p.grpc_host app_config.p2p.grpc_port.number)
        no_grpc_listener

  unfoldable pub serve_http : Host d → AppConfig d → Boot Unit
  serve_http host app_config =
      require (host.binds_http app_config.p2p.metrics_port.number) no_http_listener

  unfoldable pub boot : Host d → Boot (Service d)
  unfolding accepted
  boot host = do
    app_config ← read_config host host.args.config
    checked ← accepted (validate_config d app_config.p2p)
    id_keys ← load_p2p_private_key host host.args.private_key_file
    event_loop ←
        required
          (new_network d host.cargo_pkg_version host.build_swarm id_keys
            (network_settings d app_config.p2p) (bootstrap_peer_ids d.net app_config.p2p.peers)
            Metrics.new (Subscriptions.new d.broadcast 1024)
            (load host.to_json host.from_json host.files app_config.p2p.peerstore_path))
          no_network
    listening ← listen_on_port host event_loop app_config.p2p.port.number
    joined ←
        subscribe_to_topics host.before_subscribing listening (dedup_topics app_config.p2p.topics)
    grpc ← serve_grpc host app_config
    http ← serve_http host app_config
    reached (ready app_config id_keys joined)
