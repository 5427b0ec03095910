-- ===== src/Config.antt =====
-- src/config.rs: the configuration, its defaults, and how the keys of a document fill it. The YAML
-- parser is serde's: a section is given as the values that its keys parse to.
pub mod Keys
pub mod Tests
pub mod Examples
use p2p_service.Prelude.{ℕ, String, List, [], ◌∷◌, Option, none, some, ◌>>=◌, or_else}
use p2p_service.Deps.{Deps}

-- A `u16`
pub record Port : Type 0 where
  pub number : ℕ

pub record P2pConfig (d : Deps) : Type 0 where
  pub port : Port
  pub grpc_host : String
  pub grpc_port : Port
  pub metrics_port : Port
  pub peers : List d.Multiaddr
  pub topics : List String
  pub nb_api_workers : ℕ
  pub peerstore_path : String
  pub low_water : ℕ
  pub high_water : ℕ
  pub per_subnet_cap : ℕ
  pub max_protected_share : d.F32
  pub maintenance_interval_secs : ℕ

pub record SentryConfig (d : Deps) : Type 0 where
  pub dsn : Option String
  pub traces_sample_rate : Option d.F32

pub record AppConfig (d : Deps) : Type 0 where
  pub p2p : P2pConfig d
  pub sentry : SentryConfig d

abbrev pub api2 : String
api2 = "/dns/api2.aleph.im/tcp/4025/p2p/QmZkurbY2G2hWay59yiTgQNaQxHSNzKZFt2jbnwJhQcKgV"

abbrev pub api3 : String
api3 = "/dns/api3.aleph.im/tcp/4025/p2p/Qmb5b2ZwJm9pVWrppf3D3iMF1bXbjZhbJTwGvKEBMZNxa2"

-- The keys of a p2p section, those that are missing `none`; `control_port` is the legacy key.
pub record P2pKeys (d : Deps) : Type 0 where
  pub port : Option Port
  pub grpc_host : Option String
  pub grpc_port : Option Port
  pub control_port : Option Port
  pub metrics_port : Option Port
  pub peers : Option (List d.Multiaddr)
  pub topics : Option (List String)
  pub nb_api_workers : Option ℕ
  pub peerstore_path : Option String
  pub low_water : Option ℕ
  pub high_water : Option ℕ
  pub per_subnet_cap : Option ℕ
  pub max_protected_share : Option d.F32
  pub maintenance_interval_secs : Option ℕ

-- The value of a key with an alias; both keys in one section are an error.
unfoldable pub aliased {ℓ} : {A : Type ℓ} → Option A → Option A → Option (Option A)
aliased none other = some other
aliased (some a) none = some (some a)
aliased (some a) (some b) = none

module _ (d : Deps) where
  -- `P2PConfig::default()`; `none` is the panic on an address that does not parse.
  unfoldable pub default_p2p : Option (P2pConfig d)
  default_p2p = do
    first ← d.read_addr api2
    second ← d.read_addr api3
    some (record {
      port = record { number = 4025 };
      grpc_host = "0.0.0.0";
      grpc_port = record { number = 4030 };
      metrics_port = record { number = 4040 };
      peers = first ∷ second ∷ [];
      topics = "ALIVE" ∷ "ALEPH-TEST" ∷ [];
      nb_api_workers = 4;
      peerstore_path = "peerstore.json";
      low_water = 80;
      high_water = 160;
      per_subnet_cap = 4;
      max_protected_share = d.f32_half;
      maintenance_interval_secs = 30;
    })

  -- A section over the defaults: `#[serde(default)]` with the alias of `grpc_port`.
  unfoldable pub fill : P2pKeys d → P2pConfig d → Option (P2pConfig d)
  unfolding aliased
  fill keys base = do
    grpc_port ← aliased keys.grpc_port keys.control_port
    some (record {
      port = or_else base.port keys.port;
      grpc_host = or_else base.grpc_host keys.grpc_host;
      grpc_port = or_else base.grpc_port grpc_port;
      metrics_port = or_else base.metrics_port keys.metrics_port;
      peers = or_else base.peers keys.peers;
      topics = or_else base.topics keys.topics;
      nb_api_workers = or_else base.nb_api_workers keys.nb_api_workers;
      peerstore_path = or_else base.peerstore_path keys.peerstore_path;
      low_water = or_else base.low_water keys.low_water;
      high_water = or_else base.high_water keys.high_water;
      per_subnet_cap = or_else base.per_subnet_cap keys.per_subnet_cap;
      max_protected_share = or_else base.max_protected_share keys.max_protected_share;
      maintenance_interval_secs =
          or_else base.maintenance_interval_secs keys.maintenance_interval_secs;
    })

  abbrev pub default_sentry : SentryConfig d
  default_sentry = record { dsn = none; traces_sample_rate = none }

  -- The configuration of a document with these sections, each of which may be missing.
  unfoldable pub read_app_config :
      Option (P2pKeys d) → Option (SentryConfig d) → Option (AppConfig d)
  read_app_config none sentry = do
    base ← default_p2p
    some (record { p2p = base; sentry = or_else default_sentry sentry })
  read_app_config (some keys) sentry = do
    base ← default_p2p
    filled ← fill keys base
    some (record { p2p = filled; sentry = or_else default_sentry sentry })
