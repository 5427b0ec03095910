-- ===== src/Startup/Examples.antt =====
-- Startup at concrete inputs.
use p2p_service.Prelude.{ℕ, ◌*◌, ◌≤◌, arith, ◌≡◌, ◌↔◌, refl, String_discrete, [], ◌∷◌, none, some}
use p2p_service.HashSet
use p2p_service.HashSet.{contains}
use p2p_service.Deps.{ok}
use p2p_service.Network.Sample.{sample_deps}
use p2p_service.Config.{
  P2pConfig, AppConfig, default_sentry, read_app_config, default_p2p, fill, aliased,
}
use p2p_service.Config.Examples.{legacy_keys}
use p2p_service.Startup.Slots.{IsShare}
use p2p_service.Startup.{validate_config, dedup_topics, dedup_from}
use p2p_service.Startup.Checks.{IsValid, validate_config-IsValid}

abbrev usual : P2pConfig sample_deps
usual = record {
  port = record { number = 4025 };
  grpc_host = "127.0.0.1";
  grpc_port = record { number = 4030 };
  metrics_port = record { number = 4040 };
  peers = "boot/p2p" ∷ [];
  topics = "a" ∷ [];
  nb_api_workers = 1;
  peerstore_path = "peers";
  low_water = 50;
  high_water = 200;
  per_subnet_cap = 8;
  max_protected_share = 50;
  maintenance_interval_secs = 30;
}

validate_config-IsValid_example :
    (validate_config sample_deps usual ≡ ok) ↔ IsValid sample_deps usual
validate_config-IsValid_example = validate_config-IsValid sample_deps usual

repeated_topics : dedup_topics ("a" ∷ "b" ∷ "a" ∷ []) ≡ "a" ∷ "b" ∷ []
unfolding dedup_topics dedup_from contains HashSet.insert String_discrete
repeated_topics = refl

pub percent-IsShare : IsShare sample_deps
percent-IsShare n x small h = omega (arith, mul_mono n x 100 (ground arith))
  where
    mul_mono : (a b c : ℕ) → b ≤ c → a * b ≤ a * c
    mul_mono a b c h = grind arith

-- The configuration of the legacy document passes.
abbrev legacy : AppConfig sample_deps
legacy = record {
  p2p = record {
    port = record { number = 4025 };
    grpc_host = "0.0.0.0";
    grpc_port = record { number = 4031 };
    metrics_port = record { number = 4040 };
    peers =
        "dns/api2.aleph.im/tcp/4025/p2p/QmZkurbY2G2hWay59yiTgQNaQxHSNzKZFt2jbnwJhQcKgV"
        ∷ "dns/api3.aleph.im/tcp/4025/p2p/Qmb5b2ZwJm9pVWrppf3D3iMF1bXbjZhbJTwGvKEBMZNxa2" ∷ [];
    topics = "ALIVE" ∷ "ALEPH-TEST" ∷ [];
    nb_api_workers = 4;
    peerstore_path = "peerstore.json";
    low_water = 80;
    high_water = 160;
    per_subnet_cap = 4;
    max_protected_share = 50;
    maintenance_interval_secs = 30;
  };
  sentry = default_sentry sample_deps;
}

legacy_read : read_app_config sample_deps (some legacy_keys) none ≡ some legacy
unfolding read_app_config default_p2p fill aliased
legacy_read = refl
