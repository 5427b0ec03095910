-- ===== src/Config/Examples.antt =====
-- A legacy document, as in the unit test of src/config.rs: `control_port` is read for `grpc_port`.
use p2p_service.Prelude.{◌≡◌, refl, some, [], ◌∷◌}
use p2p_service.Network.Sample.{sample_deps}
use p2p_service.Config.Tests
use p2p_service.Config.{P2pConfig, P2pKeys, fill, aliased}

abbrev pub legacy_keys : P2pKeys sample_deps
legacy_keys = Tests.legacy_keys sample_deps

abbrev base : P2pConfig sample_deps
base = record {
  port = record { number = 1 };
  grpc_host = "0.0.0.0";
  grpc_port = record { number = 4030 };
  metrics_port = record { number = 4040 };
  peers = "boot/p2p" ∷ [];
  topics = [];
  nb_api_workers = 4;
  peerstore_path = "peerstore.json";
  low_water = 80;
  high_water = 160;
  per_subnet_cap = 4;
  max_protected_share = 50;
  maintenance_interval_secs = 30;
}

abbrev filled : P2pConfig sample_deps
filled = record base {
  port = record { number = 4025 };
  grpc_port = record { number = 4031 };
  topics = "ALIVE" ∷ "ALEPH-TEST" ∷ [];
}

legacy_filled : fill sample_deps legacy_keys base ≡ some filled
unfolding fill aliased
legacy_filled = refl
