-- ===== src/Config/Tests.antt =====
-- The unit test of src/config.rs. What serde_yaml finds in the text of the test is written out: the
-- keys of the section that the program knows.
use p2p_service.Prelude.{
  ◌≡◌, Bool, true, false, ◌&&◌, Option, none, some, String, String_discrete, List, [], ◌∷◌, ite,
  ◌==◌, arith,
}
use p2p_service.Deps.{Deps}
use p2p_service.Config.{P2pKeys, AppConfig, read_app_config, default_p2p, fill, aliased, api2, api3}

same_topics : List String → List String → Bool
same_topics [] [] = true
same_topics (x ∷ xs) (y ∷ ys) = ite (String_discrete x y) true false && same_topics xs ys
same_topics _ _ = false

module _ (d : Deps) where
  abbrev pub legacy_keys : P2pKeys d
  legacy_keys = record {
    port = some (record { number = 4025 });
    grpc_host = none;
    grpc_port = none;
    control_port = some (record { number = 4031 });
    metrics_port = none;
    peers = none;
    topics = some ("ALIVE" ∷ "ALEPH-TEST" ∷ []);
    nb_api_workers = none;
    peerstore_path = none;
    low_water = none;
    high_water = none;
    per_subnet_cap = none;
    max_protected_share = none;
    maintenance_interval_secs = none;
  }

  legacy_config : Option (AppConfig d) → Bool
  legacy_config none = false
  legacy_config (some config) =
      (config.p2p.port.number == 4025)
      && (config.p2p.grpc_port.number == 4031)
      && same_topics config.p2p.topics ("ALIVE" ∷ "ALEPH-TEST" ∷ [])

  unfoldable pub legacy_control_port_maps_and_removed_keys_are_ignored : Bool
  unfolding legacy_config same_topics
  legacy_control_port_maps_and_removed_keys_are_ignored =
      legacy_config (read_app_config d (some legacy_keys) none)

  legacy_control_port_maps_and_removed_keys_are_ignored_lem :
      (first second : d.Multiaddr)
      → d.read_addr api2 ≡ some first
      → d.read_addr api3 ≡ some second
      → legacy_control_port_maps_and_removed_keys_are_ignored ≡ true
  unfolding legacy_control_port_maps_and_removed_keys_are_ignored read_app_config default_p2p fill
      aliased String_discrete
  legacy_control_port_maps_and_removed_keys_are_ignored_lem first second a b = ground (arith, a, b)
