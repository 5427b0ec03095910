-- ===== src/Startup.antt =====
-- src/main.rs: what startup checks and computes before the tasks are spawned. Errors of
-- `validate_config` are told apart by the check that failed.
pub mod Boot
pub mod Checks
pub mod Defaults
pub mod Slots
pub mod Supervision
pub mod Examples
use mathlib.Core.List.{filter_map}
use p2p_service.Prelude.{
  ℕ, Bool, not, ◌==◌, String, List, [], ◌∷◌, ◌++◌, map, if◌then◌else◌, ltb, String_discrete,
}
use p2p_service.HashSet.{HashSet, contains, from_list}
use p2p_service.Net.{Net}
use p2p_service.Deps.{Deps, Outcome, ok, failed}
use p2p_service.Config.{P2pConfig}
use p2p_service.Network.{NetworkSettings}
use p2p_service.Maintenance.{split_peer_multiaddr}

pub data ConfigError : Type 0 where
  low_water_exceeds_high_water per_subnet_cap_is_zero share_out_of_range interval_is_zero :
      ConfigError

unfoldable pub validate_config : (d : Deps) → P2pConfig d → Outcome ConfigError
validate_config d p2p =
    if ltb p2p.high_water p2p.low_water
    then failed low_water_exceeds_high_water
    else if p2p.per_subnet_cap == 0
    then failed per_subnet_cap_is_zero
    else if not (d.in_unit_range p2p.max_protected_share)
    then failed share_out_of_range
    else if p2p.maintenance_interval_secs == 0
    then failed interval_is_zero
    else ok

-- The loop that keeps the first occurrence of each topic.
unfoldable pub dedup_from : (seen : List String) → List String → List String
dedup_from seen [] = seen
dedup_from seen (t ∷ topics) =
    dedup_from (if contains String_discrete t seen then seen else seen ++ t ∷ []) topics

unfoldable pub dedup_topics : List String → List String
unfolding dedup_from
dedup_topics topics = dedup_from [] topics

unfoldable pub bootstrap_peer_ids : (net : Net) → List net.Multiaddr → HashSet net.PeerId
bootstrap_peer_ids net peers =
    from_list net.peer_eq (map (λ e. e.0) (filter_map (split_peer_multiaddr net) peers))

-- The settings that the event loop is given.
unfoldable pub network_settings : (d : Deps) → P2pConfig d → NetworkSettings d
network_settings d p2p = record {
  low_water = p2p.low_water;
  high_water = p2p.high_water;
  per_subnet_cap = p2p.per_subnet_cap;
  max_protected_share = p2p.max_protected_share;
}
