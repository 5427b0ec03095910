-- ===== src/Startup/Slots.antt =====
-- How many connection slots the peers that are never disconnected can take, for a configuration that
-- startup has checked.
use p2p_service.Prelude.{ℕ, ◌+◌, ◌^◌, ◌≤◌, ◌≡◌, true, List, length, arith}
use p2p_service.Deps.{Deps, ok}
use p2p_service.Metrics.{Metrics}
use p2p_service.Peerstore.{PeerStore}
use p2p_service.Subscriptions.{Subscriptions}
use p2p_service.Network.{new}
use p2p_service.Network.Commands.{protected_cap}
use p2p_service.Network.Loop.{Input, run}
use p2p_service.Network.Protection.Reached.{run_bounded}
use p2p_service.Config.{P2pConfig}
use p2p_service.Startup.{validate_config, bootstrap_peer_ids, network_settings}
use p2p_service.Startup.Checks.{validate_config-IsValid, bootstrap_peer_ids-IsDistinct}

-- A share between 0 and 1 of a number that a float holds exactly is no more than the number.
abbrev pub IsShare : Deps → Type 0
IsShare d =
    (n : ℕ) (x : d.F32)
    → n ≤ 2 ^ 24
    → d.in_unit_range x ≡ true
    → d.usize_of_f32 (d.f32_mul (d.f32_of_usize n) x) ≤ n

-- If the configuration passes the checks of startup, high_water is at most 2^24, and a share
-- between 0 and 1 of such a number is no more than it, then in every state that the event loop
-- reaches from its start no more than high_water peers are protected besides the bootstrap peers.
pub protected_slots :
    (d : Deps) (p2p : P2pConfig d) (peers : List d.Multiaddr) (swarm : d.Swarm)
    (subscriptions : Subscriptions d.broadcast) (metrics : Metrics) (peerstore : PeerStore)
    (is : List (Input d))
    → IsShare d
    → validate_config d p2p ≡ ok
    → p2p.high_water ≤ 2 ^ 24
    → length
        (run d
          (new d swarm subscriptions metrics peerstore
            (network_settings d p2p)
            (bootstrap_peer_ids d.net peers))
          is).0.protected
      ≤ length (bootstrap_peer_ids d.net peers) + p2p.high_water
protected_slots d p2p peers swarm subscriptions metrics peerstore is share checked small = omega (
  arith,
  run_bounded d swarm subscriptions metrics peerstore (network_settings d p2p)
      (bootstrap_peer_ids d.net peers) is (bootstrap_peer_ids-IsDistinct d.net peers),
  capped,
)
  where
    capped : protected_cap d (network_settings d p2p) ≤ p2p.high_water
    capped =
        unfold protected_cap network_settings in
        share p2p.high_water p2p.max_protected_share small
          ((validate_config-IsValid d p2p).0 checked).share
