-- ===== src/Network/Protection/Reached.antt =====
-- Who is protected in the states that the event loop (src/p2p/network.rs) reaches, and how many
-- they are.
use p2p_service.Prelude.{
  ◌+◌, ◌≤◌, ◌≡◌, refl, sym, ap, ◌∙◌, true, ◌||◌, List, length, length-map, length-append, ◌++◌,
  arith,
}
use p2p_service.HashMap.{contains_key}
use p2p_service.HashSet.{HashSet, contains, IsDistinct}
use p2p_service.HashSet.Laws.{length-le_of_subset, contains-append}
use p2p_service.Deps.{Deps}
use p2p_service.Metrics.{Metrics}
use p2p_service.Peerstore.{PeerStore}
use p2p_service.Subscriptions.{Subscriptions}
use p2p_service.Network.{EventLoop, new, NetworkSettings}
use p2p_service.Network.Commands.{protected_cap}
use p2p_service.Network.Loop.{Input, run}
use p2p_service.Network.Protection.Loops.{contains-keys, peers_of}
use p2p_service.Network.Protection.{IsProtecting, run-IsProtecting, new-IsProtecting}

module _ (d : Deps) where
  length-protected :
      (s : EventLoop d)
      → IsProtecting d s
      → length s.protected ≤ length s.bootstrap_peers + protected_cap d s.settings
  length-protected s v = omega (
    arith,
    length-le_of_subset d.peer_eq s.protected (s.bootstrap_peers ++ peers_of d s.dial_hints)
        v.distinct covered,
    length-append s.bootstrap_peers (peers_of d s.dial_hints),
    length-map (λ (e : d.PeerId × List d.Multiaddr). e.0) s.dial_hints,
    v.hinted,
  )
    where
      covered :
          (p : d.PeerId)
          → contains d.peer_eq p s.protected ≡ true
          → contains d.peer_eq p (s.bootstrap_peers ++ peers_of d s.dial_hints) ≡ true
      covered p m =
          contains-append d.peer_eq p s.bootstrap_peers (peers_of d s.dial_hints)
          ∙ ap (λ b. contains d.peer_eq p s.bootstrap_peers || b) (contains-keys d p s.dial_hints)
          ∙ sym (v.exact p)
          ∙ m

  module _ (swarm : d.Swarm) (subscriptions : Subscriptions d.broadcast) (metrics : Metrics)
      (peerstore : PeerStore) (settings : NetworkSettings d) (bootstrap_peers : HashSet d.PeerId)
      (is : List (Input d)) where
    -- The state that the loop reaches from its start.
    abbrev reached : EventLoop d
    reached = (run d (new d swarm subscriptions metrics peerstore settings bootstrap_peers) is).0

    reached-IsProtecting :
        IsDistinct d.peer_eq bootstrap_peers
        → IsProtecting d reached
          × (reached.bootstrap_peers ≡ bootstrap_peers)
          × (reached.settings ≡ settings)
    reached-IsProtecting u =
        let v =
          run-IsProtecting d is _
            (new-IsProtecting d swarm subscriptions metrics peerstore settings bootstrap_peers u) in
        (v.0, v.1 ∙ unfold new in refl, v.2 ∙ unfold new in refl)

    pub run_bounded :
        IsDistinct d.peer_eq bootstrap_peers
        → length reached.protected ≤ length bootstrap_peers + protected_cap d settings
    run_bounded u =
        let v = reached-IsProtecting u in rw (v.1, v.2) at (length-protected reached v.0)

  -- In every state that the event loop reaches from its start, if no bootstrap peer was given
  -- twice, the protected peers are exactly the bootstrap peers and the preferred ones, and no more
  -- than the bootstrap peers and the cap together.
  pub run_protected :
      (swarm : d.Swarm) (subscriptions : Subscriptions d.broadcast) (metrics : Metrics)
      (peerstore : PeerStore) (settings : NetworkSettings d) (bootstrap_peers : HashSet d.PeerId)
      (is : List (Input d)) (p : d.PeerId)
      → IsDistinct d.peer_eq bootstrap_peers
      → let s =
          (run d (new d swarm subscriptions metrics peerstore settings bootstrap_peers) is).0 in
        (contains d.peer_eq p s.protected
          ≡ (contains d.peer_eq p bootstrap_peers || contains_key d.peer_eq p s.dial_hints))
        × (length s.protected ≤ length bootstrap_peers + protected_cap d settings)
  run_protected swarm subscriptions metrics peerstore settings bootstrap_peers is p u =
      let v =
        reached-IsProtecting swarm subscriptions metrics peerstore settings bootstrap_peers is u in
      (
        rw v.1 at (v.0.exact p),
        run_bounded swarm subscriptions metrics peerstore settings bootstrap_peers is u,
      )
