-- ===== src/Maintenance/Candidates.antt =====
-- The lists from which a pass of src/p2p/maintenance.rs takes the peers that it dials.
use p2p_service.Prelude.{
  ℕ, not, ◌&&◌, some, List, map, length, ltb, Each, Each-append, Each-take, Each-map, Bool-cases,
  inl, inr,
}
use p2p_service.HashSet.{HashSet, contains}
use p2p_service.Net.{Net}
use p2p_service.Peerstore.{PeerStore, dial_candidates}
use p2p_service.Backoff.{DialBackoff, prune}
use p2p_service.Maintenance.{
  Shuffles, any, keep, is_undialable, bootstrap_of, single, bootstrap_candidates,
  preferred_candidates, priority_candidates, refill_budget, refill_candidates, tick_candidates,
  max_preferred_dials_per_tick, peerstore_max_age_secs,
}
use p2p_service.Maintenance.Attempts.{Attempt, View, tick, fresh}
use p2p_service.Maintenance.Bounds.{dialed_from}

-- Shuffling keeps whatever holds of every member.
pub record IsShuffle (net : Net) (shuffles : Shuffles net) : Type 1 where
  pub preferred :
      (P : net.PeerId × List net.Multiaddr → Type 0) (l : List (net.PeerId × List net.Multiaddr))
      → Each P l
      → Each P (shuffles.preferred l)
  pub stored :
      (P : net.PeerId × net.Multiaddr → Type 0) (l : List (net.PeerId × net.Multiaddr))
      → Each P l
      → Each P (shuffles.stored l)

module _ (net : Net) where
  -- The candidates of the peerstore that are not connected and whose address may be dialed.
  abbrev pub eligible :
      HashSet net.PeerId → List (net.PeerId × net.Multiaddr) → List (net.PeerId × net.Multiaddr)
  eligible connected =
      keep (λ e. not (contains net.peer_eq e.0 connected) && not (is_undialable net e.1))

  module _ (P : net.PeerId × List net.Multiaddr → Type 0) where
    Each-bootstrap_candidates :
        (connected : HashSet net.PeerId) (bootstrap : List (net.PeerId × net.Multiaddr))
        → Each P (map (single net) bootstrap)
        → Each P (bootstrap_candidates net connected bootstrap)
    unfolding bootstrap_candidates Each
    Each-bootstrap_candidates connected bootstrap h =
        elim (Bool-cases (any (λ e. contains net.peer_eq e.0 connected) bootstrap)) [
          | inl anchored ↦ rw (anchored, bootstrap_candidates) tt
          | inr isolated ↦ rw (isolated, bootstrap_candidates) h
        ]

    Each-refill_candidates :
        (shuffles : Shuffles net) (low_water : ℕ) (connected : HashSet net.PeerId)
        (stored : List (net.PeerId × net.Multiaddr))
        → IsShuffle net shuffles
        → Each (λ e. P (single net e)) (eligible connected stored)
        → Each (λ e. P (single net e)) (refill_candidates net shuffles low_water connected stored)
    unfolding Each refill_candidates
    Each-refill_candidates shuffles low_water connected stored sh h =
        Each-take _ (refill_budget net low_water connected) _
          (elim (Bool-cases (ltb (length connected) low_water)) [
            | inl low ↦ rw low (sh.stored (λ e. P (single net e)) _ h)
            | inr enough ↦ rw enough tt
          ])

    -- What holds of the bootstrap peers, of the preferred peers and of the eligible peers of the
    -- peerstore holds of every peer that a pass dials.
    pub tick-Each :
        (shuffles : Shuffles net) (low_water : ℕ) (bootstrap_multiaddrs : List net.Multiaddr)
        (now now_unix : ℕ) (snapshot : View net) (store : PeerStore) (world : ℕ → Attempt)
        (backoff : DialBackoff net.PeerId)
        → IsShuffle net shuffles
        → Each P (map (single net) (bootstrap_of net bootstrap_multiaddrs))
        → Each P (preferred_candidates net snapshot.connected snapshot.preferred)
        → Each
            (λ e. P (single net e))
            (eligible snapshot.connected
              (dial_candidates net store peerstore_max_age_secs now_unix))
        → Each P
            (tick net shuffles low_water bootstrap_multiaddrs now now_unix
              (some snapshot)
              store
              world
              backoff).dialed
    unfolding tick tick_candidates priority_candidates Each
    tick-Each shuffles low_water bootstrap_multiaddrs now now_unix snapshot store world backoff sh
          boot preferred stored =
        let connected = snapshot.connected in
        (dialed_from net P connected _ world (fresh net (prune backoff now))
          (Each-append P _ _
            (Each-append P _ _ (Each-bootstrap_candidates connected _ boot)
              (Each-take P max_preferred_dials_per_tick _ (sh.preferred P _ preferred)))
            (Each-map P (single net) _
              (Each-refill_candidates shuffles low_water connected _ sh stored)))
          tt).0
