-- ===== src/Maintenance/Connected.antt =====
-- A pass of the maintenance loop whose snapshot the event loop answered, against the connections that
-- were open when it did (`network_snapshot` and `run` of src/p2p/network.rs, `run` of
-- src/p2p/maintenance.rs).
use p2p_service.Prelude.{
  ℕ, ◌≡◌, refl, sym, ap, ◌∙◌, Bool, true, false, some, List, [], ◌∷◌, map, Each, Each-imp, arith,
  ltb,
}
use p2p_service.HashMap
use p2p_service.HashSet.{contains}
use p2p_service.Deps.{Deps}
use p2p_service.Peerstore.{PeerStore}
use p2p_service.Backoff.{DialBackoff, ready, prune}
use p2p_service.Network.{EventLoop, network_snapshot, snapshot}
use p2p_service.Network.Commands.{handle_command}
use p2p_service.Network.Connections.{History, Link, links_of}
use p2p_service.Network.Connections.Counts.{connected_peers_lem}
use p2p_service.Network.Protection.Loops.{contains-keys}
use p2p_service.Network.Loop.{Input, step}
use p2p_service.Network.Client.{client_network_snapshot, read_snapshot}
use p2p_service.Network.Client.Wait.{send_replied}
use p2p_service.Maintenance.{Shuffles, any, bootstrap_of}
use p2p_service.Maintenance.Attempts.{Attempt, View, Pass, tick}
use p2p_service.Maintenance.Once.{peers_of, tick_fair, MayDial}
use p2p_service.Maintenance.Anchor.{tick_anchors}
use p2p_service.Maintenance.Rounds.{view_of}

-- A test that gives the same on every element.
any-same {ℓ} :
    {A : Type ℓ} (f g : A → Bool) (xs : List A) → ((x : A) → f x ≡ g x) → any f xs ≡ any g xs
unfolding any
any-same f g [] h = refl
any-same f g (x ∷ xs) h = ground (arith, h x, any-same f g xs h)

none_of_false : (n : ℕ) → ltb 0 n ≡ false → n ≡ 0
none_of_false n h = ground arith

module _ (d : Deps) where
  -- What the loop of maintenance gets to see of a running event loop.
  abbrev pub seen : EventLoop d → View d.net
  seen s = record { connected = HashMap.keys s.connected; preferred = s.dial_hints }

  -- The answer to the request for a snapshot.
  pub view_of_lem :
      (s : EventLoop d) (later : List (Input d)) (channel : ℕ)
      → view_of d
          (client_network_snapshot d (record { event_loop = some s; later = later }) channel)
        ≡ some (seen s)
  unfolding client_network_snapshot view_of read_snapshot
  view_of_lem s later channel = ap (view_of d) (
      send_replied d channel (read_snapshot d) s later (network_snapshot channel)
        (snapshot (record { connected = HashMap.keys s.connected; preferred = s.dial_hints }))
        (unfold step handle_command in refl))

  module _ (s₀ : EventLoop d) {s : EventLoop d} {ls : List (Link d)} (fresh : s₀.connected ≡ [])
      (history : History d s₀ s ls) where
    -- A peer stands in the snapshot exactly while it has an open connection.
    contains-seen :
        (p : d.PeerId) → contains d.peer_eq p (seen s).connected ≡ ltb 0 (links_of d p ls)
    contains-seen p = contains-keys d p s.connected ∙ connected_peers_lem d s₀ p fresh history

  module _ (shuffles : Shuffles d.net) (low_water : ℕ) (bootstrap_multiaddrs : List d.Multiaddr)
      (now now_unix : ℕ) (store : PeerStore) (world : ℕ → Attempt) (b : DialBackoff d.PeerId) where
    -- The pass that asks the event loop in this state for its snapshot.
    abbrev pub asking : EventLoop d → List (Input d) → (channel : ℕ) → Pass d.net
    asking s later channel =
        tick d.net shuffles low_water bootstrap_multiaddrs now now_unix
          (view_of d
            (client_network_snapshot d (record { event_loop = some s; later = later }) channel))
          store world b

    -- A pass whose snapshot a running event loop answers, in a state that it reaches from one with
    -- no connected peers while only open connections close and the swarm reports how many the peer
    -- has left, dials no peer that had an open connection then, and, if no bootstrap peer had one,
    -- dials every bootstrap peer that the backoff table lets through all along.
    pub asking_lem :
        (s₀ : EventLoop d) {s : EventLoop d} {ls : List (Link d)} (later : List (Input d))
        (channel : ℕ)
        → s₀.connected ≡ []
        → History d s₀ s ls
        → Each (λ p. links_of d p ls ≡ 0) (peers_of d.net (asking s later channel).dialed)
          × ((p : d.PeerId)
              → any (λ e. ltb 0 (links_of d e.0 ls)) (bootstrap_of d.net bootstrap_multiaddrs)
                ≡ false
              → contains d.peer_eq p (map (λ e. e.0) (bootstrap_of d.net bootstrap_multiaddrs))
                ≡ true
              → ((n : ℕ) → ready d.peer_eq (prune b now) p (world n).asked_at ≡ true)
              → contains d.peer_eq p (peers_of d.net (asking s later channel).dialed) ≡ true)
    asking_lem s₀ {s} {ls} later channel fresh history =
        let seen_as = contains-seen s₀ fresh history in
        let bootstrap = bootstrap_of d.net bootstrap_multiaddrs in
        rw (view_of_lem s later channel) (
          Each-imp (MayDial d.net (seen s).connected world (prune b now)) (λ p. links_of d p ls ≡ 0)
              (λ p may. none_of_false (links_of d p ls) (sym (seen_as p) ∙ may.0)) _
              (tick_fair d.net shuffles low_water bootstrap_multiaddrs now now_unix (seen s) store
                world b).1,
          λ p isolated known open_window.
              tick_anchors d.net shuffles low_water bootstrap_multiaddrs now now_unix (seen s) store
                world b p
                (any-same
                    (λ (e : d.PeerId × d.Multiaddr). contains d.peer_eq e.0 (seen s).connected)
                    (λ e. ltb 0 (links_of d e.0 ls)) bootstrap (λ e. seen_as e.0)
                  ∙ isolated)
                known open_window,
        )
