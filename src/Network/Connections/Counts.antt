-- ===== src/Network/Connections/Counts.antt =====
-- The gauge and the table of connected peers against the open connections.
use p2p_service.Prelude.{
  ℕ, suc, ◌+◌, ◌≡◌, refl, ap, ◌∙◌, Bool, not, ◌&&◌, List, [], ◌∷◌, ◌++◌, ite, if_pos, if_neg,
  length, length-append, ltb, ◌==◌, arith,
}
use p2p_service.HashMap
use p2p_service.HashMap.{contains_key}
use p2p_service.HashMap.Laws.{get-insert, get-remove}
use p2p_service.Deps.{Deps}
use p2p_service.Metrics.Gauge.{pos, inc, dec}
use p2p_service.Network.{EventLoop}
use p2p_service.Network.Events.{
  handle_event, on_connection_closed, forget_address, addrs_or_default,
}
use p2p_service.Network.Frames.Events.{established_lem}
use p2p_service.Network.Connections.{
  History, begins, opens, closes, handles, obeys, Link, links_of, links_of-append,
  quiet-connections, command-connections,
}

module _ (d : Deps) where
  -- In every state that the event loop reaches from one with a gauge of zero, while only open
  -- connections close, the gauge of connected peers is the number of open connections, so that a
  -- peer with two connections counts twice.
  pub gauge_connections :
      (s₀ : EventLoop d) {s : EventLoop d} {ls : List (Link d)}
      → s₀.metrics.connected_peers ≡ pos 0
      → History d s₀ s ls
      → s.metrics.connected_peers ≡ pos (length ls)
  unfolding handle_event on_connection_closed inc dec
  gauge_connections s₀ start begins = start
  gauge_connections s₀ start (opens {s} {ls} clock p c endpoint h) =
      (established_lem d clock s p c endpoint).gauge ∙ ap inc (gauge_connections s₀ start h)
  gauge_connections s₀ start (closes {s} {ls} clock xs l ys is_dialer e h) =
      ap dec (gauge_connections s₀ start h ∙ ap pos (longer xs l ys ls e))
    where
      longer :
          (xs : List (Link d)) (l : Link d) (ys ls : List (Link d))
          → ls ≡ xs ++ l ∷ ys
          → length ls ≡ suc (length (xs ++ ys))
      longer xs l ys ls e =
          omega (arith, ap length e, length-append xs (l ∷ ys), length-append xs ys)
  gauge_connections s₀ start (handles {s} clock e q h) =
      (quiet-connections d clock s e q).gauge ∙ gauge_connections s₀ start h
  gauge_connections s₀ start (obeys {s} c h) =
      (command-connections d s c).gauge ∙ gauge_connections s₀ start h

  contains_key-forget_address :
      (m : HashMap.HashMap d.PeerId (List d.Multiaddr)) (p q : d.PeerId) (addr : d.Multiaddr)
      (k : ℕ)
      → contains_key d.peer_eq q (forget_address d m p addr k)
        ≡ ite
            (d.peer_eq q p)
            (contains_key d.peer_eq q m && not (k == 0))
            (contains_key d.peer_eq q m)
  unfolding forget_address
  contains_key-forget_address m p q addr k =
      grind (arith, get-insert d.peer_eq p q, get-remove d.peer_eq p q m)

  links_of_removed :
      (q : d.PeerId) (xs : List (Link d)) (l : Link d) (ys ls : List (Link d))
      → ls ≡ xs ++ l ∷ ys
      → links_of d q ls ≡ links_of d q (xs ++ ys) + ite (d.peer_eq q l.peer) 1 0
  unfolding links_of
  links_of_removed q xs l ys ls e =
      omega (arith, ap (links_of d q) e, links_of-append d q xs (l ∷ ys), links_of-append d q xs ys)

  left_over : (b : Bool) (k n : ℕ) → b ≡ ltb 0 (n + 1) → n ≡ k → (b && not (k == 0)) ≡ ltb 0 n
  left_over b k n h e = ground arith

  -- In every state that the event loop reaches from one with no connected peers, while only open
  -- connections close and the swarm reports how many the peer has left, a peer stands in the table
  -- of connected peers exactly while it has an open connection.
  pub connected_peers_lem :
      (s₀ : EventLoop d) {s : EventLoop d} {ls : List (Link d)} (q : d.PeerId)
      → s₀.connected ≡ []
      → History d s₀ s ls
      → contains_key d.peer_eq q s.connected ≡ ltb 0 (links_of d q ls)
  unfolding handle_event on_connection_closed links_of HashMap.get
  connected_peers_lem s₀ q start begins = rw start refl
  connected_peers_lem s₀ q start (opens {s} {ls} clock p c endpoint h) =
      rw (established_lem d clock s p c endpoint).connected (
        ground (
          arith,
          connected_peers_lem s₀ q start h,
          get-insert d.peer_eq p q
              (addrs_or_default (HashMap.get d.peer_eq p s.connected)
                ++ endpoint.remote_address ∷ [])
              s.connected,
        ))
  connected_peers_lem s₀ q start (closes {s} {ls} clock xs l ys is_dialer e h) =
      let before = connected_peers_lem s₀ q start h in
      let after =
        contains_key-forget_address s.connected l.peer q l.conn.addr
          (links_of d l.peer (xs ++ ys)) in
      let counted = links_of_removed q xs l ys ls e in
      elim (d.peer_eq q l.peer) [
        | yes same ↦
            after
            ∙ if_pos (d.peer_eq q l.peer) same _ _
            ∙ left_over (contains_key d.peer_eq q s.connected) (links_of d l.peer (xs ++ ys))
                (links_of d q (xs ++ ys))
                (before
                  ∙ ap (ltb 0) (
                      counted
                      ∙ ap (◌+◌ (links_of d q (xs ++ ys))) (if_pos (d.peer_eq q l.peer) same _ _)))
                (ap (λ p. links_of d p (xs ++ ys)) same)
        | no other ↦
            after
            ∙ if_neg (d.peer_eq q l.peer) other _ _
            ∙ before
            ∙ ap (ltb 0) (
                counted
                ∙ ap (◌+◌ (links_of d q (xs ++ ys))) (if_neg (d.peer_eq q l.peer) other _ _)
                ∙ omega arith)
      ]
  connected_peers_lem s₀ q start (handles {s} clock e quiet h) =
      rw (quiet-connections d clock s e quiet).connected (connected_peers_lem s₀ q start h)
  connected_peers_lem s₀ q start (obeys {s} c h) =
      rw (command-connections d s c).connected (connected_peers_lem s₀ q start h)
