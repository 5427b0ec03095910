-- ===== src/Network/Protection/Loops.antt =====
-- The two loops of `SetPreferredPeers` in src/p2p/network.rs: what each does to the protected set and
-- the dial hints.
use p2p_service.Prelude.{
  ◌+◌, ◌≤◌, ◌≡◌, refl, Bool, true, false, not, ◌&&◌, ◌||◌, List, [], ◌∷◌, map, length, min,
  length-take, arith, ite,
}
use p2p_service.HashMap
use p2p_service.HashMap.{contains_key}
use p2p_service.HashMap.Laws.{get-insert, length-insert}
use p2p_service.HashSet
use p2p_service.HashSet.{HashSet, contains, IsDistinct, from_list}
use p2p_service.HashSet.Laws.{
  contains-insert, contains-remove, insert-IsDistinct, remove-IsDistinct,
}
use p2p_service.Deps.{Deps}
use p2p_service.Network.{EventLoop}
use p2p_service.Network.Commands.{
  drop_one, drop_protection, add_protection, clear_preferred, accepted_peers, protected_cap,
}
use p2p_service.Network.Events.{preferred_peer_app_score}

module _ (d : Deps) where
  -- The peers of a list of peers with their addresses.
  abbrev pub peers_of : List (d.PeerId × List d.Multiaddr) → List d.PeerId
  peers_of = map (λ e. e.0)

  -- Neither among the new preferred peers nor a bootstrap peer.
  abbrev pub is_out : HashSet d.PeerId → EventLoop d → d.PeerId → Bool
  is_out new_set s p =
      not (contains d.peer_eq p new_set) && not (contains d.peer_eq p s.bootstrap_peers)

  drop_one-bootstrap :
      (new_set : HashSet d.PeerId) (p : d.PeerId) (s : EventLoop d)
      → (drop_one d new_set p s).bootstrap_peers ≡ s.bootstrap_peers
  unfolding drop_one
  drop_one-bootstrap new_set p s = ground arith

  contains-drop_one :
      (new_set : HashSet d.PeerId) (p : d.PeerId) (s : EventLoop d) (q : d.PeerId)
      → contains d.peer_eq q (drop_one d new_set p s).protected ≡ (
          contains d.peer_eq q s.protected
          && not (ite (d.peer_eq q p) true false && is_out new_set s q))
  unfolding drop_one
  contains-drop_one new_set p s q = ground (arith, contains-remove d.peer_eq p q s.protected)

  drop_one-IsDistinct :
      (new_set : HashSet d.PeerId) (p : d.PeerId) (s : EventLoop d)
      → IsDistinct d.peer_eq s.protected
      → IsDistinct d.peer_eq (drop_one d new_set p s).protected
  unfolding drop_one
  drop_one-IsDistinct new_set p s u = ground (arith, remove-IsDistinct d.peer_eq p s.protected u)

  pub contains-drop_protection :
      (new_set : HashSet d.PeerId) (old : List d.PeerId) (s : EventLoop d) (q : d.PeerId)
      → contains d.peer_eq q (drop_protection d new_set old s).protected
        ≡ (contains d.peer_eq q s.protected && not (contains d.peer_eq q old && is_out new_set s q))
  unfolding drop_protection contains
  contains-drop_protection new_set [] s q = ground arith
  contains-drop_protection new_set (p ∷ old) s q = ground (
    arith,
    contains-drop_protection new_set old (drop_one d new_set p s) q,
    contains-drop_one new_set p s q,
    drop_one-bootstrap new_set p s,
  )

  pub drop_protection-IsDistinct :
      (new_set : HashSet d.PeerId) (old : List d.PeerId) (s : EventLoop d)
      → IsDistinct d.peer_eq s.protected
      → IsDistinct d.peer_eq (drop_protection d new_set old s).protected
  unfolding drop_protection
  drop_protection-IsDistinct new_set [] s u = u
  drop_protection-IsDistinct new_set (p ∷ old) s u =
      drop_protection-IsDistinct new_set old (drop_one d new_set p s)
        (drop_one-IsDistinct new_set p s u)

  -- The state after one round of the loop over the accepted peers.
  abbrev pub add_one : d.PeerId → List d.Multiaddr → EventLoop d → EventLoop d
  add_one p addrs s = record s {
    protected = HashSet.insert d.peer_eq p s.protected;
    swarm = d.set_application_score s.swarm p (preferred_peer_app_score d);
    dial_hints = HashMap.insert d.peer_eq p addrs s.dial_hints;
  }

  pub contains-add_protection :
      (accepted : List (d.PeerId × List d.Multiaddr)) (s : EventLoop d) (q : d.PeerId)
      → (contains d.peer_eq q (add_protection d accepted s).protected
          ≡ (contains d.peer_eq q (peers_of accepted) || contains d.peer_eq q s.protected))
        × (contains_key d.peer_eq q (add_protection d accepted s).dial_hints
            ≡ (contains d.peer_eq q (peers_of accepted) || contains_key d.peer_eq q s.dial_hints))
  unfolding add_protection contains
  contains-add_protection [] s q = (refl, refl)
  contains-add_protection ((p, addrs) ∷ rest) s q =
      let ih = contains-add_protection rest (add_one p addrs s) q in
      (
        ground (arith, ih.0, contains-insert d.peer_eq p q s.protected),
        ground (arith, ih.1, get-insert d.peer_eq p q addrs s.dial_hints),
      )

  pub add_protection-IsDistinct :
      (accepted : List (d.PeerId × List d.Multiaddr)) (s : EventLoop d)
      → IsDistinct d.peer_eq s.protected
      → IsDistinct d.peer_eq (add_protection d accepted s).protected
  unfolding add_protection
  add_protection-IsDistinct [] s u = u
  add_protection-IsDistinct ((p, addrs) ∷ rest) s u =
      add_protection-IsDistinct rest _ (insert-IsDistinct d.peer_eq p s.protected u)

  pub length-add_protection :
      (accepted : List (d.PeerId × List d.Multiaddr)) (s : EventLoop d)
      → length (add_protection d accepted s).dial_hints ≤ length accepted + length s.dial_hints
  unfolding add_protection
  length-add_protection [] s = omega arith
  length-add_protection ((p, addrs) ∷ rest) s = ground (
    arith,
    length-add_protection rest (add_one p addrs s),
    length-insert d.peer_eq p addrs s.dial_hints,
  )

  pub clear_preferred-IsDistinct :
      (accepted : List (d.PeerId × List d.Multiaddr)) (s : EventLoop d)
      → IsDistinct d.peer_eq s.protected
      → IsDistinct d.peer_eq (clear_preferred d s accepted).protected
  unfolding clear_preferred
  clear_preferred-IsDistinct accepted s u =
      drop_protection-IsDistinct (from_list d.peer_eq (peers_of accepted)) s.protected s u

  pub no_hints :
      (accepted : List (d.PeerId × List d.Multiaddr)) (s : EventLoop d)
      → length (clear_preferred d s accepted).dial_hints ≡ 0
  unfolding clear_preferred
  no_hints accepted s = refl

  pub length-accepted_peers :
      (s : EventLoop d) (new_peers : List (d.PeerId × List d.Multiaddr))
      → length (accepted_peers d s new_peers) ≡ min (protected_cap d s.settings) (length new_peers)
  unfolding accepted_peers
  length-accepted_peers s new_peers = length-take (protected_cap d s.settings) new_peers

  pub contains-keys :
      (p : d.PeerId) (m : HashMap.HashMap d.PeerId (List d.Multiaddr))
      → contains d.peer_eq p (peers_of m) ≡ contains_key d.peer_eq p m
  unfolding contains HashMap.get
  contains-keys p [] = refl
  contains-keys p ((q, addrs) ∷ m) = ground (arith, contains-keys p m)
