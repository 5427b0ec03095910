-- ===== src/Maintenance/Tests.antt =====
-- The unit tests of src/p2p/maintenance.rs. The addresses that the tests parse are parameters, and the
-- tests rely on the components that libp2p finds in them.
use p2p_service.Prelude.{
  ℕ, ◌≡◌, refl, Bool, true, false, not, ◌&&◌, Option, none, some, String, String_discrete, [], ◌∷◌,
  is_some, ite, arith,
}
use p2p_service.Net.{Net, ip4, tcp, p2p, other}
use p2p_service.Maintenance.{split_peer_multiaddr, split_popped, is_undialable, is_local, any}

module _ (net : Net) where
  -- What is asserted of the peer and the address that were split off.
  is_split : Option (net.PeerId × net.Multiaddr) → String → net.Multiaddr → Bool
  is_split none shown rest = false
  is_split (some (peer_id, dial_addr)) shown rest =
      ite (String_discrete (net.show_peer peer_id) shown) true false
      && ite (net.addr_eq dial_addr rest) true false

  unfoldable pub split_peer_multiaddr_extracts_id : (addr without_id : net.Multiaddr) → Bool
  unfolding is_split
  split_peer_multiaddr_extracts_id addr without_id =
      is_split (split_peer_multiaddr net addr) "QmZkurbY2G2hWay59yiTgQNaQxHSNzKZFt2jbnwJhQcKgV"
        without_id

  unfoldable pub split_peer_multiaddr_rejects_missing_p2p : (addr : net.Multiaddr) → Bool
  split_peer_multiaddr_rejects_missing_p2p addr = not (is_some (split_peer_multiaddr net addr))

  unfoldable pub is_undialable_classification :
      (loopback unspecified routable dns : net.Multiaddr) → Bool
  is_undialable_classification loopback unspecified routable dns =
      is_undialable net loopback
      && is_undialable net unspecified
      && not (is_undialable net routable)
      && not (is_undialable net dns)

  split_peer_multiaddr_extracts_id_lem :
      (addr without_id : net.Multiaddr) (peer_id : net.PeerId)
      → net.pop addr ≡ (some (p2p peer_id), without_id)
      → net.show_peer peer_id ≡ "QmZkurbY2G2hWay59yiTgQNaQxHSNzKZFt2jbnwJhQcKgV"
      → split_peer_multiaddr_extracts_id addr without_id ≡ true
  unfolding split_peer_multiaddr_extracts_id split_peer_multiaddr split_popped
  split_peer_multiaddr_extracts_id_lem addr without_id peer_id last shown =
      ground (arith, last, shown)

  split_peer_multiaddr_rejects_missing_p2p_lem :
      (addr rest : net.Multiaddr) (port : ℕ)
      → net.pop addr ≡ (some (tcp port), rest)
      → split_peer_multiaddr_rejects_missing_p2p addr ≡ true
  unfolding split_peer_multiaddr_rejects_missing_p2p split_peer_multiaddr split_popped
  split_peer_multiaddr_rejects_missing_p2p_lem addr rest port last = ground (arith, last)

  is_undialable_classification_lem :
      (loopback unspecified routable dns : net.Multiaddr)
      → net.iter loopback ≡ ip4 127 0 0 1 ∷ tcp 4025 ∷ []
      → net.iter unspecified ≡ ip4 0 0 0 0 ∷ tcp 4025 ∷ []
      → net.iter routable ≡ ip4 10 0 0 1 ∷ tcp 4025 ∷ []
      → net.iter dns ≡ other ∷ tcp 4025 ∷ []
      → is_undialable_classification loopback unspecified routable dns ≡ true
  unfolding is_undialable_classification is_undialable is_local any
  is_undialable_classification_lem loopback unspecified routable dns a b c e = rw (a, b, c, e) refl
