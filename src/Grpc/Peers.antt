-- ===== src/Grpc/Peers.antt =====
-- The lenient parsing of SetPreferredPeers against a reference: the first entry of each peer.
use mathlib.Core.List.{filter_map}
use p2p_service.Prelude.{
  ap, ◌∙◌, String, ◌≡◌, refl, true, false, Option, none, some, List, [], ◌∷◌, map, ite, arith,
  Option-cases, Bool-cases, inl, inr, if◌then◌else◌,
}
use p2p_service.HashMap
use p2p_service.HashSet
use p2p_service.HashSet.{HashSet, contains, IsDistinct}
use p2p_service.HashSet.Laws.{contains-insert}
use p2p_service.Net.{Net}
use p2p_service.Grpc.{PreferredPeer, keep_addrs, parse_peers}

module _ (net : Net) where
  -- The reference: the addresses that parse, in order.
  abbrev pub add_addr : Option net.Multiaddr → List net.Multiaddr → List net.Multiaddr
  add_addr none addrs = addrs
  add_addr (some addr) addrs = addr ∷ addrs

  unfoldable pub valid_addrs : List String → List net.Multiaddr
  valid_addrs [] = []
  valid_addrs (text ∷ rest) = add_addr (net.read_addr text) (valid_addrs rest)

  -- The valid addresses of the first entry whose id parses to `p`.
  unfoldable pub first_entry : net.PeerId → List PreferredPeer → Option (List net.Multiaddr)
  first_entry p [] = none
  first_entry p ((text, multiaddrs) ∷ rest) = elim (net.read_peer text) [
    | none ↦ first_entry p rest
    | some q ↦ ite (net.peer_eq p q) (some (valid_addrs multiaddrs)) (first_entry p rest)
  ]

  -- The peers with an entry whose id parses, each once, in the order of their first entries.
  unfoldable pub apart : net.PeerId → List net.PeerId → List net.PeerId
  apart p [] = []
  apart p (q ∷ qs) = ite (net.peer_eq p q) (apart p qs) (q ∷ apart p qs)

  unfoldable pub listed : List PreferredPeer → List net.PeerId
  listed [] = []
  listed ((text, multiaddrs) ∷ rest) = elim (net.read_peer text) [
    | none ↦ listed rest
    | some p ↦ p ∷ apart p (listed rest)
  ]

  keep_addrs-valid : (texts : List String) → keep_addrs net texts ≡ valid_addrs texts
  unfolding keep_addrs filter_map valid_addrs
  keep_addrs-valid [] = refl
  keep_addrs-valid (text ∷ rest) = elim (Option-cases (net.read_addr text)) [
    | inl bad ↦ rw (bad) (keep_addrs-valid rest)
    | inr (addr, good) ↦ rw (good) (ap (λ l. addr ∷ l) (keep_addrs-valid rest))
  ]

  -- The peers that are left when those of the list are taken out.
  unfoldable unseen : HashSet net.PeerId → List net.PeerId → List net.PeerId
  unseen seen [] = []
  unseen seen (q ∷ qs) =
      let rest = unseen seen qs in if contains net.peer_eq q seen then rest else q ∷ rest

  unseen-insert :
      (p : net.PeerId) (seen : HashSet net.PeerId) (qs : List net.PeerId)
      → unseen (HashSet.insert net.peer_eq p seen) qs ≡ unseen seen (apart p qs)
  unfolding unseen apart
  unseen-insert p seen [] = refl
  unseen-insert p seen (q ∷ qs) =
      ground (arith, unseen-insert p seen qs, contains-insert net.peer_eq p q seen)

  without_none : (qs : List net.PeerId) → unseen [] qs ≡ qs
  unfolding unseen contains
  without_none [] = refl
  without_none (q ∷ qs) = ap (λ l. q ∷ l) (without_none qs)

  peers-parse_peers :
      (seen : HashSet net.PeerId) (ps : List PreferredPeer)
      → map (λ e. e.0) (parse_peers net seen ps) ≡ unseen seen (listed ps)
  unfolding parse_peers unseen listed
  peers-parse_peers seen [] = refl
  peers-parse_peers seen ((text, multiaddrs) ∷ rest) = elim (Option-cases (net.read_peer text)) [
    | inl bad ↦ rw (bad, parse_peers, listed) (peers-parse_peers seen rest)
    | inr (q, good) ↦
        let ih = peers-parse_peers (HashSet.insert net.peer_eq q seen) rest in
        let out = unseen-insert q seen (listed rest) in
        rw (good, parse_peers, listed)
          (elim (Bool-cases (contains net.peer_eq q seen)) [
            | inl known ↦ rw known (ih ∙ out)
            | inr new ↦ rw new (ap (λ l. q ∷ l) (ih ∙ out))
          ])
  ]

  get-parse_peers :
      (p : net.PeerId) (seen : HashSet net.PeerId) (ps : List PreferredPeer)
      → HashMap.get net.peer_eq p (parse_peers net seen ps)
        ≡ (if contains net.peer_eq p seen then none else first_entry p ps)
  unfolding parse_peers HashMap.get first_entry
  get-parse_peers p seen [] = ground arith
  get-parse_peers p seen ((text, multiaddrs) ∷ rest) = elim (Option-cases (net.read_peer text)) [
    | inl bad ↦ rw (bad, parse_peers, first_entry) (get-parse_peers p seen rest)
    | inr (q, good) ↦
        rw (good, parse_peers, first_entry)
          (ground (
            arith,
            get-parse_peers p (HashSet.insert net.peer_eq q seen) rest,
            contains-insert net.peer_eq q p seen,
            keep_addrs-valid multiaddrs,
          ))
  ]

  -- None that was seen is among the parsed, and none stands there twice.
  parse_peers-IsDistinct :
      (seen : HashSet net.PeerId) (ps : List PreferredPeer)
      → IsDistinct net.peer_eq (map (λ e. e.0) (parse_peers net seen ps))
        × ((p : net.PeerId)
            → contains net.peer_eq p seen ≡ true
            → contains net.peer_eq p (map (λ e. e.0) (parse_peers net seen ps)) ≡ false)
  unfolding parse_peers contains
  parse_peers-IsDistinct seen [] = (tt, λ p h. refl)
  parse_peers-IsDistinct seen ((text, multiaddrs) ∷ rest) =
      elim (Option-cases (net.read_peer text)) [
        | inl bad ↦ rw (bad, parse_peers) (parse_peers-IsDistinct seen rest)
        | inr (q, good) ↦
            let ih = parse_peers-IsDistinct (HashSet.insert net.peer_eq q seen) rest in
            let other = λ (p : net.PeerId). contains-insert net.peer_eq q p seen in
            rw (good, parse_peers)
              (elim (Bool-cases (contains net.peer_eq q seen)) [
                | inl known ↦ rw known (ih.0, λ p h. ih.1 p (ground (arith, other p)))
                | inr new ↦ rw new (
                  (ih.1 q (ground (arith, other q)), ih.0),
                  λ p h. ground (arith, other p, ih.1 p),
                )
              ])
      ]

  -- What SetPreferredPeers sends to the event loop has the peers with an entry whose id parses,
  -- each once, in the order of their first entries and with the valid addresses of these.
  pub parse_peers_lem :
      (ps : List PreferredPeer) (p : net.PeerId)
      → IsDistinct net.peer_eq (map (λ e. e.0) (parse_peers net [] ps))
        × (HashMap.get net.peer_eq p (parse_peers net [] ps) ≡ first_entry p ps)
        × (map (λ e. e.0) (parse_peers net [] ps) ≡ listed ps)
  unfolding contains
  parse_peers_lem ps p = (
    (parse_peers-IsDistinct [] ps).0,
    get-parse_peers p [] ps,
    peers-parse_peers [] ps ∙ without_none (listed ps),
  )
