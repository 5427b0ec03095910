-- ===== src/Peerstore/Origins.antt =====
-- Where the addresses of the dial candidates come from (`record` and `dial_candidates` of
-- src/p2p/peerstore.rs).
use mathlib.Core.Path.{subst}
use mathlib.Core.List.{tail, flat_map, filter_map}
use p2p_service.Prelude.{
  ℕ, ◌-◌, ◌≡◌, sym, ◌∙◌, some, some_inj, String, String_discrete, List, [], ◌∷◌, ◌++◌, length, ltb,
  Each, Each-append, Each-imp, Each-map, Bool-cases, Option-cases, inl, inr,
}
use p2p_service.HashMap
use p2p_service.HashMap.Entries.{get-Each, insert-Each}
use p2p_service.HashSet.{contains}
use p2p_service.Net.{Net}
use p2p_service.Peerstore.{
  PeerRecord, PeerStore, max_addrs_per_peer, push_addr, push_all, entry_or_new, record_peer,
  entry_candidates, dial_candidates,
}

module _ (Q : String → Type 0) where
  Each-tail : (xs : List String) → Each Q xs → Each Q (tail xs)
  unfolding Each
  Each-tail [] h = tt
  Each-tail (x ∷ xs) h = h.1

  Each-push_addr :
      (addrs : List String) (a : String) → Each Q addrs → Q a → Each Q (push_addr addrs a)
  unfolding push_addr Each
  Each-push_addr addrs a h q = elim (Bool-cases (contains String_discrete a addrs)) [
    | inl known ↦ rw (known, push_addr) h
    | inr new ↦
        let all : Each Q (addrs ++ a ∷ []) = Each-append Q addrs (a ∷ []) h (q, tt) in
        elim (Bool-cases (ltb max_addrs_per_peer (length (addrs ++ a ∷ [])))) [
          | inl full ↦ rw (new, full, push_addr) (Each-tail (addrs ++ a ∷ []) all)
          | inr room ↦ rw (new, room, push_addr) all
        ]
  ]

  Each-push_all :
      (addrs new : List String) → Each Q addrs → Each Q new → Each Q (push_all addrs new)
  unfolding push_all Each
  Each-push_all addrs [] h k = h
  Each-push_all addrs (a ∷ rest) h k =
      Each-push_all (push_addr addrs a) rest (Each-push_addr addrs a h k.0) k.1

-- `to_string` and `from_str` of libp2p agree on what was printed.
pub record Reads (net : Net) : Type 0 where
  pub peer : (p : net.PeerId) → net.read_peer (net.show_peer p) ≡ some p
  pub addr : (a : net.Multiaddr) → net.read_addr (net.show_addr a) ≡ some a

module _ (net : Net) (K : net.PeerId → net.Multiaddr → Type 0) where
  -- Whatever the two texts parse to is in the relation.
  abbrev IsOffer : String → String → Type 0
  IsOffer key text =
      (p : net.PeerId) (a : net.Multiaddr)
      → net.read_peer key ≡ some p
      → net.read_addr text ≡ some a
      → K p a

  abbrev IsOfferEntry : String × PeerRecord → Type 0
  IsOfferEntry e = Each (IsOffer e.0) e.1.addrs

  -- Every address of the store that parses is one that the relation has of its peer.
  abbrev pub HasOrigins : PeerStore → Type 0
  HasOrigins store = Each IsOfferEntry store.peers

  filter_map-Origins :
      (key : String) (p : net.PeerId) (texts : List String)
      → net.read_peer key ≡ some p
      → Each (IsOffer key) texts
      → Each (K p) (filter_map net.read_addr texts)
  unfolding Each filter_map
  filter_map-Origins key p [] r h = tt
  filter_map-Origins key p (t ∷ texts) r h = elim (Option-cases (net.read_addr t)) [
    | inl e ↦ rw e (filter_map-Origins key p texts r h.1)
    | inr (a, e) ↦ rw e (h.0 p a r e, filter_map-Origins key p texts r h.1)
  ]

  module _ (max_age_secs now_unix : ℕ) where
    entry_candidates-Origins :
        (e : String × PeerRecord)
        → IsOfferEntry e
        → Each (λ c. K c.0 c.1) (entry_candidates net max_age_secs now_unix e)
    unfolding entry_candidates Each
    entry_candidates-Origins (key, entry) h =
        elim (Bool-cases (ltb max_age_secs (now_unix - entry.last_seen_unix))) [
          | inl old ↦ rw (old, entry_candidates) tt
          | inr fresh ↦ elim (Option-cases (net.read_peer key)) [
            | inl e ↦ rw (fresh, e, entry_candidates) tt
            | inr (p, e) ↦
                rw (fresh, e, entry_candidates)
                  (Each-map (λ c. K c.0 c.1) (λ addr. (p, addr)) _
                    (filter_map-Origins key p entry.addrs e h))
          ]
        ]

    pub dial_candidates-Origins :
        (store : PeerStore)
        → HasOrigins store
        → Each (λ c. K c.0 c.1) (dial_candidates net store max_age_secs now_unix)
    unfolding dial_candidates Each flat_map
    dial_candidates-Origins store h = of_entries store.peers h
      where
        of_entries :
            (es : List (String × PeerRecord))
            → Each IsOfferEntry es
            → Each (λ c. K c.0 c.1) (flat_map (entry_candidates net max_age_secs now_unix) es)
        of_entries [] h = tt
        of_entries (e ∷ es) h =
            Each-append (λ c. K c.0 c.1) _ _ (entry_candidates-Origins e h.0) (of_entries es h.1)

  entry_or_new-Origins :
      (key : String) (now_unix : ℕ) (store : PeerStore)
      → HasOrigins store
      → Each
          (IsOffer key)
          (entry_or_new (HashMap.get String_discrete key store.peers) now_unix).addrs
  unfolding entry_or_new Each
  entry_or_new-Origins key now_unix store h =
      elim (Option-cases (HashMap.get String_discrete key store.peers)) [
        | inl e ↦ rw (e, entry_or_new) tt
        | inr (r, e) ↦
            rw (e, entry_or_new) (get-Each String_discrete IsOfferEntry key r store.peers h e)
      ]

  pub record_peer-Origins :
      (store : PeerStore) (p : net.PeerId) (addrs : List net.Multiaddr) (now_unix : ℕ)
      → Reads net
      → Each (K p) addrs
      → HasOrigins store
      → HasOrigins (record_peer net store p addrs now_unix)
  unfolding record_peer
  record_peer-Origins store p addrs now_unix reads k h =
      let key = net.show_peer p in
      insert-Each String_discrete IsOfferEntry key _ store.peers
        (Each-push_all (IsOffer key) _ _ (entry_or_new-Origins key now_unix store h)
          (Each-map (IsOffer key) net.show_addr addrs (Each-imp (K p) _ shown addrs k)))
        h
    where
      shown : (a : net.Multiaddr) → K p a → IsOffer (net.show_peer p) (net.show_addr a)
      shown a ka q b rq rb =
          subst (λ x. K x b) (some_inj (sym (reads.peer p) ∙ rq))
            (subst (K p) (some_inj (sym (reads.addr a) ∙ rb)) ka)
