-- ===== src/Peerstore/Candidates.antt =====
-- What `dial_candidates` returns.
use mathlib.Core.List.{
  Mem, flat_map, filter_map, mem-map, mem-filter_map, mem-map_of_mem, mem-append, mem-cons,
  not-mem-nil, mem-cons_self, mem-cons_of_mem,
}
use mathlib.Core.Logic.{∥∥₁_elim, ∥∥₁_map, ∥∥₁_prop}
use mathlib.Core.Logic.Or
use mathlib.Core.Path.{subst}
use p2p_service.Prelude.{
  ℕ, ◌-◌, ◌≤◌, ◌<◌, dec_lt, ◌≡◌, ap, ◌↔◌, none, some, String, List, [], ◌∷◌, map, arith,
  Option-cases, inl, inr, ◌∙◌,
}
use p2p_service.Net.{Net}
use p2p_service.Peerstore.{PeerRecord, PeerStore, entry_candidates, dial_candidates}

module _ {ℓ κ} {A : Type ℓ} {B : Type κ} (f : A → List B) where
  mem-flat_map_of_mem : (l : List A) (a : A) (b : B) → Mem a l → Mem b (f a) → Mem b (flat_map f l)
  unfolding flat_map
  mem-flat_map_of_mem [] a b m n = absurd (not-mem-nil m)
  mem-flat_map_of_mem (x ∷ l) a b m n =
      Or.elim ∥∥₁_prop (mem-cons.0 m) (λ e. mem-append.1 (Or.inl (subst (λ y. Mem b (f y)) e n)))
        (λ m'. mem-append.1 (Or.inr (mem-flat_map_of_mem l a b m' n)))

  exists_of_mem-flat_map :
      (l : List A) (b : B) → Mem b (flat_map f l) → ∥ ((a : A) × Mem a l × Mem b (f a)) ∥₁
  unfolding flat_map
  exists_of_mem-flat_map [] b m = absurd (not-mem-nil m)
  exists_of_mem-flat_map (x ∷ l) b m =
      Or.elim ∥∥₁_prop (mem-append.0 m) (λ here. ∣ (x, mem-cons_self, here) ∣₁)
        (λ there.
          ∥∥₁_map (exists_of_mem-flat_map l b there) (λ t. (t.0, mem-cons_of_mem x t.1, t.2)))

module _ (net : Net) (max_age_secs now_unix : ℕ) where
  -- A record offers the address `addr` of `peer_id`: it was seen in time, and its key and one of its
  -- addresses parse to these.
  pub record Offers (e : String × PeerRecord) (peer_id : net.PeerId) (addr : net.Multiaddr)
      : Type 0 where
    pub fresh : now_unix - e.1.last_seen_unix ≤ max_age_secs
    pub key_parses : net.read_peer e.0 ≡ some peer_id
    pub text : String
    pub listed : Mem text e.1.addrs
    pub addr_parses : net.read_addr text ≡ some addr

  -- The three branches of one entry.
  stale :
      (e : String × PeerRecord)
      → max_age_secs < now_unix - e.1.last_seen_unix
      → entry_candidates net max_age_secs now_unix e ≡ []
  unfolding entry_candidates
  stale (key, r) h = ground arith

  unread :
      (e : String × PeerRecord)
      → net.read_peer e.0 ≡ none
      → entry_candidates net max_age_secs now_unix e ≡ []
  unfolding entry_candidates
  unread (key, r) h = ground arith

  read :
      (e : String × PeerRecord) (peer_id : net.PeerId)
      → now_unix - e.1.last_seen_unix ≤ max_age_secs
      → net.read_peer e.0 ≡ some peer_id
      → entry_candidates net max_age_secs now_unix e
        ≡ map (λ addr. (peer_id, addr)) (filter_map net.read_addr e.1.addrs)
  unfolding entry_candidates
  read (key, r) peer_id f h = ground arith

  Offers-of_read :
      (e : String × PeerRecord) (q peer_id : net.PeerId) (addr : net.Multiaddr)
      → now_unix - e.1.last_seen_unix ≤ max_age_secs
      → net.read_peer e.0 ≡ some q
      → Mem {A = net.PeerId × net.Multiaddr}
          (peer_id, addr)
          (map (λ a. (q, a)) (filter_map net.read_addr e.1.addrs))
      → ∥ Offers e peer_id addr ∥₁
  Offers-of_read e q peer_id addr fresh key m = ∥∥₁_elim (mem-map.0 m) ∥∥₁_prop λ t.
      ∥∥₁_map ((mem-filter_map net.read_addr e.1.addrs).0 t.1) λ u. record {
        fresh = fresh;
        key_parses = key ∙ ap (λ (x : net.PeerId × net.Multiaddr). some x.0) t.2;
        text = u.0;
        listed = u.1;
        addr_parses = u.2 ∙ ap (λ (x : net.PeerId × net.Multiaddr). some x.1) t.2;
      }

  Offers-of_mem :
      (e : String × PeerRecord) (peer_id : net.PeerId) (addr : net.Multiaddr)
      → Mem (peer_id, addr) (entry_candidates net max_age_secs now_unix e)
      → ∥ Offers e peer_id addr ∥₁
  Offers-of_mem e peer_id addr m = elim (dec_lt max_age_secs (now_unix - e.1.last_seen_unix)) [
    | yes old ↦ absurd (not-mem-nil (rw (stale e old) at m))
    | no young ↦ elim (Option-cases (net.read_peer e.0)) [
      | inl bad ↦ absurd (not-mem-nil (rw (unread e bad) at m))
      | inr (q, good) ↦
          let fresh : now_unix - e.1.last_seen_unix ≤ max_age_secs = omega arith in
          Offers-of_read e q peer_id addr fresh good (rw (read e q fresh good) at m)
    ]
  ]

  mem_of_offers :
      (e : String × PeerRecord) (peer_id : net.PeerId) (addr : net.Multiaddr)
      → Offers e peer_id addr
      → Mem (peer_id, addr) (entry_candidates net max_age_secs now_unix e)
  mem_of_offers e peer_id addr o = rw (read e peer_id o.fresh o.key_parses) (
      mem-map_of_mem (λ a. (peer_id, a))
        ((mem-filter_map net.read_addr e.1.addrs).1 ∣ (o.text, o.listed, o.addr_parses) ∣₁))

  -- The dial candidates are exactly the addresses that the records of the store offer: the record
  -- is no older than the limit, and its key and the address parse.
  pub mem-dial_candidates :
      (store : PeerStore) (peer_id : net.PeerId) (addr : net.Multiaddr)
      → Mem (peer_id, addr) (dial_candidates net store max_age_secs now_unix)
        ↔ ∥ ((e : String × PeerRecord) × Mem e store.peers × Offers e peer_id addr) ∥₁
  unfolding dial_candidates
  mem-dial_candidates store peer_id addr = (
    λ m.
        ∥∥₁_elim (exists_of_mem-flat_map _ store.peers _ m) ∥∥₁_prop
          (λ t. ∥∥₁_map (Offers-of_mem t.0 peer_id addr t.2) (λ o. (t.0, t.1, o))),
    λ h.
        ∥∥₁_elim h ∥∥₁_prop
          (λ t. mem-flat_map_of_mem _ store.peers t.0 _ t.1 (mem_of_offers t.0 peer_id addr t.2)),
  )
