-- ===== src/Peerstore/Addresses.antt =====
-- The addresses that `record` keeps for a peer.
use mathlib.Core.List.{tail, map-append}
use mathlib.Core.Path.{subst}
use p2p_service.Prelude.{
  ℕ, ◌≤◌, ◌≡◌, ◌≢◌, refl, sym, true, Option, none, some, String, List, [], ◌∷◌, ◌++◌, map, length,
  length-append, String_discrete, arith, if_pos, if_neg, ◌∙◌, some_inj,
}
use p2p_service.HashMap
use p2p_service.HashMap.Laws.{get-insert}
use p2p_service.HashSet.{contains, IsDistinct}
use p2p_service.HashSet.Laws.{contains-append, append_one-IsDistinct}
use p2p_service.Net.{Net}
use p2p_service.Peerstore.{
  PeerRecord, PeerStore, max_addrs_per_peer, push_addr, push_all, entry_or_new, record_peer,
}

tail-IsDistinct :
    (xs : List String) → IsDistinct String_discrete xs → IsDistinct String_discrete (tail xs)
tail-IsDistinct [] d = tt
tail-IsDistinct (x ∷ xs) d = d.1

length-tail : (xs : List String) (a : String) → length (tail (xs ++ a ∷ [])) ≡ length xs
length-tail [] a = refl
length-tail (x ∷ xs) a = omega (arith, length-append xs (a ∷ []))

-- At most eight addresses, none of them twice.
pub record IsKept (addrs : List String) : Type 0 where
  pub bounded : length addrs ≤ max_addrs_per_peer
  pub distinct : IsDistinct String_discrete addrs

push_addr-IsKept : (addrs : List String) (a : String) → IsKept addrs → IsKept (push_addr addrs a)
unfolding push_addr
push_addr-IsKept addrs a k = record {
  bounded = ground (arith, length-tail addrs a, length-append addrs (a ∷ []));
  distinct =
      ground
        (arith, append_one-IsDistinct String_discrete addrs a, tail-IsDistinct (addrs ++ a ∷ []));
}

push_all-IsKept : (addrs new : List String) → IsKept addrs → IsKept (push_all addrs new)
unfolding push_all
push_all-IsKept addrs [] k = k
push_all-IsKept addrs (a ∷ rest) k =
    push_all-IsKept (push_addr addrs a) rest (push_addr-IsKept addrs a k)

contains_last : (xs : List String) (a : String) → contains String_discrete a (xs ++ a ∷ []) ≡ true
unfolding contains
contains_last xs a = ground (arith, contains-append String_discrete a xs (a ∷ []))

contains-push_addr :
    (addrs : List String) (a : String) → contains String_discrete a (push_addr addrs a) ≡ true
unfolding push_addr
contains-push_addr [] a = ground (arith, contains_last [] a)
contains-push_addr (x ∷ xs) a = ground (arith, contains_last (x ∷ xs) a, contains_last xs a)

push_all-append :
    (addrs new more : List String)
    → push_all addrs (new ++ more) ≡ push_all (push_all addrs new) more
unfolding push_all
push_all-append addrs [] more = refl
push_all-append addrs (a ∷ new) more = push_all-append (push_addr addrs a) new more

-- Every record of the store keeps its addresses within the limit.
abbrev pub IsBounded : PeerStore → Type 0
IsBounded store =
    (key : String) (r : PeerRecord)
    → HashMap.get String_discrete key store.peers ≡ some r
    → IsKept r.addrs

entry_or_new-IsKept :
    (o : Option PeerRecord) (now_unix : ℕ)
    → ((r : PeerRecord) → o ≡ some r → IsKept r.addrs)
    → IsKept (entry_or_new o now_unix).addrs
unfolding entry_or_new
entry_or_new-IsKept none now_unix h = record { bounded = omega arith; distinct = tt }
entry_or_new-IsKept (some r) now_unix h = h r refl

module _ (net : Net) (store : PeerStore) (peer_id : net.PeerId) where
  -- What recording a peer leaves of its record.
  pub get-record_peer_self :
      (addrs : List net.Multiaddr) (now_unix : ℕ)
      → let key = net.show_peer peer_id in
        let before = entry_or_new (HashMap.get String_discrete key store.peers) now_unix in
        HashMap.get String_discrete key (record_peer net store peer_id addrs now_unix).peers
        ≡ some (record {
          addrs = push_all before.addrs (map net.show_addr addrs);
          last_seen_unix = now_unix;
        })
  unfolding record_peer
  get-record_peer_self addrs now_unix =
      get-insert String_discrete (net.show_peer peer_id) (net.show_peer peer_id) _ store.peers
      ∙ if_pos (String_discrete (net.show_peer peer_id) (net.show_peer peer_id)) refl _ _

  -- Recording a peer leaves every other peer's record as it was.
  pub get-record_peer_ne :
      (addrs : List net.Multiaddr) (now_unix : ℕ) (key : String)
      → key ≢ net.show_peer peer_id
      → HashMap.get String_discrete key (record_peer net store peer_id addrs now_unix).peers
        ≡ HashMap.get String_discrete key store.peers
  unfolding record_peer
  get-record_peer_ne addrs now_unix key h =
      get-insert String_discrete (net.show_peer peer_id) key _ store.peers
      ∙ if_neg (String_discrete key (net.show_peer peer_id)) h _ _

  -- If every record of the store has at most eight addresses, all distinct, recording a peer keeps
  -- it so.
  pub record_peer-IsBounded :
      (addrs : List net.Multiaddr) (now_unix : ℕ)
      → IsBounded store
      → IsBounded (record_peer net store peer_id addrs now_unix)
  record_peer-IsBounded addrs now_unix b key r h =
      elim (String_discrete key (net.show_peer peer_id)) [
        | yes e ↦
            let here = get-record_peer_self addrs now_unix in
            subst (λ (x : PeerRecord). IsKept x.addrs)
              (some_inj (
                sym here
                ∙ subst
                    (λ k.
                      HashMap.get String_discrete k
                        (record_peer net store peer_id addrs now_unix).peers
                      ≡ some r)
                    e h))
              (push_all-IsKept _ (map net.show_addr addrs)
                (entry_or_new-IsKept _ now_unix (b (net.show_peer peer_id))))
        | no e ↦ b key r (sym (get-record_peer_ne addrs now_unix key e) ∙ h)
      ]

  -- The address that was given last is in the record afterwards, which is stamped with the time of
  -- the call.
  pub record_peer_newest :
      (addrs : List net.Multiaddr) (addr : net.Multiaddr) (now_unix : ℕ)
      → (r : PeerRecord) × (HashMap.get String_discrete
            (net.show_peer peer_id)
            (record_peer net store peer_id (addrs ++ addr ∷ []) now_unix).peers
          ≡ some r)
        × (r.last_seen_unix ≡ now_unix)
        × (contains String_discrete (net.show_addr addr) r.addrs ≡ true)
  unfolding push_all
  record_peer_newest addrs addr now_unix =
      let before =
        entry_or_new (HashMap.get String_discrete (net.show_peer peer_id) store.peers) now_unix in
      (
        _,
        get-record_peer_self (addrs ++ addr ∷ []) now_unix,
        refl,
        rw map-append (
            rw push_all-append (
              contains-push_addr (push_all before.addrs (map net.show_addr addrs))
                (net.show_addr addr))),
      )
