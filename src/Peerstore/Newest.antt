-- ===== src/Peerstore/Newest.antt =====
-- Which addresses of a peer are left when new ones are recorded (`record` of src/p2p/peerstore.rs).
use mathlib.Core.List.{append_assoc, append-nil, tail}
use p2p_service.Prelude.{
  ℕ, zero, suc, ◌-◌, ◌≤◌, ◌≡◌, refl, sym, ap, ◌∙◌, true, false, Option, none, some, String,
  String_discrete, List, [], ◌∷◌, ◌++◌, map, length, length-append, drop, drop-append, keep_last,
  keep_last-keep_last, length-keep_last-le, arith, ltb, Bool-cases, inl, inr,
}
use p2p_service.HashMap
use p2p_service.HashSet.{contains, IsDistinct}
use p2p_service.HashSet.Laws.{contains-append}
use p2p_service.Net.{Net}
use p2p_service.Peerstore.{
  PeerRecord, PeerStore, max_addrs_per_peer, push_addr, push_all, entry_or_new, record_peer,
}
use p2p_service.Peerstore.Addresses.{get-record_peer_self}

abbrev pub addrs_of : Option PeerRecord → List String
addrs_of none = []
addrs_of (some r) = r.addrs

addrs_of_lem : (o : Option PeerRecord) (now_unix : ℕ) → (entry_or_new o now_unix).addrs ≡ addrs_of o
unfolding entry_or_new
addrs_of_lem none now_unix = refl
addrs_of_lem (some r) now_unix = refl

tail-drop : (xs : List String) → tail xs ≡ drop 1 xs
tail-drop [] = refl
tail-drop (x ∷ xs) = refl

-- A new address comes last, and the oldest makes room for it.
push_addr_new :
    (addrs : List String) (a : String)
    → contains String_discrete a addrs ≡ false
    → length addrs ≤ max_addrs_per_peer
    → push_addr addrs a ≡ keep_last max_addrs_per_peer (addrs ++ a ∷ [])
unfolding push_addr keep_last
push_addr_new addrs a new few =
    let pushed = addrs ++ a ∷ [] in
    elim (Bool-cases (ltb max_addrs_per_peer (length pushed))) [
      | inl full ↦
          rw (new, full)
            (tail-drop pushed
              ∙ ap (λ k. drop k pushed)
                  (one_over (length pushed) full (omega (arith, length-append addrs (a ∷ [])))))
      | inr room ↦ rw (new, room) (ap (λ k. drop k pushed) (none_over (length pushed) room))
    ]
  where
    one_over : (n : ℕ) → ltb max_addrs_per_peer n ≡ true → n ≤ 9 → 1 ≡ n - 8
    one_over n h k = ground arith

    none_over : (n : ℕ) → ltb max_addrs_per_peer n ≡ false → 0 ≡ n - 8
    none_over n h = ground arith

drop-IsDistinct :
    (n : ℕ) (xs : List String)
    → IsDistinct String_discrete xs
    → IsDistinct String_discrete (drop n xs)
drop-IsDistinct zero xs d = d
drop-IsDistinct (suc n) [] d = tt
drop-IsDistinct (suc n) (x ∷ xs) d = drop-IsDistinct n xs d.1

-- The last of two lists is not in the first, where no element stands twice.
apart_from_last :
    (xs : List String) (a : String) (ys : List String)
    → IsDistinct String_discrete (xs ++ a ∷ ys)
    → contains String_discrete a xs ≡ false
unfolding contains
apart_from_last [] a ys d = refl
apart_from_last (x ∷ xs) a ys d =
    ground (arith, d, contains-append String_discrete x xs (a ∷ ys), apart_from_last xs a ys d.1)

keep_last_few :
    (xs : List String) → length xs ≤ max_addrs_per_peer → keep_last max_addrs_per_peer xs ≡ xs
unfolding keep_last
keep_last_few xs h = ap (λ k. drop k xs) (none_left (length xs) h)
  where
    none_left : (n : ℕ) → n ≤ 8 → n - 8 ≡ 0
    none_left n h = omega arith

keep_last-IsDistinct :
    (n : ℕ) (xs ys : List String)
    → IsDistinct String_discrete (xs ++ ys)
    → IsDistinct String_discrete (keep_last n xs ++ ys)
unfolding keep_last
keep_last-IsDistinct n xs ys d =
    rw (drop-append (length xs - n) xs ys (omega arith))
      (drop-IsDistinct (length xs - n) (xs ++ ys) d)

-- Recording addresses that are new, and none of them twice, keeps the newest eight.
pub push_all_new :
    (addrs new : List String)
    → IsDistinct String_discrete (addrs ++ new)
    → length addrs ≤ max_addrs_per_peer
    → push_all addrs new ≡ keep_last max_addrs_per_peer (addrs ++ new)
unfolding push_all
push_all_new addrs [] d few = rw append-nil (sym (keep_last_few addrs few))
push_all_new addrs (a ∷ rest) d few =
    let pushed = addrs ++ a ∷ [] in
    let kept = keep_last max_addrs_per_peer pushed in
    let first : push_addr addrs a ≡ kept =
      push_addr_new addrs a (apart_from_last addrs a rest d) few in
    let apart : IsDistinct String_discrete (kept ++ rest) =
      keep_last-IsDistinct max_addrs_per_peer pushed rest (rw (append_assoc) d) in
    ap (λ xs. push_all xs rest) first
    ∙ push_all_new kept rest apart (length-keep_last-le max_addrs_per_peer pushed)
    ∙ keep_last-keep_last max_addrs_per_peer pushed rest
    ∙ ap (keep_last max_addrs_per_peer) (append_assoc addrs (a ∷ []) rest)

module _ (net : Net) (store : PeerStore) (peer_id : net.PeerId) where
  -- The addresses on record, none for an unknown peer.
  abbrev pub known_addrs : List String
  known_addrs = addrs_of (HashMap.get String_discrete (net.show_peer peer_id) store.peers)

  -- If at most eight addresses of a peer are on record, and the printed addresses of a call are
  -- none of them and none twice, then the record of the peer holds afterwards the last eight of
  -- those on record and the new ones after them, in order, and the time of the call.
  pub record_peer_keeps :
      (addrs : List net.Multiaddr) (now_unix : ℕ)
      → length known_addrs ≤ max_addrs_per_peer
      → IsDistinct String_discrete (known_addrs ++ map net.show_addr addrs)
      → HashMap.get String_discrete
          (net.show_peer peer_id)
          (record_peer net store peer_id addrs now_unix).peers
        ≡ some (record {
          addrs = keep_last max_addrs_per_peer (known_addrs ++ map net.show_addr addrs);
          last_seen_unix = now_unix;
        })
  record_peer_keeps addrs now_unix few d =
      let known = HashMap.get String_discrete (net.show_peer peer_id) store.peers in
      get-record_peer_self net store peer_id addrs now_unix
      ∙ ap (λ xs. some (record { addrs = xs; last_seen_unix = now_unix }))
          (ap (λ old. push_all old (map net.show_addr addrs)) (addrs_of_lem known now_unix)
            ∙ push_all_new known_addrs (map net.show_addr addrs) d few)
