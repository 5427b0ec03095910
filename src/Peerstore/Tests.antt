-- ===== src/Peerstore/Tests.antt =====
-- The unit tests of src/p2p/peerstore.rs, at any peer. `make_addr` gives the address of a port, and
-- `path` and `tmp_path` are those in the temporary directory; the tests rely on libp2p and serde_json
-- reading back what they print, and on different ports giving different addresses.
use mathlib.Core.List.{flat_map, filter_map, map-append}
use p2p_service.Prelude.{
  ℕ, zero, suc, ◌≤◌, ◌+◌, ◌-◌, ◌^◌, ◌≡◌, ◌≢◌, refl, ◌∙◌, ap, Bool, true, false, ◌&&◌, Option, none,
  some, String, List, [], ◌∷◌, ◌++◌, map, length, ◌==◌, arith, String_discrete, ite, keep_last,
  some_inj, sym,
}
use p2p_service.HashMap.Laws.{get-insert}
use p2p_service.HashMap
use p2p_service.HashSet.{contains, IsDistinct}
use p2p_service.HashSet.Laws.{contains-append, append_one-IsDistinct}
use p2p_service.Peerstore.Newest.{push_all_new}
use p2p_service.Net.{Net}
use p2p_service.Peerstore.{
  PeerStore, default, max_addrs_per_peer, record_peer, dial_candidates, entry_candidates, push_all,
  push_addr, len, is_empty,
}
use p2p_service.Peerstore.File.{Files, load, save, load-save, Outcomes}

-- `u64::MAX`
abbrev u64_max : ℕ
u64_max = 2 ^ 64 - 1

-- `(0u16..n).map(make_addr).collect()`
abbrev pub ports_below {ℓ} : {A : Type ℓ} → (ℕ → A) → ℕ → List A
ports_below make_addr zero = []
ports_below make_addr (suc n) = ports_below make_addr n ++ make_addr n ∷ []

module _ (net : Net) (peer_id : net.PeerId) (make_addr : ℕ → net.Multiaddr) where
  abbrev pub is_single : List (net.PeerId × net.Multiaddr) → net.PeerId → net.Multiaddr → Bool
  is_single (c ∷ []) p addr =
      ite (net.peer_eq c.0 p) true false && ite (net.addr_eq c.1 addr) true false
  is_single _ p addr = false

  unfoldable pub record_and_get_candidates : Bool
  record_and_get_candidates =
      let addr = make_addr 4025 in
      let store = record_peer net default peer_id (addr ∷ []) 1000 in
      is_single (dial_candidates net store 3600 2000) peer_id addr

  unfoldable pub stale_peers_are_not_candidates : Bool
  stale_peers_are_not_candidates =
      let addr = make_addr 4025 in
      let store = record_peer net default peer_id (addr ∷ []) 1000 in
      length (dial_candidates net store 3600 (1000 + 3601)) == 0

  unfoldable pub addrs_per_peer_are_capped : Bool
  addrs_per_peer_are_capped =
      let addrs = ports_below make_addr 20 in
      let store = record_peer net default peer_id addrs 1000 in
      length (dial_candidates net store u64_max 1000) == max_addrs_per_peer

  module _ (to_json : PeerStore → Option String) (from_json : String → Option PeerStore) where
    -- The files of the temporary directory, before and after.
    unfoldable pub save_and_load_roundtrip : Files → (tmp_path path : String) → Outcomes → Bool
    save_and_load_roundtrip fs tmp_path path o =
        let addrs = make_addr 4025 ∷ make_addr 4026 ∷ [] in
        let store = record_peer net default peer_id addrs 1000 in
        let (saved, is_ok) = save to_json from_json store fs tmp_path path o in
        let loaded = load to_json from_json saved path in
        is_ok && (len loaded == 1) && (length (dial_candidates net loaded u64_max 1000) == 2)

    unfoldable pub corrupt_file_loads_empty : Files → String → Bool
    corrupt_file_loads_empty fs path =
        let corrupt = HashMap.insert String_discrete path "not json" fs in
        is_empty (load to_json from_json corrupt path)

  module _ (reads_peer : net.read_peer (net.show_peer peer_id) ≡ some peer_id)
      (reads_addr : (n : ℕ) → net.read_addr (net.show_addr (make_addr n)) ≡ some (make_addr n))
      (apart : (m n : ℕ) → make_addr m ≡ make_addr n → m ≡ n) where
    program : Unit {0}
    unfolding record_peer dial_candidates entry_candidates push_all push_addr len is_empty contains
        HashMap.get HashMap.insert flat_map filter_map
    program = tt

    record_and_get_candidates_lem : record_and_get_candidates ≡ true
    unfolding record_and_get_candidates program
    record_and_get_candidates_lem = ground (arith, reads_peer, reads_addr 4025)

    stale_peers_are_not_candidates_lem : stale_peers_are_not_candidates ≡ true
    unfolding stale_peers_are_not_candidates program
    stale_peers_are_not_candidates_lem = ground arith

    shown_apart : (m n : ℕ) → m ≢ n → net.show_addr (make_addr m) ≢ net.show_addr (make_addr n)
    shown_apart m n h =
        λ e. h (apart m n (some_inj (sym (reads_addr m) ∙ ap net.read_addr e ∙ reads_addr n)))

    shown_below : ℕ → List String
    shown_below n = map net.show_addr (ports_below make_addr n)

    not_shown_below :
        (n k : ℕ)
        → n ≤ k
        → contains String_discrete (net.show_addr (make_addr k)) (shown_below n) ≡ false
    unfolding shown_below contains
    not_shown_below zero k h = refl
    not_shown_below (suc n) k h = rw (map-append net.show_addr) (
        contains-append String_discrete (net.show_addr (make_addr k)) (shown_below n)
          (net.show_addr (make_addr n) ∷ [])
        ∙ ground (arith, not_shown_below n k (omega arith), shown_apart k n (omega arith)))

    shown_below-IsDistinct : (n : ℕ) → IsDistinct String_discrete (shown_below n)
    unfolding shown_below
    shown_below-IsDistinct zero = tt
    shown_below-IsDistinct (suc n) = rw (map-append net.show_addr) (
        append_one-IsDistinct String_discrete (shown_below n) (net.show_addr (make_addr n))
          (not_shown_below n n (omega arith)) (shown_below-IsDistinct n))

    -- Eight of the twenty addresses are left.
    eight_left :
        push_all [] (shown_below 20)
        ≡ map net.show_addr (map make_addr (12 ∷ 13 ∷ 14 ∷ 15 ∷ 16 ∷ 17 ∷ 18 ∷ 19 ∷ []))
    unfolding shown_below keep_last
    eight_left = push_all_new [] (shown_below 20) (shown_below-IsDistinct 20) (omega arith)

    eight_read :
        (ports : List ℕ)
        → filter_map net.read_addr (map net.show_addr (map make_addr ports)) ≡ map make_addr ports
    unfolding filter_map
    eight_read [] = refl
    eight_read (n ∷ ports) = ground (arith, reads_addr n, eight_read ports)

    abbrev stored : List String → PeerStore
    stored addrs = record {
      peers = (net.show_peer peer_id, record { addrs = addrs; last_seen_unix = 1000 }) ∷ [];
    }

    all_recorded :
        record_peer net default peer_id (ports_below make_addr 20) 1000
        ≡ stored (push_all [] (shown_below 20))
    unfolding record_peer shown_below HashMap.get HashMap.insert
    all_recorded = refl

    candidates_of_stored :
        (ports : List ℕ)
        → dial_candidates net (stored (map net.show_addr (map make_addr ports))) u64_max 1000
          ≡ map (λ addr. (peer_id, addr)) (map make_addr ports) ++ []
    unfolding dial_candidates flat_map entry_candidates
    candidates_of_stored ports = rw (reads_peer, entry_candidates) (rw (eight_read ports) refl)

    addrs_per_peer_are_capped_lem : addrs_per_peer_are_capped ≡ true
    unfolding addrs_per_peer_are_capped
    addrs_per_peer_are_capped_lem = rw (all_recorded, eight_left, candidates_of_stored) refl

    -- The store of `save_and_load_roundtrip`.
    two_addrs :
        let store = record_peer net default peer_id (make_addr 4025 ∷ make_addr 4026 ∷ []) 1000 in
        (len store ≡ 1) × (length (dial_candidates net store u64_max 1000) ≡ 2)
    unfolding program
    two_addrs =
        ground
          (arith, reads_peer, reads_addr 4025, reads_addr 4026, shown_apart 4026 4025 (omega arith))

    module _ (to_json : PeerStore → Option String) (from_json : String → Option PeerStore) where
      save_and_load_roundtrip_lem :
          (fs : Files) (tmp_path path : String) (o : Outcomes)
          → tmp_path ≢ path
          → ((store : PeerStore) (contents : String)
              → to_json store ≡ some contents
              → from_json contents ≡ some store)
          → ((store : PeerStore) → (save to_json from_json store fs tmp_path path o).1 ≡ true)
          → save_and_load_roundtrip to_json from_json fs tmp_path path o ≡ true
      unfolding save_and_load_roundtrip
      save_and_load_roundtrip_lem fs tmp_path path o other parses saves =
          let store = record_peer net default peer_id (make_addr 4025 ∷ make_addr 4026 ∷ []) 1000 in
          rw
            (
              saves store,
              load-save to_json from_json store fs tmp_path path o other (parses store)
                  (saves store),
              two_addrs.0,
              two_addrs.1,
            )
            refl

      corrupt_file_loads_empty_lem :
          (fs : Files) (path : String)
          → from_json "not json" ≡ none
          → corrupt_file_loads_empty to_json from_json fs path ≡ true
      unfolding corrupt_file_loads_empty load is_empty
      corrupt_file_loads_empty_lem fs path refused =
          ground (arith, refused, get-insert String_discrete path path "not json" fs)
