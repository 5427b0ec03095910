-- ===== src/Peerstore.antt =====
-- src/p2p/peerstore.rs. Keys and addresses are kept as text, as in the file; the clock is an
-- argument of each call.
pub mod Addresses
pub mod Newest
pub mod Candidates
pub mod Origins
pub mod File
pub mod Tests
mod Examples
use mathlib.Core.List.{flat_map, filter_map, tail}
use p2p_service.Prelude.{
  ℕ, ◌+◌, ◌-◌, ◌≡◌, Bool, Option, none, some, String, List, [], ◌∷◌, ◌++◌, map, length, ltb, ◌==◌,
  if◌then◌else◌, String_discrete,
}
use p2p_service.HashMap
use p2p_service.HashMap.{HashMap}
use p2p_service.HashSet.{contains}
use p2p_service.Net.{Net}

pub record PeerRecord : Type 0 where
  pub addrs : List String
  pub last_seen_unix : ℕ

pub record PeerStore : Type 0 where
  pub peers : HashMap String PeerRecord

abbrev pub max_addrs_per_peer : ℕ
max_addrs_per_peer = 8

-- `PeerStore::default()`
abbrev pub default : PeerStore
default = record { peers = [] }

-- One round of the loop over the addresses: a new one is pushed, and the oldest makes room.
unfoldable pub push_addr : List String → String → List String
push_addr addrs addr =
    if contains String_discrete addr addrs
    then addrs
    else (let pushed = addrs ++ addr ∷ [] in
        if ltb max_addrs_per_peer (length pushed) then tail pushed else pushed)

unfoldable pub push_all : List String → List String → List String
push_all addrs [] = addrs
push_all addrs (a ∷ rest) = push_all (push_addr addrs a) rest

-- The entry of the peer, or the fresh one that `or_insert_with` makes.
unfoldable pub entry_or_new : Option PeerRecord → ℕ → PeerRecord
entry_or_new none now_unix = record { addrs = []; last_seen_unix = now_unix }
entry_or_new (some r) now_unix = r

module _ (net : Net) where
  -- `record`
  unfoldable pub record_peer : PeerStore → net.PeerId → List net.Multiaddr → ℕ → PeerStore
  unfolding entry_or_new
  record_peer store peer_id addrs now_unix =
      let key = net.show_peer peer_id in
      let entry = entry_or_new (HashMap.get String_discrete key store.peers) now_unix in
      record store {
        peers =
            HashMap.insert String_discrete key
              (record {
                addrs = push_all entry.addrs (map net.show_addr addrs);
                last_seen_unix = now_unix;
              })
              store.peers;
      }

  -- The candidates of one entry: none if it is too old, or if its key or an address does not parse.
  unfoldable pub entry_candidates :
      (max_age_secs now_unix : ℕ) → String × PeerRecord → List (net.PeerId × net.Multiaddr)
  entry_candidates max_age_secs now_unix (key, entry) =
      if ltb max_age_secs (now_unix - entry.last_seen_unix) then [] else elim (net.read_peer key) [
        | none ↦ []
        | some peer_id ↦ map (λ addr. (peer_id, addr)) (filter_map net.read_addr entry.addrs)
      ]

  unfoldable pub dial_candidates :
      PeerStore → (max_age_secs now_unix : ℕ) → List (net.PeerId × net.Multiaddr)
  unfolding entry_candidates
  dial_candidates store max_age_secs now_unix =
      flat_map (entry_candidates max_age_secs now_unix) store.peers

unfoldable pub len : PeerStore → ℕ
len store = length store.peers

unfoldable pub is_empty : PeerStore → Bool
is_empty store = length store.peers == 0
