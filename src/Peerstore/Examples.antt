-- ===== src/Peerstore/Examples.antt =====
-- The theorems about the peerstore at concrete inputs, and tests of the source.
use mathlib.Core.List.{Mem, flat_map, filter_map}
use p2p_service.Prelude.{
  ◌≡◌, ◌↔◌, refl, true, Option, some, [], ◌∷◌, String, String_discrete, String-ne, keep_last, ◌++◌,
  map, arith,
}
use p2p_service.HashMap
use p2p_service.HashSet.{contains}
use p2p_service.Samples.{sample_net}
use p2p_service.Peerstore.{
  PeerRecord, PeerStore, default, push_addr, push_all, record_peer, entry_candidates,
  dial_candidates,
}
use p2p_service.Peerstore.Addresses
use p2p_service.Peerstore.Addresses.{IsBounded}
use p2p_service.Peerstore.Candidates
use p2p_service.Peerstore.Newest
use p2p_service.Peerstore.File

program : Unit {0}
unfolding record_peer push_all push_addr dial_candidates entry_candidates HashMap.get HashMap.insert
    HashMap.remove contains flat_map filter_map String_discrete File.save File.load
program = tt

-- One peer, seen at 1000.
abbrev one_peer : PeerStore
one_peer = record { peers = ("Qann", record { addrs = "/lan1" ∷ []; last_seen_unix = 1000 }) ∷ [] }

first_record : record_peer sample_net default "ann" ("lan1" ∷ []) 1000 ≡ one_peer
unfolding program
first_record = refl

-- `record_and_get_candidates` and `stale_peers_are_not_candidates` of the source.
fresh_candidate : dial_candidates sample_net one_peer 3600 2000 ≡ ("ann", "lan1") ∷ []
unfolding program
fresh_candidate = refl

stale_candidate : dial_candidates sample_net one_peer 3600 4601 ≡ []
unfolding program
stale_candidate = refl

default-IsBounded : IsBounded default
unfolding HashMap.get
default-IsBounded key r h = cc

record_peer-IsBounded_example : IsBounded (record_peer sample_net default "ann" ("lan1" ∷ []) 1000)
record_peer-IsBounded_example =
    Addresses.record_peer-IsBounded sample_net default "ann" ("lan1" ∷ []) 1000 default-IsBounded

-- One more address for a peer with one on record.
record_peer_keeps_example :
    HashMap.get String_discrete "Qann"
      (record_peer sample_net one_peer "ann" ("lan2" ∷ []) 1001).peers
    ≡ some (record {
      addrs = keep_last 8 (("/lan1" ∷ []) ++ map sample_net.show_addr ("lan2" ∷ []));
      last_seen_unix = 1001;
    })
unfolding HashMap.get contains String_discrete
record_peer_keeps_example =
    Newest.record_peer_keeps sample_net one_peer "ann" ("lan2" ∷ []) 1001 (omega arith)
      (refl, (refl, tt))

mem-dial_candidates_example :
    Mem {A = String × String} ("ann", "lan1") (dial_candidates sample_net one_peer 3600 2000)
    ↔ ∥ (
        (e : String × PeerRecord) × Mem e one_peer.peers
        × Candidates.Offers sample_net 3600 2000 e "ann" "lan1") ∥₁
mem-dial_candidates_example =
    Candidates.mem-dial_candidates sample_net 3600 2000 one_peer "ann" "lan1"

-- A serialiser that knows one store.
abbrev to_json : PeerStore → Option String
to_json store = some "one"

abbrev from_json : String → Option PeerStore
from_json text = some one_peer

load-save_example :
    File.load to_json from_json
      (File.save to_json from_json one_peer [] "tmp" "json"
        (record { write = File.written; renamed = true })).0
      "json"
    ≡ one_peer
unfolding program
load-save_example =
    File.load-save to_json from_json one_peer [] "tmp" "json"
      (record { write = File.written; renamed = true }) (String-ne "tmp" "json" refl) (λ c h. refl)
      refl

-- A write that is cut short, with an older file in place.
save_failed_example :
    HashMap.get String_discrete "json"
      (File.save to_json from_json one_peer
        (("json", "old") ∷ [])
        "tmp"
        "json"
        (record { write = File.cut_short "{"; renamed = true })).0
    ≡ some "old"
unfolding program
save_failed_example =
    File.save_failed to_json from_json one_peer (("json", "old") ∷ []) "tmp" "json"
      (record { write = File.cut_short "{"; renamed = true }) (String-ne "tmp" "json" refl) refl
