-- ===== src/Startup/Checks.antt =====
-- What the checks of startup guarantee to the rest of the program.
use mathlib.Core.List.{append_assoc, append-nil}
use p2p_service.Prelude.{
  ◌≤◌, ◌<◌, ◌≡◌, ◌↔◌, ◌∙◌, sym, refl, true, false, ◌||◌, String, List, [], ◌∷◌, ◌++◌, if◌then◌else◌,
  String_discrete, arith, Bool-cases, inl, inr,
}
use p2p_service.HashSet.{contains, IsDistinct, from_list}
use p2p_service.HashSet.Laws.{insert-IsDistinct, append_one-IsDistinct, contains-append}
use p2p_service.Net.{Net}
use p2p_service.Deps.{Deps, ok}
use p2p_service.Config.{P2pConfig}
use p2p_service.Startup.{validate_config, dedup_from, dedup_topics, bootstrap_peer_ids}

-- The bounds that the configuration has to keep.
pub record IsValid (d : Deps) (p2p : P2pConfig d) : Type 0 where
  pub ordered : p2p.low_water ≤ p2p.high_water
  pub capped : 0 < p2p.per_subnet_cap
  pub share : d.in_unit_range p2p.max_protected_share ≡ true
  pub paced : 0 < p2p.maintenance_interval_secs

-- A configuration passes exactly if its watermarks are ordered, the subnet cap and the interval
-- are at least one, and the protected share lies between 0 and 1.
pub validate_config-IsValid :
    (d : Deps) (p2p : P2pConfig d) → (validate_config d p2p ≡ ok) ↔ IsValid d p2p
unfolding validate_config
validate_config-IsValid d p2p = (sound, complete)
  where
    sound : validate_config d p2p ≡ ok → IsValid d p2p
    sound h = record {
      ordered = ground arith;
      capped = ground arith;
      share = ground arith;
      paced = ground arith;
    }

    complete : IsValid d p2p → validate_config d p2p ≡ ok
    complete v = ground (arith, v.ordered, v.capped, v.share, v.paced)

dedup_from-IsDistinct :
    (seen topics : List String)
    → IsDistinct String_discrete seen
    → IsDistinct String_discrete (dedup_from seen topics)
unfolding dedup_from
dedup_from-IsDistinct seen [] u = u
dedup_from-IsDistinct seen (t ∷ topics) u = elim (Bool-cases (contains String_discrete t seen)) [
  | inl known ↦ rw known (dedup_from-IsDistinct seen topics u)
  | inr new ↦ rw new (
      dedup_from-IsDistinct (seen ++ t ∷ []) topics
        (append_one-IsDistinct String_discrete seen t new u))
]

contains-dedup_from :
    (a : String) (seen topics : List String)
    → contains String_discrete a (dedup_from seen topics)
      ≡ (contains String_discrete a seen || contains String_discrete a topics)
unfolding dedup_from contains
contains-dedup_from a seen [] = ground arith
contains-dedup_from a seen (t ∷ topics) = ground (
  arith,
  contains-dedup_from a (if contains String_discrete t seen then seen else seen ++ t ∷ []) topics,
  contains-append String_discrete a seen (t ∷ []),
)

dedup_from_distinct :
    (seen topics : List String)
    → IsDistinct String_discrete (seen ++ topics)
    → dedup_from seen topics ≡ seen ++ topics
unfolding dedup_from contains
dedup_from_distinct seen [] u = sym (append-nil seen)
dedup_from_distinct seen (t ∷ topics) u = rw (not_seen seen u) (
    dedup_from_distinct (seen ++ t ∷ []) topics (rw append_assoc u)
    ∙ append_assoc seen (t ∷ []) topics)
  where
    not_seen :
        (seen : List String)
        → IsDistinct String_discrete (seen ++ t ∷ topics)
        → contains String_discrete t seen ≡ false
    not_seen [] u = refl
    not_seen (x ∷ xs) u =
        ground (arith, not_seen xs u.1, contains-append String_discrete x xs (t ∷ topics))

-- Each topic is subscribed to once: the deduplicated topics are the configured ones, and none
-- stands twice.
pub dedup_topics_lem :
    (topics : List String) (a : String)
    → IsDistinct String_discrete (dedup_topics topics)
      × (contains String_discrete a (dedup_topics topics) ≡ contains String_discrete a topics)
unfolding dedup_topics contains
dedup_topics_lem topics a = (dedup_from-IsDistinct [] topics tt, contains-dedup_from a [] topics)

-- Topics without repetitions are left as they are by the deduplication, in order.
pub dedup_topics_distinct :
    (topics : List String) → IsDistinct String_discrete topics → dedup_topics topics ≡ topics
unfolding dedup_topics
dedup_topics_distinct topics u = dedup_from_distinct [] topics u

from_list-IsDistinct :
    {A : Type 0} (dec : Discrete A) (xs : List A) → IsDistinct dec (from_list dec xs)
unfolding from_list
from_list-IsDistinct dec [] = tt
from_list-IsDistinct dec (x ∷ xs) =
    insert-IsDistinct dec x (from_list dec xs) (from_list-IsDistinct dec xs)

pub bootstrap_peer_ids-IsDistinct :
    (net : Net) (peers : List net.Multiaddr) → IsDistinct net.peer_eq (bootstrap_peer_ids net peers)
unfolding bootstrap_peer_ids
bootstrap_peer_ids-IsDistinct net peers = from_list-IsDistinct net.peer_eq _
