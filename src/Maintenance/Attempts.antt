-- ===== src/Maintenance/Attempts.antt =====
-- The dials of one pass of the maintenance loop (`run` of src/p2p/maintenance.rs).
use p2p_service.Prelude.{
  ℕ, suc, Bool, not, ◌||◌, Option, none, some, List, [], ◌∷◌, ◌++◌, if◌then◌else◌,
}
use p2p_service.HashSet
use p2p_service.HashSet.{HashSet, contains}
use p2p_service.Net.{Net}
use p2p_service.Peerstore.{PeerStore, dial_candidates}
use p2p_service.Backoff
use p2p_service.Backoff.{DialBackoff, ready, record_failure, record_success, prune}
use p2p_service.Maintenance.{
  Shuffles, tick_candidates, bootstrap_of, peerstore_max_age_secs, backoff_base, backoff_cap,
}

-- What happens at one candidate: the clock when it is looked at, whether `dial_and_wait` succeeds
-- within the timeout, the clock when it has not, and the jitter that is then drawn.
pub record Attempt : Type 0 where
  pub asked_at : ℕ
  pub reached : Bool
  pub failed_at : ℕ
  pub jittered : ℕ → ℕ

-- `NetworkSnapshot`, as the loop reads it.
pub record View (net : Net) : Type 0 where
  pub connected : HashSet net.PeerId
  pub preferred : List (net.PeerId × List net.Multiaddr)

module _ (net : Net) where
  -- The pass so far; `dialed` are the calls of `dial_and_wait`, in order.
  pub record Pass : Type 0 where
    pub backoff : DialBackoff net.PeerId
    pub attempted : HashSet net.PeerId
    pub dialed : List (net.PeerId × List net.Multiaddr)

  abbrev pub fresh : DialBackoff net.PeerId → Pass
  fresh backoff = record { backoff = backoff; attempted = []; dialed = [] }

  unfoldable pub settle : DialBackoff net.PeerId → net.PeerId → Attempt → DialBackoff net.PeerId
  settle backoff peer_id a =
      if a.reached
      then record_success net.peer_eq backoff peer_id
      else record_failure net.peer_eq a.jittered backoff peer_id a.failed_at

  unfoldable pub attempt :
      (connected : HashSet net.PeerId) → net.PeerId × List net.Multiaddr → Attempt → Pass → Pass
  unfolding settle
  attempt connected (peer_id, addrs) a pass =
      if contains net.peer_eq peer_id connected || contains net.peer_eq peer_id pass.attempted
      then pass
      else if not (ready net.peer_eq pass.backoff peer_id a.asked_at)
      then pass
      else record {
        backoff = settle pass.backoff peer_id a;
        attempted = HashSet.insert net.peer_eq peer_id pass.attempted;
        dialed = pass.dialed ++ (peer_id, addrs) ∷ [];
      }

  -- The loop; `world n` is what happens at the candidate with number `n`.
  unfoldable pub attempt_all :
      (connected : HashSet net.PeerId)
      → List (net.PeerId × List net.Multiaddr)
      → (world : ℕ → Attempt) → Pass
      → Pass
  attempt_all connected [] world pass = pass
  attempt_all connected (c ∷ cs) world pass =
      attempt_all connected cs (λ n. world (suc n)) (attempt connected c (world 0) pass)

  unfoldable pub initial : DialBackoff net.PeerId
  initial = Backoff.new backoff_base backoff_cap

  -- One round of the loop: without a snapshot only the backoff is pruned.
  unfoldable pub tick :
      Shuffles net
      → (low_water : ℕ) → (bootstrap_multiaddrs : List net.Multiaddr) → (now now_unix : ℕ)
      → Option (View net)
      → PeerStore
      → (world : ℕ → Attempt) → DialBackoff net.PeerId
      → Pass
  tick shuffles low_water bootstrap_multiaddrs now now_unix none store world backoff =
      fresh (prune backoff now)
  tick shuffles low_water bootstrap_multiaddrs now now_unix (some snapshot) store world backoff =
      attempt_all snapshot.connected
        (tick_candidates net shuffles low_water snapshot.connected
          (bootstrap_of net bootstrap_multiaddrs) snapshot.preferred
          (dial_candidates net store peerstore_max_age_secs now_unix))
        world (fresh (prune backoff now))
