-- ===== src/Maintenance/Bounds.antt =====
-- How many peers a pass dials, and at which addresses.
use p2p_service.Prelude.{
  ℕ, suc, ◌+◌, ◌-◌, ◌≤◌, ◌||◌, some, List, [], ◌∷◌, map, length, length-append, length-map,
  length-take, take, Each, Each-append, arith, inl, inr, Bool-cases,
}
use p2p_service.HashSet.{HashSet, contains}
use p2p_service.Net.{Net}
use p2p_service.Peerstore.{PeerStore, dial_candidates}
use p2p_service.Backoff.{DialBackoff, ready, prune}
use p2p_service.Maintenance.{
  Shuffles, bootstrap_of, single, bootstrap_candidates, preferred_candidates, priority_candidates,
  refill_budget, refill_candidates, tick_candidates, max_preferred_dials_per_tick,
  peerstore_max_age_secs,
}
use p2p_service.Maintenance.Attempts.{Attempt, View, Pass, attempt, attempt_all, tick, fresh}

module _ (net : Net) where
  -- A pass dials no more candidates than there are, and only them.
  pub dialed_from :
      (P : net.PeerId × List net.Multiaddr → Type 0) (connected : HashSet net.PeerId)
      (cs : List (net.PeerId × List net.Multiaddr)) (world : ℕ → Attempt) (pass : Pass net)
      → Each P cs
      → Each P pass.dialed
      → Each P (attempt_all net connected cs world pass).dialed
        × (length (attempt_all net connected cs world pass).dialed ≤ length pass.dialed + length cs)
  unfolding attempt_all attempt Each
  dialed_from P connected [] world pass h k = (k, omega arith)
  dialed_from P connected (c ∷ cs) world pass h k =
      let one = attempt-dialed c (world 0) pass h.0 k in
      let rest =
        dialed_from P connected cs (λ n. world (suc n)) (attempt net connected c (world 0) pass) h.1
          one.0 in
      (rest.0, omega (arith, rest.1, one.1))
    where
      attempt-dialed :
          (c : net.PeerId × List net.Multiaddr) (a : Attempt) (pass : Pass net)
          → P c
          → Each P pass.dialed
          → Each P (attempt net connected c a pass).dialed
            × (length (attempt net connected c a pass).dialed ≤ length pass.dialed + 1)
      attempt-dialed c a pass h k =
          elim (Bool-cases
            (contains net.peer_eq c.0 connected || contains net.peer_eq c.0 pass.attempted)) [
              | inl skip ↦ rw (skip, attempt) (k, omega arith)
              | inr go ↦ elim (Bool-cases (ready net.peer_eq pass.backoff c.0 a.asked_at)) [
                | inl ok ↦
                    rw (go, ok, attempt)
                      (
                        Each-append P pass.dialed (c ∷ []) k (h, tt),
                        omega (arith, length-append pass.dialed (c ∷ [])),
                      )
                | inr not_ready ↦ rw (go, not_ready, attempt) (k, omega arith)
              ]
            ]

  length-bootstrap_candidates :
      (connected : HashSet net.PeerId) (bootstrap : List (net.PeerId × net.Multiaddr))
      → length (bootstrap_candidates net connected bootstrap) ≤ length bootstrap
  unfolding bootstrap_candidates
  length-bootstrap_candidates connected bootstrap =
      ground (arith, length-map (single net) bootstrap)

  length-refill_candidates :
      (shuffles : Shuffles net) (low_water : ℕ) (connected : HashSet net.PeerId)
      (stored : List (net.PeerId × net.Multiaddr))
      → length (refill_candidates net shuffles low_water connected stored)
        ≤ (low_water - length connected) + 2
  unfolding refill_candidates refill_budget
  length-refill_candidates shuffles low_water connected stored = omega (
    arith,
    length-take {A = net.PeerId × net.Multiaddr} (refill_budget net low_water connected) _,
  )

  length-tick_candidates :
      (shuffles : Shuffles net) (low_water : ℕ) (connected : HashSet net.PeerId)
      (bootstrap : List (net.PeerId × net.Multiaddr))
      (preferred : List (net.PeerId × List net.Multiaddr))
      (stored : List (net.PeerId × net.Multiaddr))
      → length (tick_candidates net shuffles low_water connected bootstrap preferred stored)
        ≤ length bootstrap + max_preferred_dials_per_tick + ((low_water - length connected) + 2)
  unfolding tick_candidates priority_candidates
  length-tick_candidates shuffles low_water connected bootstrap preferred stored = omega (
    arith,
    length-append (priority_candidates net shuffles connected bootstrap preferred)
        (map (single net) (refill_candidates net shuffles low_water connected stored)),
    length-append (bootstrap_candidates net connected bootstrap) (
        take max_preferred_dials_per_tick
          (shuffles.preferred (preferred_candidates net connected preferred))),
    length-map (single net) (refill_candidates net shuffles low_water connected stored),
    length-bootstrap_candidates connected bootstrap,
    length-take max_preferred_dials_per_tick
        (shuffles.preferred (preferred_candidates net connected preferred)),
    length-refill_candidates shuffles low_water connected stored,
  )

  -- A pass dials at most every bootstrap peer, sixteen preferred ones, and two more peers of the
  -- peerstore than are missing to the low watermark.
  pub length-tick_dialed :
      (shuffles : Shuffles net) (low_water : ℕ) (bootstrap_multiaddrs : List net.Multiaddr)
      (now now_unix : ℕ) (snapshot : View net) (store : PeerStore) (world : ℕ → Attempt)
      (backoff : DialBackoff net.PeerId)
      → length
          (tick net shuffles low_water bootstrap_multiaddrs now now_unix
            (some snapshot)
            store
            world
            backoff).dialed
        ≤ length (bootstrap_of net bootstrap_multiaddrs)
          + 16
          + ((low_water - length snapshot.connected) + 2)
  unfolding tick Each
  length-tick_dialed shuffles low_water bootstrap_multiaddrs now now_unix snapshot store world
        backoff =
      let cs =
        tick_candidates net shuffles low_water snapshot.connected
          (bootstrap_of net bootstrap_multiaddrs) snapshot.preferred
          (dial_candidates net store peerstore_max_age_secs now_unix) in
      omega (
        arith,
        (dialed_from (λ c. Unit) snapshot.connected cs world (fresh net (prune backoff now))
            (anything cs) tt).1,
        length-tick_candidates shuffles low_water snapshot.connected
            (bootstrap_of net bootstrap_multiaddrs) snapshot.preferred
            (dial_candidates net store peerstore_max_age_secs now_unix),
      )
    where
      anything : (cs : List (net.PeerId × List net.Multiaddr)) → Each (λ c. Unit {0}) cs
      anything [] = tt
      anything (c ∷ cs) = (tt, anything cs)
