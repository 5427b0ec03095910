-- ===== src/Maintenance/Anchor.antt =====
-- Bootstrap peers come first: nothing that other peers' hints hold keeps an isolated node from them.
use p2p_service.Prelude.{
  ℕ, suc, ◌≡◌, refl, sym, ◌∙◌, true, false, some, List, [], ◌∷◌, ◌++◌, map, arith, Bool-cases, inl,
  inr, take, if_pos, if_neg,
}
use mathlib.Core.Path.{subst}
use mathlib.Core.List.{append_assoc}
use p2p_service.HashSet.{HashSet, contains}
use p2p_service.HashSet.Laws.{contains-insert}
use p2p_service.Net.{Net}
use p2p_service.Peerstore.{PeerStore, dial_candidates}
use p2p_service.Backoff.{DialBackoff, ready, prune}
use p2p_service.Maintenance.{
  Shuffles, any, bootstrap_of, single, bootstrap_candidates, priority_candidates, tick_candidates,
  preferred_candidates, refill_candidates, peerstore_max_age_secs, max_preferred_dials_per_tick,
}
use p2p_service.Maintenance.Attempts.{Attempt, View, Pass, attempt, attempt_all, tick, fresh}
use p2p_service.Maintenance.Once.{
  peers_of, Fair, fresh-Fair, attempt_all-Fair, attempt-Fair, ready-of_same,
}

module _ (net : Net) where
  -- An attempt forgets no peer that was attempted.
  attempted_mono :
      (connected : HashSet net.PeerId) (cs : List (net.PeerId × List net.Multiaddr))
      (world : ℕ → Attempt) (pass : Pass net) (p : net.PeerId)
      → contains net.peer_eq p pass.attempted ≡ true
      → contains net.peer_eq p (attempt_all net connected cs world pass).attempted ≡ true
  unfolding attempt_all attempt
  attempted_mono connected [] world pass p h = h
  attempted_mono connected (c ∷ cs) world pass p h =
      attempted_mono connected cs (λ n. world (suc n)) _ p
        (ground (arith, contains-insert net.peer_eq c.0 p pass.attempted))

  attempt_self :
      (connected : HashSet net.PeerId) (world : ℕ → Attempt) (before : DialBackoff net.PeerId)
      (p : net.PeerId) (addrs : List net.Multiaddr) (a : Attempt) (pass : Pass net)
      → Fair net connected world before pass
      → contains net.peer_eq p connected ≡ false
      → ready net.peer_eq before p a.asked_at ≡ true
      → contains net.peer_eq p (attempt net connected (p, addrs) a pass).attempted ≡ true
  unfolding attempt
  attempt_self connected world before p addrs a pass f apart ok =
      elim (Bool-cases (contains net.peer_eq p pass.attempted)) [
        | inl known ↦ ground arith
        | inr new ↦
            rw (apart, new, attempt)
              (rw (ready-of_same net before pass.backoff p a.asked_at (f.untouched p new) ∙ ok) (
                contains-insert net.peer_eq p p pass.attempted ∙ if_pos (net.peer_eq p p) refl _ _))
      ]

  -- The loop over a list of candidates and then another.
  attempted_first :
      (connected : HashSet net.PeerId) (before : DialBackoff net.PeerId) (world : ℕ → Attempt)
      (first rest : List (net.PeerId × List net.Multiaddr)) (later : ℕ → Attempt) (number : ℕ → ℕ)
      (pass : Pass net) (p : net.PeerId)
      → ((n : ℕ) → later n ≡ world (number n))
      → Fair net connected world before pass
      → contains net.peer_eq p (peers_of net first) ≡ true
      → contains net.peer_eq p connected ≡ false
      → ((n : ℕ) → ready net.peer_eq before p (world n).asked_at ≡ true)
      → contains net.peer_eq p (attempt_all net connected (first ++ rest) later pass).attempted
        ≡ true
  unfolding contains attempt_all
  attempted_first connected before world [] rest later number pass p h f m apart open_window = cc
  attempted_first connected before world (c ∷ first) rest later number pass p h f m apart
        open_window =
      elim (net.peer_eq p c.0) [
        | yes e ↦
            attempted_mono connected (first ++ rest) (λ n. later (suc n)) _ p
              (subst
                (λ q.
                  contains net.peer_eq p (attempt net connected (q, c.1) (later 0) pass).attempted
                  ≡ true)
                e
                (attempt_self connected world before p c.1 (later 0) pass f apart
                  (rw (h 0) (open_window (number 0)))))
        | no e ↦
            attempted_first connected before world first rest (λ n. later (suc n))
              (λ n. number (suc n)) _ p (λ n. h (suc n))
              (subst (λ a. Fair net connected world before (attempt net connected c a pass))
                (sym (h 0)) (attempt-Fair net connected world before c (number 0) pass f))
              (sym (if_neg (net.peer_eq p c.0) e _ _) ∙ m) apart open_window
      ]

  contains-peers_of-single :
      (p : net.PeerId) (bootstrap : List (net.PeerId × net.Multiaddr))
      → contains net.peer_eq p (peers_of net (map (single net) bootstrap))
        ≡ contains net.peer_eq p (map (λ e. e.0) bootstrap)
  unfolding contains
  contains-peers_of-single p [] = refl
  contains-peers_of-single p (e ∷ bootstrap) = ground (arith, contains-peers_of-single p bootstrap)

  not_connected :
      (connected : HashSet net.PeerId) (p : net.PeerId)
      (bootstrap : List (net.PeerId × net.Multiaddr))
      → any (λ e. contains net.peer_eq e.0 connected) bootstrap ≡ false
      → contains net.peer_eq p (map (λ e. e.0) bootstrap) ≡ true
      → contains net.peer_eq p connected ≡ false
  unfolding contains any
  not_connected connected p [] h m = absurd (cc)
  not_connected connected p (e ∷ bootstrap) h m = elim (net.peer_eq p e.0) [
    | yes q ↦ rw q (ground arith)
    | no q ↦
        not_connected connected p bootstrap (ground arith)
          (sym (if_neg (net.peer_eq p e.0) q _ _) ∙ m)
  ]

  -- If no bootstrap peer is connected, a pass of the maintenance loop dials every bootstrap peer
  -- that the backoff table lets through all along, whatever the preferred peers and the peerstore
  -- hold.
  pub tick_anchors :
      (shuffles : Shuffles net) (low_water : ℕ) (bootstrap_multiaddrs : List net.Multiaddr)
      (now now_unix : ℕ) (snapshot : View net) (store : PeerStore) (world : ℕ → Attempt)
      (backoff : DialBackoff net.PeerId) (p : net.PeerId)
      → any
          (λ e. contains net.peer_eq e.0 snapshot.connected)
          (bootstrap_of net bootstrap_multiaddrs)
        ≡ false
      → contains net.peer_eq p (map (λ e. e.0) (bootstrap_of net bootstrap_multiaddrs)) ≡ true
      → ((n : ℕ) → ready net.peer_eq (prune backoff now) p (world n).asked_at ≡ true)
      → contains net.peer_eq p (
          peers_of net
            (tick net shuffles low_water bootstrap_multiaddrs now now_unix
              (some snapshot)
              store
              world
              backoff).dialed)
        ≡ true
  unfolding tick tick_candidates priority_candidates bootstrap_candidates
  tick_anchors shuffles low_water bootstrap_multiaddrs now now_unix snapshot store world backoff p h
        m open_window =
      let bootstrap = bootstrap_of net bootstrap_multiaddrs in
      let before = prune backoff now in
      let start = fresh-Fair net snapshot.connected world before in
      let preferred =
        take max_preferred_dials_per_tick
          (shuffles.preferred (preferred_candidates net snapshot.connected snapshot.preferred)) in
      let refill = map (single net) (
        refill_candidates net shuffles low_water snapshot.connected
          (dial_candidates net store peerstore_max_age_secs now_unix)) in
      let cs = (map (single net) bootstrap ++ preferred) ++ refill in
      let all =
        attempt_all-Fair net snapshot.connected world before cs world (λ n. n) (fresh net before)
          (λ n. refl) start in
      let reached =
        attempted_first snapshot.connected before world (map (single net) bootstrap)
          (preferred ++ refill) world (λ n. n) (fresh net before) p (λ n. refl) start
          (contains-peers_of-single p bootstrap ∙ m)
          (not_connected snapshot.connected p bootstrap h m) open_window in
      rw h (sym (all.same p) ∙ rw (append_assoc) reached)
