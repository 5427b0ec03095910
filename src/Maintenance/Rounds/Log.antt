-- ===== src/Maintenance/Rounds/Log.antt =====
-- The dials of the maintenance loop one after the other, each with what happened at it.
use mathlib.Core.List.{map-append, append_assoc, append-nil, flat_map}
use p2p_service.Prelude.{
  ℕ, suc, Option, ◌≡◌, refl, sym, ap, ◌∙◌, Bool, true, false, not, ◌||◌, none, some, List, [], ◌∷◌,
  ◌++◌, map, arith, Bool-cases, inl, inr, if◌then◌else◌,
}
use p2p_service.HashSet
use p2p_service.HashSet.{HashSet, contains}
use p2p_service.Net.{Net}
use p2p_service.Peerstore.{dial_candidates}
use p2p_service.Backoff.{DialBackoff, ready, prune}
use p2p_service.Maintenance.{tick_candidates, bootstrap_of, peerstore_max_age_secs}
use p2p_service.Maintenance.Attempts.{
  Attempt, View, Pass, fresh, attempt, attempt_all, tick, settle,
}
use p2p_service.Maintenance.Once.{peers_of}
use p2p_service.Maintenance.Rounds.{Round, pass_of, passes}

-- A dial and what happened at it.
abbrev pub Dial : Net → Type 0
Dial net = net.PeerId × Attempt

module _ (net : Net) where
  -- The candidate is skipped: its peer is connected, was attempted in this pass, or backs off.
  abbrev pub skips : HashSet net.PeerId → net.PeerId → Attempt → Pass net → Bool
  skips connected p a pass =
      (contains net.peer_eq p connected || contains net.peer_eq p pass.attempted)
      || not (ready net.peer_eq pass.backoff p a.asked_at)

  -- The pass after a dial.
  abbrev pub dialed_pass : net.PeerId × List net.Multiaddr → Attempt → Pass net → Pass net
  dialed_pass c a pass = record {
    backoff = settle net pass.backoff c.0 a;
    attempted = HashSet.insert net.peer_eq c.0 pass.attempted;
    dialed = pass.dialed ++ c ∷ [];
  }

  pub attempt_skipped :
      (connected : HashSet net.PeerId) (c : net.PeerId × List net.Multiaddr) (a : Attempt)
      (pass : Pass net)
      → skips connected c.0 a pass ≡ true
      → attempt net connected c a pass ≡ pass
  unfolding attempt
  attempt_skipped connected (p, addrs) a pass h = ground arith

  pub attempt_dialed :
      (connected : HashSet net.PeerId) (c : net.PeerId × List net.Multiaddr) (a : Attempt)
      (pass : Pass net)
      → skips connected c.0 a pass ≡ false
      → attempt net connected c a pass ≡ dialed_pass c a pass
  unfolding attempt
  attempt_dialed connected (p, addrs) a pass h = ground arith

  unfoldable pub log_all :
      HashSet net.PeerId
      → List (net.PeerId × List net.Multiaddr)
      → (world : ℕ → Attempt) → Pass net
      → List (Dial net)
  log_all connected [] world pass = []
  log_all connected (c ∷ cs) world pass =
      let rest =
        log_all connected cs (λ n. world (suc n)) (attempt net connected c (world 0) pass) in
      if skips connected c.0 (world 0) pass then rest else (c.0, world 0) ∷ rest

  -- One step of the loop and of its log.
  module _ (connected : HashSet net.PeerId) (c : net.PeerId × List net.Multiaddr)
      (cs : List (net.PeerId × List net.Multiaddr)) (world : ℕ → Attempt) (pass : Pass net) where
    abbrev later : ℕ → Attempt
    later n = world (suc n)

    pub attempt_all_skipped :
        skips connected c.0 (world 0) pass ≡ true
        → (attempt_all net connected (c ∷ cs) world pass ≡ attempt_all net connected cs later pass)
          × (log_all connected (c ∷ cs) world pass ≡ log_all connected cs later pass)
    unfolding attempt_all log_all
    attempt_all_skipped h =
        let e = attempt_skipped connected c (world 0) pass h in
        (ap (attempt_all net connected cs later) e, rw h (ap (log_all connected cs later) e))

    pub attempt_all_dialed :
        skips connected c.0 (world 0) pass ≡ false
        → let next = dialed_pass c (world 0) pass in
          (attempt_all net connected (c ∷ cs) world pass ≡ attempt_all net connected cs later next)
          × (log_all connected (c ∷ cs) world pass
              ≡ (c.0, world 0) ∷ log_all connected cs later next)
    unfolding attempt_all log_all
    attempt_all_dialed h =
        let e = attempt_dialed connected c (world 0) pass h in
        (
          ap (attempt_all net connected cs later) e,
          rw h (ap (λ l. (c.0, world 0) ∷ log_all connected cs later l) e),
        )

  pub log_all_lem :
      (connected : HashSet net.PeerId) (cs : List (net.PeerId × List net.Multiaddr))
      (world : ℕ → Attempt) (pass : Pass net)
      → peers_of net (attempt_all net connected cs world pass).dialed
        ≡ peers_of net pass.dialed ++ map (λ e. e.0) (log_all connected cs world pass)
  unfolding attempt_all log_all
  log_all_lem connected [] world pass = sym (append-nil _)
  log_all_lem connected (c ∷ cs) world pass =
      elim (Bool-cases (skips connected c.0 (world 0) pass)) [
        | inl skip ↦
            let step = attempt_all_skipped connected c cs world pass skip in
            ap (λ (p : Pass net). peers_of net p.dialed) step.0
            ∙ log_all_lem connected cs (λ n. world (suc n)) pass
            ∙ ap (λ l. peers_of net pass.dialed ++ map (λ e. e.0) l) (sym step.1)
        | inr go ↦
            let step = attempt_all_dialed connected c cs world pass go in
            ap (λ (p : Pass net). peers_of net p.dialed) step.0
            ∙ log_all_lem connected cs (λ n. world (suc n)) (dialed_pass c (world 0) pass)
            ∙ (simp (map-append, append_assoc))
            ∙ ap (λ l. peers_of net pass.dialed ++ map (λ e. e.0) l) (sym step.1)
      ]

  module _ (low_water : ℕ) (bootstrap_multiaddrs : List net.Multiaddr) where
    -- The dials of one round; without a snapshot there are none.
    unfoldable pub log_at : DialBackoff net.PeerId → Round net → Option (View net) → List (Dial net)
    log_at backoff r none = []
    log_at backoff r (some snapshot) =
        log_all snapshot.connected
          (tick_candidates net r.shuffles low_water snapshot.connected
            (bootstrap_of net bootstrap_multiaddrs) snapshot.preferred
            (dial_candidates net r.store peerstore_max_age_secs r.now_unix))
          r.world (fresh net (prune backoff r.now))

    unfoldable pub log_of : DialBackoff net.PeerId → Round net → List (Dial net)
    unfolding log_at log_all
    log_of backoff r = log_at backoff r r.snapshot

    -- The dials of all rounds.
    unfoldable pub log_from : DialBackoff net.PeerId → List (Round net) → List (Dial net)
    unfolding log_of
    log_from backoff [] = []
    log_from backoff (r ∷ rs) =
        log_of backoff r
        ++ log_from (pass_of net low_water bootstrap_multiaddrs backoff r).backoff rs

    log_at_lem :
        (backoff : DialBackoff net.PeerId) (r : Round net) (snapshot : Option (View net))
        → map (λ e. e.0) (log_at backoff r snapshot)
          ≡ peers_of net
              (tick net r.shuffles low_water bootstrap_multiaddrs r.now r.now_unix snapshot r.store
                r.world backoff).dialed
    unfolding log_at tick
    log_at_lem backoff r none = refl
    log_at_lem backoff r (some snapshot) =
        sym (log_all_lem snapshot.connected _ r.world (fresh net (prune backoff r.now)))

    -- The log lists the peers that the passes dialed.
    pub log_from_lem :
        (backoff : DialBackoff net.PeerId) (rs : List (Round net))
        → map (λ e. e.0) (log_from backoff rs)
          ≡ flat_map
              (λ (pass : Pass net). peers_of net pass.dialed)
              (passes net low_water bootstrap_multiaddrs backoff rs)
    unfolding log_from log_of passes flat_map
    log_from_lem backoff [] = refl
    log_from_lem backoff (r ∷ rs) =
        rw
          (
            map-append (λ (e : Dial net). e.0),
            log_at_lem backoff r r.snapshot,
            log_from_lem (pass_of net low_water bootstrap_multiaddrs backoff r).backoff rs,
          )
          refl
