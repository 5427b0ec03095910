-- ===== src/Maintenance/Rounds/Anchored.antt =====
-- How soon the maintenance loop comes back to the bootstrap peers of an isolated node.
use mathlib.Core.Path.{subst}
use p2p_service.Prelude.{
  ℕ, suc, ◌+◌, ◌*◌, ◌/◌, ◌≤◌, ◌≡◌, refl, sym, ap, ◌∙◌, true, false, Option, none, some, List, [],
  ◌∷◌, ◌++◌, map, Each, arith, Bool-cases, Option-cases, inl, inr,
}
use p2p_service.HashMap
use p2p_service.HashMap.{IsUnique}
use p2p_service.HashSet.{HashSet, contains}
use p2p_service.Net.{Net}
use p2p_service.Backoff.{DialBackoff, BackoffState, ready, prune, capped_delay}
use p2p_service.Backoff
use p2p_service.Backoff.Readiness.{prune_recent}
use p2p_service.Maintenance.{any, bootstrap_of, backoff_base, backoff_cap}
use p2p_service.Maintenance.Attempts.{
  Attempt, View, Pass, fresh, attempt, attempt_all, tick, settle, initial,
}
use p2p_service.Maintenance.Anchor.{tick_anchors}
use p2p_service.Maintenance.Once.{peers_of}
use p2p_service.Maintenance.Table.{
  failure_of, get-settle, get-settle_failed, get-settle_reached, IsTable, settle-IsTable,
  prune-IsTable, initial-IsTable,
}
use p2p_service.Maintenance.Rounds.{Round, pass_of, passes, run}

-- No delay of the loop is more than the cap.
capped_delay-le : (failures : ℕ) → capped_delay backoff_base backoff_cap failures ≤ backoff_cap
unfolding capped_delay
capped_delay-le failures = omega arith

module _ (net : Net) where
  -- A table of the loop in which every window has ended at the time.
  record Ends (bound : ℕ) (b : DialBackoff net.PeerId) : Type 0 where
    table : IsTable net backoff_base backoff_cap b
    ended :
        (p : net.PeerId) (s : BackoffState)
        → HashMap.get net.peer_eq p b.state ≡ some s
        → s.next_attempt ≤ bound

  -- The dial is over by the time, and its jitter raises no delay above its one and a half.
  abbrev pub IsOver : (t : ℕ) → Attempt → Type 0
  IsOver t a = (a.failed_at ≤ t) × ((d : ℕ) → 2 * a.jittered d ≤ 3 * d + 1)

  settle-ended :
      (t : ℕ) (b : DialBackoff net.PeerId) (q : net.PeerId) (a : Attempt)
      → IsOver t a
      → Ends (t + 3 * backoff_cap / 2) b
      → (s : BackoffState) → HashMap.get net.peer_eq q (settle net b q a).state ≡ some s
      → s.next_attempt ≤ t + 3 * backoff_cap / 2
  settle-ended t b q a over e s found = elim (Bool-cases a.reached) [
    | inl reached ↦ absurd (cc (found, get-settle_reached net b q a reached))
    | inr failed ↦
        let f = failure_of net b q a in
        let d = capped_delay b.base b.cap f.failures in
        let short : d ≤ backoff_cap =
          rw (e.table.same_base, e.table.same_cap) (capped_delay-le f.failures) in
        ground (arith, found, get-settle_failed net b q a failed, over.0, over.1 d, short)
  ]

  settle-Ends :
      (t : ℕ) (b : DialBackoff net.PeerId) (q : net.PeerId) (a : Attempt)
      → IsOver t a
      → Ends (t + 3 * backoff_cap / 2) b
      → Ends (t + 3 * backoff_cap / 2) (settle net b q a)
  settle-Ends t b q a over e = record {
    table = settle-IsTable net b q a e.table;
    ended = λ p s found. elim (net.peer_eq p q) [
      | yes same ↦
          settle-ended t b q a over e s
            (subst (λ x. HashMap.get net.peer_eq x (settle net b q a).state ≡ some s) same found)
      | no apart ↦ e.ended p s (sym (get-settle net b q p a apart) ∙ found)
    ];
  }

  attempt-Ends :
      (t : ℕ) (connected : HashSet net.PeerId) (c : net.PeerId × List net.Multiaddr) (a : Attempt)
      (pass : Pass net)
      → IsOver t a
      → Ends (t + 3 * backoff_cap / 2) pass.backoff
      → Ends (t + 3 * backoff_cap / 2) (attempt net connected c a pass).backoff
  unfolding attempt
  attempt-Ends t connected (p, addrs) a pass over e =
      ground (arith, settle-Ends t pass.backoff p a over e)

  attempt_all-Ends :
      (t : ℕ) (connected : HashSet net.PeerId) (cs : List (net.PeerId × List net.Multiaddr))
      (world : ℕ → Attempt) (pass : Pass net)
      → ((n : ℕ) → IsOver t (world n))
      → Ends (t + 3 * backoff_cap / 2) pass.backoff
      → Ends (t + 3 * backoff_cap / 2) (attempt_all net connected cs world pass).backoff
  unfolding attempt_all
  attempt_all-Ends t connected [] world pass over e = e
  attempt_all-Ends t connected (c ∷ cs) world pass over e =
      attempt_all-Ends t connected cs (λ n. world (suc n)) (attempt net connected c (world 0) pass)
        (λ n. over (suc n)) (attempt-Ends t connected c (world 0) pass (over 0) e)

  prune-Ends :
      (bound : ℕ) (b : DialBackoff net.PeerId) (now : ℕ) → Ends bound b → Ends bound (prune b now)
  prune-Ends bound b now e = record {
    table = prune-IsTable net b now e.table;
    ended = λ p s found. e.ended p s (prune_recent net.peer_eq b p now s e.table.unique found).0;
  }

  -- Every peer is let through once its window has ended.
  Ends-ready :
      (bound : ℕ) (b : DialBackoff net.PeerId) (p : net.PeerId) (now : ℕ)
      → Ends bound b
      → bound ≤ now
      → ready net.peer_eq b p now ≡ true
  unfolding ready
  Ends-ready bound b p now e h = elim (Option-cases (HashMap.get net.peer_eq p b.state)) [
    | inl unknown ↦ rw (unknown, ready) refl
    | inr (s, found) ↦ ground (arith, found, e.ended p s found)
  ]

  module _ (low_water : ℕ) (bootstrap_multiaddrs : List net.Multiaddr) where
    tick-Ends :
        (t : ℕ) (b : DialBackoff net.PeerId) (r : Round net) (snapshot : Option (View net))
        → ((n : ℕ) → IsOver t (r.world n))
        → Ends (t + 3 * backoff_cap / 2) b
        → Ends
            (t + 3 * backoff_cap / 2)
            (tick net r.shuffles low_water bootstrap_multiaddrs r.now r.now_unix snapshot r.store
              r.world b).backoff
    unfolding tick
    tick-Ends t b r none over e = prune-Ends _ b r.now e
    tick-Ends t b r (some snapshot) over e =
        attempt_all-Ends t snapshot.connected _ r.world (fresh net (prune b r.now)) over
          (prune-Ends _ b r.now e)

    anchors_from :
        (t : ℕ) (b : DialBackoff net.PeerId) (rs : List (Round net)) (r : Round net)
        (snapshot : View net) (p : net.PeerId)
        → Ends (t + 3 * backoff_cap / 2) b
        → Each (λ (x : Round net). (n : ℕ) → IsOver t (x.world n)) rs
        → ((n : ℕ) → t + 3 * backoff_cap / 2 ≤ (r.world n).asked_at)
        → r.snapshot ≡ some snapshot
        → any
            (λ e. contains net.peer_eq e.0 snapshot.connected)
            (bootstrap_of net bootstrap_multiaddrs)
          ≡ false
        → contains net.peer_eq p (map (λ e. e.0) (bootstrap_of net bootstrap_multiaddrs)) ≡ true
        → (pass : Pass net) × (passes net low_water bootstrap_multiaddrs b (rs ++ r ∷ [])
            ≡ passes net low_water bootstrap_multiaddrs b rs ++ pass ∷ [])
          × (contains net.peer_eq p (peers_of net pass.dialed) ≡ true)
    unfolding passes Each
    anchors_from t b [] r snapshot p e over late seen isolated known = (
      pass_of net low_water bootstrap_multiaddrs b r,
      refl,
      rw seen (
          tick_anchors net r.shuffles low_water bootstrap_multiaddrs r.now r.now_unix snapshot
            r.store r.world b p isolated known
            (λ n. Ends-ready _ (prune b r.now) p _ (prune-Ends _ b r.now e) (late n))),
    )
    anchors_from t b (x ∷ rs) r snapshot p e over late seen isolated known =
        let next = pass_of net low_water bootstrap_multiaddrs b x in
        let (pass, split, dialed) =
          anchors_from t next.backoff rs r snapshot p (tick-Ends t b x x.snapshot over.0 e) over.1
            late seen isolated known in
        (pass, ap (λ l. next ∷ l) split, dialed)

    -- After any rounds of the maintenance loop whose dials are over by some time, with a jitter
    -- that raises no delay above its one and a half, a round that considers its dials one and a
    -- half caps after that time or later, which are seven and a half minutes, and whose snapshot
    -- has no bootstrap peer connected, dials every bootstrap peer.
    pub run_anchors :
        (t : ℕ) (rs : List (Round net)) (r : Round net) (snapshot : View net) (p : net.PeerId)
        → Each (λ (x : Round net). (n : ℕ) → IsOver t (x.world n)) rs
        → ((n : ℕ) → t + 3 * backoff_cap / 2 ≤ (r.world n).asked_at)
        → r.snapshot ≡ some snapshot
        → any
            (λ e. contains net.peer_eq e.0 snapshot.connected)
            (bootstrap_of net bootstrap_multiaddrs)
          ≡ false
        → contains net.peer_eq p (map (λ e. e.0) (bootstrap_of net bootstrap_multiaddrs)) ≡ true
        → (pass : Pass net) × (run net low_water bootstrap_multiaddrs (rs ++ r ∷ [])
            ≡ run net low_water bootstrap_multiaddrs rs ++ pass ∷ [])
          × (contains net.peer_eq p (peers_of net pass.dialed) ≡ true)
    unfolding run initial Backoff.new HashMap.get
    run_anchors t rs r snapshot p over =
        anchors_from t (initial net) rs r snapshot p
          (record { table = initial-IsTable net; ended = λ q s found. absurd (cc found) }) over
