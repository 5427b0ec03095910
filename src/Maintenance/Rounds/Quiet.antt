-- ===== src/Maintenance/Rounds/Quiet.antt =====
-- Passes of the maintenance loop (`run` of src/p2p/maintenance.rs) while a peer backs off.
use mathlib.Core.Path.{subst}
use p2p_service.Prelude.{
  ℕ, suc, ◌+◌, ◌<◌, ◌≡◌, ◌≢◌, refl, ◌∙◌, true, false, ◌||◌, Option, none, some, List, [], ◌∷◌, ◌++◌,
  map, Each, arith, Bool-cases, inl, inr, ltb,
}
use p2p_service.HashMap
use p2p_service.HashMap.{IsUnique}
use p2p_service.HashMap.Laws.{get-retain, retain-IsUnique}
use p2p_service.HashSet.{HashSet, contains}
use p2p_service.Net.{Net}
use p2p_service.Peerstore.{PeerStore}
use p2p_service.Backoff.{DialBackoff, BackoffState, ready, prune}
use p2p_service.Maintenance.{Shuffles}
use p2p_service.Maintenance.Table.{get-settle, settle-IsUnique}
use p2p_service.Maintenance.Attempts.{Attempt, View, Pass, fresh, attempt, attempt_all, tick}
use p2p_service.Maintenance.Rounds.{Round, passes}

module _ (net : Net) (p : net.PeerId) (e : BackoffState) where
  -- The peer's window runs until `e.next_attempt`, and the pass has not dialed the peer.
  record IsQuiet (pass : Pass net) : Type 0 where
    table : IsUnique net.peer_eq pass.backoff.state
    entry : HashMap.get net.peer_eq p pass.backoff.state ≡ some e
    undialed : contains net.peer_eq p (map (λ c. c.0) pass.dialed) ≡ false

  -- A peer that is let through is another one.
  let_through :
      (b : DialBackoff net.PeerId) (q : net.PeerId) (now : ℕ)
      → HashMap.get net.peer_eq p b.state ≡ some e
      → now < e.next_attempt
      → ready net.peer_eq b q now ≡ true
      → p ≢ q
  unfolding ready
  let_through b q now entry early open_now =
      λ same. go (subst (λ x. HashMap.get net.peer_eq x b.state ≡ some e) same entry)
    where
      go : HashMap.get net.peer_eq q b.state ≡ some e → ⊥
      go at_q = absurd (ground (arith, at_q, early, open_now))

  dialed_other :
      (q : net.PeerId) (addrs : List net.Multiaddr)
      (dialed : List (net.PeerId × List net.Multiaddr))
      → p ≢ q
      → contains net.peer_eq p (map (λ c. c.0) dialed) ≡ false
      → contains net.peer_eq p (map (λ c. c.0) (dialed ++ (q, addrs) ∷ [])) ≡ false
  unfolding contains
  dialed_other q addrs [] apart h = ground (arith, apart)
  dialed_other q addrs (c ∷ dialed) apart h = ground (arith, h, dialed_other q addrs dialed apart)

  attempt-IsQuiet :
      (connected : HashSet net.PeerId) (c : net.PeerId × List net.Multiaddr) (a : Attempt)
      (pass : Pass net)
      → a.asked_at < e.next_attempt
      → IsQuiet pass
      → IsQuiet (attempt net connected c a pass)
  unfolding attempt
  attempt-IsQuiet connected (q, addrs) a pass early quiet =
      elim (Bool-cases
        (contains net.peer_eq q connected || contains net.peer_eq q pass.attempted)) [
          | inl skipped ↦ rw skipped quiet
          | inr new ↦ elim (Bool-cases (ready net.peer_eq pass.backoff q a.asked_at)) [
            | inr resting ↦ rw (new, resting) quiet
            | inl open_now ↦
                let apart = let_through pass.backoff q a.asked_at quiet.entry early open_now in
                rw (new, open_now)
                  (record {
                    table = settle-IsUnique net pass.backoff q a quiet.table;
                    entry = get-settle net pass.backoff q p a apart ∙ quiet.entry;
                    undialed = dialed_other q addrs pass.dialed apart quiet.undialed;
                  })
          ]
        ]

  attempt_all-IsQuiet :
      (connected : HashSet net.PeerId) (cs : List (net.PeerId × List net.Multiaddr))
      (world : ℕ → Attempt) (pass : Pass net)
      → ((n : ℕ) → (world n).asked_at < e.next_attempt)
      → IsQuiet pass
      → IsQuiet (attempt_all net connected cs world pass)
  unfolding attempt_all
  attempt_all-IsQuiet connected [] world pass early quiet = quiet
  attempt_all-IsQuiet connected (c ∷ cs) world pass early quiet =
      attempt_all-IsQuiet connected cs (λ n. world (suc n)) (attempt net connected c (world 0) pass)
        (λ n. early (suc n)) (attempt-IsQuiet connected c (world 0) pass (early 0) quiet)

  -- The round begins, and each of its dials is considered, before the window of the peer ends.
  pub record IsBefore (r : Round net) : Type 0 where
    pub pruned : r.now < e.next_attempt
    pub asked : (n : ℕ) → (r.world n).asked_at < e.next_attempt

  pruned-IsQuiet :
      (b : DialBackoff net.PeerId) (now : ℕ)
      → IsUnique net.peer_eq b.state
      → HashMap.get net.peer_eq p b.state ≡ some e
      → now < e.next_attempt
      → IsQuiet (fresh net (prune b now))
  unfolding prune contains
  pruned-IsQuiet b now u entry early =
      let recent = λ (s : BackoffState). ltb now (s.next_attempt + b.cap) in
      record {
        table = retain-IsUnique net.peer_eq recent b.state u;
        entry = ground (arith, early, entry, get-retain net.peer_eq recent p b.state u);
        undialed = refl;
      }

  module _ (low_water : ℕ) (bootstrap_multiaddrs : List net.Multiaddr) where
    tick-IsQuiet :
        (b : DialBackoff net.PeerId) (shuffles : Shuffles net) (now now_unix : ℕ)
        (snapshot : Option (View net)) (store : PeerStore) (world : ℕ → Attempt)
        → IsUnique net.peer_eq b.state
        → HashMap.get net.peer_eq p b.state ≡ some e
        → now < e.next_attempt
        → ((n : ℕ) → (world n).asked_at < e.next_attempt)
        → IsQuiet
            (tick net shuffles low_water bootstrap_multiaddrs now now_unix snapshot store world b)
    unfolding tick
    tick-IsQuiet b shuffles now now_unix none store world u entry early asked =
        pruned-IsQuiet b now u entry early
    tick-IsQuiet b shuffles now now_unix (some snapshot) store world u entry early asked =
        attempt_all-IsQuiet snapshot.connected _ world (fresh net (prune b now)) asked
          (pruned-IsQuiet b now u entry early)

    -- If a table that has each peer once has an entry of a peer, then no pass of the maintenance
    -- loop, over any number of them that begin and consider their dials before the window of the
    -- entry ends, dials the peer or changes its entry, whatever the snapshots, the peerstore and
    -- the other dials bring.
    pub passes_quiet :
        (b : DialBackoff net.PeerId) (rounds : List (Round net))
        → IsUnique net.peer_eq b.state
        → HashMap.get net.peer_eq p b.state ≡ some e
        → Each IsBefore rounds
        → Each
            (λ (pass : Pass net).
              (contains net.peer_eq p (map (λ c. c.0) pass.dialed) ≡ false)
              × (HashMap.get net.peer_eq p pass.backoff.state ≡ some e))
            (passes net low_water bootstrap_multiaddrs b rounds)
    unfolding passes Each
    passes_quiet b [] u entry before = tt
    passes_quiet b (r ∷ rounds) u entry before =
        let quiet =
          tick-IsQuiet b r.shuffles r.now r.now_unix r.snapshot r.store r.world u entry
            before.0.pruned before.0.asked in
        (
          (quiet.undialed, quiet.entry),
          passes_quiet
              (tick net r.shuffles low_water bootstrap_multiaddrs r.now r.now_unix r.snapshot
                r.store r.world b).backoff
              rounds quiet.table quiet.entry before.1,
        )
