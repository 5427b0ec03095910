-- ===== src/Maintenance/Once.antt =====
-- Whom a pass dials: each peer at most once, only while it is not connected, and only when the
-- backoff table lets it.
use mathlib.Core.Path.{subst}
use mathlib.Core.List.{map-append}
use p2p_service.Prelude.{
  ℕ, suc, ◌≡◌, refl, sym, ◌∙◌, true, false, ◌||◌, some, List, [], ◌∷◌, ◌++◌, map, if_pos, if_neg,
  Each, Each-append, arith, Bool-cases, inl, inr,
}
use p2p_service.HashMap
use p2p_service.HashSet
use p2p_service.HashSet.{HashSet, contains, IsDistinct}
use p2p_service.HashSet.Laws.{contains-insert, contains-append, append_one-IsDistinct}
use p2p_service.Net.{Net}
use p2p_service.Peerstore.{PeerStore}
use p2p_service.Backoff.{DialBackoff, ready, prune}
use p2p_service.Maintenance.{Shuffles}
use p2p_service.Maintenance.Table.{get-settle}
use p2p_service.Maintenance.Attempts.{
  Attempt, View, Pass, attempt, attempt_all, settle, tick, fresh,
}

module _ (net : Net) where
  abbrev pub peers_of : List (net.PeerId × List net.Multiaddr) → List net.PeerId
  peers_of = map (λ e. e.0)

  -- The peer is not connected, and the table lets it be dialed at some time of the pass.
  abbrev pub MayDial :
      HashSet net.PeerId → (world : ℕ → Attempt) → DialBackoff net.PeerId → net.PeerId → Type 0
  MayDial connected world backoff p =
      (contains net.peer_eq p connected ≡ false)
      × ((n : ℕ) × (ready net.peer_eq backoff p (world n).asked_at ≡ true))

  -- What holds throughout a pass that began with the table `before`.
  pub record Fair (connected : HashSet net.PeerId) (world : ℕ → Attempt)
      (before : DialBackoff net.PeerId) (pass : Pass net) : Type 0 where
    pub once : IsDistinct net.peer_eq (peers_of pass.dialed)
    pub same :
        (p : net.PeerId)
        → contains net.peer_eq p pass.attempted ≡ contains net.peer_eq p (peers_of pass.dialed)
    pub untouched :
        (p : net.PeerId)
        → contains net.peer_eq p pass.attempted ≡ false
        → HashMap.get net.peer_eq p pass.backoff.state ≡ HashMap.get net.peer_eq p before.state
    pub allowed : Each (MayDial connected world before) (peers_of pass.dialed)

  pub ready-of_same :
      (b b' : DialBackoff net.PeerId) (p : net.PeerId) (now : ℕ)
      → HashMap.get net.peer_eq p b'.state ≡ HashMap.get net.peer_eq p b.state
      → ready net.peer_eq b' p now ≡ ready net.peer_eq b p now
  unfolding ready
  ready-of_same b b' p now h = rw (h, ready) refl

  -- The pass after a dial of `p`.
  abbrev dialed_pass : net.PeerId → List net.Multiaddr → Attempt → Pass net → Pass net
  dialed_pass p addrs a pass = record {
    backoff = settle net pass.backoff p a;
    attempted = HashSet.insert net.peer_eq p pass.attempted;
    dialed = pass.dialed ++ (p, addrs) ∷ [];
  }

  dialed_pass-Fair :
      (connected : HashSet net.PeerId) (world : ℕ → Attempt) (before : DialBackoff net.PeerId)
      (p : net.PeerId) (addrs : List net.Multiaddr) (n : ℕ) (a : Attempt) (pass : Pass net)
      → Fair connected world before pass
      → contains net.peer_eq p connected ≡ false
      → contains net.peer_eq p pass.attempted ≡ false
      → ready net.peer_eq pass.backoff p (world n).asked_at ≡ true
      → Fair connected world before (dialed_pass p addrs a pass)
  dialed_pass-Fair connected world before p addrs n a pass f apart new ok = record {
    once =
        rw (map-append (λ (e : net.PeerId × List net.Multiaddr). e.0) pass.dialed) (
          append_one-IsDistinct net.peer_eq (peers_of pass.dialed) p (sym (f.same p) ∙ new) f.once);
    same = λ q. rw (map-append (λ (e : net.PeerId × List net.Multiaddr). e.0) pass.dialed) (
        unfold contains in
        ground (
          arith,
          contains-insert net.peer_eq p q pass.attempted,
          contains-append net.peer_eq q (peers_of pass.dialed) (p ∷ []),
          f.same q,
        ));
    untouched = λ q h. kept q h;
    allowed = rw (map-append (λ (e : net.PeerId × List net.Multiaddr). e.0) pass.dialed) (
        Each-append (MayDial connected world before) (peers_of pass.dialed) (p ∷ []) f.allowed (
          unfold Each in
          (
            (
              apart,
              (
                n,
                sym (ready-of_same before pass.backoff p (world n).asked_at (f.untouched p new))
                    ∙ ok,
              ),
            ),
            tt,
          )));
  }
    where
      kept :
          (q : net.PeerId)
          → contains net.peer_eq q (HashSet.insert net.peer_eq p pass.attempted) ≡ false
          → HashMap.get net.peer_eq q (settle net pass.backoff p a).state
            ≡ HashMap.get net.peer_eq q before.state
      kept q h = elim (net.peer_eq q p) [
        | yes e ↦ absurd (
            ground (
              arith,
              contains-insert net.peer_eq p q pass.attempted,
              if_pos (net.peer_eq q p) e true (contains net.peer_eq q pass.attempted),
            ))
        | no e ↦
            get-settle net pass.backoff p q a e
            ∙ f.untouched q (
                sym
                  (contains-insert net.peer_eq p q pass.attempted ∙ if_neg (net.peer_eq q p) e _ _)
                ∙ h)
      ]

  pub attempt-Fair :
      (connected : HashSet net.PeerId) (world : ℕ → Attempt) (before : DialBackoff net.PeerId)
      (c : net.PeerId × List net.Multiaddr) (n : ℕ) (pass : Pass net)
      → Fair connected world before pass
      → Fair connected world before (attempt net connected c (world n) pass)
  unfolding attempt
  attempt-Fair connected world before (p, addrs) n pass f =
      elim (Bool-cases
        (contains net.peer_eq p connected || contains net.peer_eq p pass.attempted)) [
          | inl skip ↦ rw (skip, attempt) f
          | inr go ↦ elim (Bool-cases (ready net.peer_eq pass.backoff p (world n).asked_at)) [
            | inl ok ↦
                rw (go, ok, attempt)
                  (dialed_pass-Fair connected world before p addrs n (world n) pass f (ground arith)
                    (ground arith) ok)
            | inr not_ready ↦ rw (go, not_ready, attempt) f
          ]
        ]

  -- The loop from candidate `k` on.
  pub attempt_all-Fair :
      (connected : HashSet net.PeerId) (world : ℕ → Attempt) (before : DialBackoff net.PeerId)
      (cs : List (net.PeerId × List net.Multiaddr)) (later : ℕ → Attempt) (number : ℕ → ℕ)
      (pass : Pass net)
      → ((n : ℕ) → later n ≡ world (number n))
      → Fair connected world before pass
      → Fair connected world before (attempt_all net connected cs later pass)
  unfolding attempt_all
  attempt_all-Fair connected world before [] later number pass h f = f
  attempt_all-Fair connected world before (c ∷ cs) later number pass h f =
      attempt_all-Fair connected world before cs (λ n. later (suc n)) (λ n. number (suc n)) _
        (λ n. h (suc n))
        (subst (λ a. Fair connected world before (attempt net connected c a pass)) (sym (h 0))
          (attempt-Fair connected world before c (number 0) pass f))

  pub fresh-Fair :
      (connected : HashSet net.PeerId) (world : ℕ → Attempt) (before : DialBackoff net.PeerId)
      → Fair connected world before (fresh net before)
  unfolding Each
  fresh-Fair connected world before = record {
    once = tt;
    same = λ p. refl;
    untouched = λ p h. refl;
    allowed = tt;
  }

  -- A pass dials no peer twice, none that is connected, and none that the backoff table, as it is
  -- after pruning, does not let through at some time of the pass.
  pub tick_fair :
      (shuffles : Shuffles net) (low_water : ℕ) (bootstrap_multiaddrs : List net.Multiaddr)
      (now now_unix : ℕ) (snapshot : View net) (store : PeerStore) (world : ℕ → Attempt)
      (backoff : DialBackoff net.PeerId)
      → let pass =
          tick net shuffles low_water bootstrap_multiaddrs now now_unix
            (some snapshot)
            store
            world
            backoff in
        IsDistinct net.peer_eq (peers_of pass.dialed)
        × Each (MayDial snapshot.connected world (prune backoff now)) (peers_of pass.dialed)
  unfolding tick
  tick_fair shuffles low_water bootstrap_multiaddrs now now_unix snapshot store world backoff =
      let f =
        attempt_all-Fair snapshot.connected world (prune backoff now) _ world (λ n. n)
          (fresh net (prune backoff now)) (λ n. refl)
          (fresh-Fair snapshot.connected world (prune backoff now)) in
      (f.once, f.allowed)
