-- ===== src/Maintenance/Table.antt =====
-- The backoff table of the maintenance loop under the steps of a pass.
use p2p_service.Prelude.{
  ℕ, suc, ◌+◌, ◌≡◌, ◌≢◌, refl, List, [], ◌∷◌, true, false, none, some, arith, Bool-cases, inl, inr,
  ltb, if◌then◌else◌,
}
use p2p_service.HashMap
use p2p_service.HashMap.{IsUnique}
use p2p_service.HashMap.Laws.{
  get-insert, get-remove, get-retain, insert-IsUnique, remove-IsUnique, retain-IsUnique,
}
use p2p_service.Net.{Net}
use p2p_service.Backoff.{
  DialBackoff, BackoffState, new, record_failure, record_success, prune, next_failures,
  capped_delay,
}
use p2p_service.HashSet.{HashSet}
use p2p_service.Maintenance.{backoff_base, backoff_cap}
use p2p_service.Maintenance.Attempts.{Attempt, Pass, settle, attempt, attempt_all, initial}

module _ (net : Net) where
  -- What a failed dial writes.
  abbrev pub failure_of : DialBackoff net.PeerId → net.PeerId → Attempt → BackoffState
  failure_of b p a =
      let failures = next_failures (HashMap.get net.peer_eq p b.state) in
      record {
        failures = failures;
        next_attempt = a.failed_at + a.jittered (capped_delay b.base b.cap failures);
      }

  pub get-settle :
      (b : DialBackoff net.PeerId) (p q : net.PeerId) (a : Attempt)
      → q ≢ p
      → HashMap.get net.peer_eq q (settle net b p a).state ≡ HashMap.get net.peer_eq q b.state
  unfolding settle record_success record_failure
  get-settle b p q a h =
      grind (arith, get-remove net.peer_eq p q b.state, get-insert net.peer_eq p q)

  -- A failed dial leaves its entry.
  pub get-settle_failed :
      (b : DialBackoff net.PeerId) (p : net.PeerId) (a : Attempt)
      → a.reached ≡ false
      → HashMap.get net.peer_eq p (settle net b p a).state ≡ some (failure_of b p a)
  unfolding settle record_failure
  get-settle_failed b p a h = ground (arith, get-insert net.peer_eq p p (failure_of b p a) b.state)

  -- A successful one leaves none.
  pub get-settle_reached :
      (b : DialBackoff net.PeerId) (p : net.PeerId) (a : Attempt)
      → a.reached ≡ true
      → HashMap.get net.peer_eq p (settle net b p a).state ≡ none
  unfolding settle record_success
  get-settle_reached b p a h = ground (arith, get-remove net.peer_eq p p b.state)

  -- A table that has each peer once, with the delays of the loop.
  pub record IsTable (base top : ℕ) (b : DialBackoff net.PeerId) : Type 0 where
    pub unique : IsUnique net.peer_eq b.state
    pub same_base : b.base ≡ base
    pub same_cap : b.cap ≡ top

  pub settle-IsUnique :
      (b : DialBackoff net.PeerId) (p : net.PeerId) (a : Attempt)
      → IsUnique net.peer_eq b.state
      → IsUnique net.peer_eq (settle net b p a).state
  unfolding settle record_failure record_success
  settle-IsUnique b p a u = elim (Bool-cases a.reached) [
    | inl reached ↦ rw reached (remove-IsUnique net.peer_eq p b.state u)
    | inr failed ↦ rw failed (insert-IsUnique net.peer_eq p (failure_of b p a) b.state u)
  ]

  pub settle-IsTable :
      {base top : ℕ} (b : DialBackoff net.PeerId) (p : net.PeerId) (a : Attempt)
      → IsTable base top b
      → IsTable base top (settle net b p a)
  unfolding settle record_failure record_success
  settle-IsTable b p a t = record {
    unique = settle-IsUnique b p a t.unique;
    same_base = ground (arith, t.same_base);
    same_cap = ground (arith, t.same_cap);
  }

  pub prune-IsTable :
      {base top : ℕ} (b : DialBackoff net.PeerId) (now : ℕ)
      → IsTable base top b
      → IsTable base top (prune b now)
  unfolding prune
  prune-IsTable b now t = record {
    unique =
        retain-IsUnique net.peer_eq (λ (s : BackoffState). ltb now (s.next_attempt + b.cap)) b.state
          t.unique;
    same_base = t.same_base;
    same_cap = t.same_cap;
  }

  -- What pruning leaves of an entry.
  pub get-prune :
      (b : DialBackoff net.PeerId) (p : net.PeerId) (now : ℕ)
      → IsUnique net.peer_eq b.state
      → HashMap.get net.peer_eq p (prune b now).state ≡ elim (HashMap.get net.peer_eq p b.state) [
        | none ↦ none
        | some s ↦ if ltb now (s.next_attempt + b.cap) then some s else none
      ]
  unfolding prune
  get-prune b p now u =
      get-retain net.peer_eq (λ (s : BackoffState). ltb now (s.next_attempt + b.cap)) p b.state u

  pub initial-IsTable : IsTable backoff_base backoff_cap (initial net)
  unfolding initial new
  initial-IsTable = record { unique = tt; same_base = refl; same_cap = refl }

  attempt-IsTable :
      {base top : ℕ} (connected : HashSet net.PeerId) (c : net.PeerId × List net.Multiaddr)
      (a : Attempt) (pass : Pass net)
      → IsTable base top pass.backoff
      → IsTable base top (attempt net connected c a pass).backoff
  unfolding attempt
  attempt-IsTable connected (p, addrs) a pass t = ground (arith, settle-IsTable pass.backoff p a t)

  pub attempt_all-IsTable :
      {base top : ℕ} (connected : HashSet net.PeerId) (cs : List (net.PeerId × List net.Multiaddr))
      (world : ℕ → Attempt) (pass : Pass net)
      → IsTable base top pass.backoff
      → IsTable base top (attempt_all net connected cs world pass).backoff
  unfolding attempt_all
  attempt_all-IsTable connected [] world pass t = t
  attempt_all-IsTable connected (c ∷ cs) world pass t =
      attempt_all-IsTable connected cs (λ n. world (suc n)) (attempt net connected c (world 0) pass)
        (attempt-IsTable connected c (world 0) pass t)
