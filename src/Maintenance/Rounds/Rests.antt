-- ===== src/Maintenance/Rounds/Rests.antt =====
-- The log of the maintenance loop while the window of a peer runs.
use p2p_service.Prelude.{
  ℕ, zero, suc, ◌+◌, ◌-◌, ◌*◌, ◌/◌, ◌^◌, ◌≤◌, ◌≡◌, ◌≢◌, refl, sym, ◌∙◌, true, false, some, ◌⊎◌, inl,
  inr, List, [], ◌∷◌, ◌++◌, ite, if_pos, if_neg, arith, Bool-cases, ltb,
}
use mathlib.Core.Path.{subst}
use p2p_service.HashMap
use p2p_service.HashSet.{HashSet}
use p2p_service.Net.{Net}
use p2p_service.Backoff.{
  DialBackoff, BackoffState, ready, prune, capped_delay, saturating_mul, saturating_pow_2,
}
use p2p_service.Maintenance.{backoff_base, backoff_cap}
use p2p_service.Maintenance.Attempts.{Attempt, Pass, attempt_all, settle}
use p2p_service.Maintenance.Table.{failure_of, get-settle, get-settle_failed, IsTable, get-prune}
use p2p_service.Maintenance.Rounds.Log.{
  Dial, skips, dialed_pass, log_all, attempt_all_skipped, attempt_all_dialed,
}

one-le-pow : (n : ℕ) → 1 ≤ 2 ^ n
one-le-pow zero = omega arith
one-le-pow (suc n) = grind (arith, one-le-pow n)

-- Every delay of the loop is at least the base.
capped_delay-ge : (failures : ℕ) → backoff_base ≤ capped_delay backoff_base backoff_cap failures
unfolding capped_delay saturating_mul saturating_pow_2
capped_delay-ge failures = omega (arith, one-le-pow (failures - 1))

module _ (net : Net) where
  -- The next dial of the peer in the log, if there is one, does not begin before the bound.
  abbrev pub NextLate : net.PeerId → (bound : ℕ) → List (Dial net) → Type 0
  NextLate p bound [] = Unit
  NextLate p bound ((q, a) ∷ l) = ite (net.peer_eq p q) (bound ≤ a.asked_at) (NextLate p bound l)

  -- The peer's window ends no earlier than the bound, or the clock is past it.
  abbrev pub Rests : net.PeerId → (bound t : ℕ) → DialBackoff net.PeerId → Type 0
  Rests p bound t b =
      ((s : BackoffState) × (HashMap.get net.peer_eq p b.state ≡ some s) × (bound ≤ s.next_attempt))
      ⊎ (bound ≤ t)

  Rests-ready :
      (p : net.PeerId) (bound t now : ℕ) (b : DialBackoff net.PeerId)
      → Rests p bound t b
      → t ≤ now
      → ready net.peer_eq b p now ≡ true
      → bound ≤ now
  unfolding ready
  Rests-ready p bound t now b (inl (s, found, late)) h ok = ground arith
  Rests-ready p bound t now b (inr past) h ok = omega arith

  Rests-settle :
      (p q : net.PeerId) (bound t : ℕ) (b : DialBackoff net.PeerId) (a : Attempt)
      → p ≢ q
      → Rests p bound t b
      → Rests p bound t (settle net b q a)
  Rests-settle p q bound t b a apart (inl (s, found, late)) =
      inl (s, get-settle net b q p a apart ∙ found, late)
  Rests-settle p q bound t b a apart (inr past) = inr past

  pub Rests-prune :
      {base top : ℕ} (p : net.PeerId) (bound t now : ℕ) (b : DialBackoff net.PeerId)
      → IsTable net base top b
      → t ≤ now
      → Rests p bound t b
      → Rests p bound now (prune b now)
  Rests-prune p bound t now b table h (inl (s, found, late)) =
      elim (Bool-cases (ltb now (s.next_attempt + b.cap))) [
        | inl kept ↦ inl (s, get-prune net b p now table.unique ∙ rw found (rw kept refl), late)
        | inr dropped ↦ inr (ground arith)
      ]
  Rests-prune p bound t now b table h (inr past) = inr (omega arith)

  -- The jitter of a dial lowers no delay below its half.
  abbrev pub IsJittered : (ℕ → Attempt) → Type 0
  IsJittered world = (n d : ℕ) → d ≤ 2 * (world n).jittered d + 1

  pub Rests-failed :
      (p : net.PeerId) (t : ℕ) (b : DialBackoff net.PeerId) (a : Attempt)
      → IsTable net backoff_base backoff_cap b
      → ((d : ℕ) → d ≤ 2 * a.jittered d + 1)
      → a.reached ≡ false
      → Rests p (a.failed_at + backoff_base / 2) t (settle net b p a)
  Rests-failed p t b a table jitter failed =
      let e = failure_of net b p a in
      let d = capped_delay b.base b.cap e.failures in
      let long : backoff_base ≤ d =
        rw (table.same_base, table.same_cap) (capped_delay-ge e.failures) in
      inl (e, get-settle_failed net b p a failed, omega (arith, long, jitter d))

  NextLate-skip :
      (p q : net.PeerId) (bound : ℕ) (a : Attempt) (l : List (Dial net))
      → (p ≡ q → bound ≤ a.asked_at)
      → (p ≢ q → NextLate p bound l)
      → NextLate p bound ((q, a) ∷ l)
  NextLate-skip p q bound a l same other = elim (net.peer_eq p q) [
    | yes e ↦ subst (λ T. T) (sym (if_pos (net.peer_eq p q) e _ _)) (same e)
    | no e ↦ subst (λ T. T) (sym (if_neg (net.peer_eq p q) e _ _)) (other e)
  ]

  skips-ready :
      (connected : HashSet net.PeerId) (q : net.PeerId) (a : Attempt) (pass : Pass net)
      → skips net connected q a pass ≡ false
      → ready net.peer_eq pass.backoff q a.asked_at ≡ true
  skips-ready connected q a pass h = ground arith

  -- What is said of the table after some candidates is said of the log that goes on from there.
  pub NextLate-all :
      (p : net.PeerId) (bound t : ℕ) (rest : List (Dial net)) (connected : HashSet net.PeerId)
      (cs : List (net.PeerId × List net.Multiaddr)) (world : ℕ → Attempt) (pass : Pass net)
      → ((n : ℕ) → t ≤ (world n).asked_at)
      → (Rests p bound t (attempt_all net connected cs world pass).backoff → NextLate p bound rest)
      → Rests p bound t pass.backoff
      → NextLate p bound (log_all net connected cs world pass ++ rest)
  NextLate-all p bound t rest connected [] world pass clock go rests =
      unfold log_all attempt_all in go rests
  NextLate-all p bound t rest connected (c ∷ cs) world pass clock go rests =
      elim (Bool-cases (skips net connected c.0 (world 0) pass)) [
        | inl skip ↦
            let step = attempt_all_skipped net connected c cs world pass skip in
            rw (step.1) (
              NextLate-all p bound t rest connected cs (λ n. world (suc n)) pass
                (λ n. clock (suc n))
                (subst (λ (x : Pass net). Rests p bound t x.backoff → NextLate p bound rest) step.0
                  go)
                rests)
        | inr dials ↦
            let step = attempt_all_dialed net connected c cs world pass dials in
            rw (step.1) (
              NextLate-skip p c.0 bound (world 0) _
                (λ same. Rests-ready p bound t (world 0).asked_at pass.backoff rests (clock 0) (
                  subst (λ q. ready net.peer_eq pass.backoff q (world 0).asked_at ≡ true) (sym same)
                    (skips-ready connected c.0 (world 0) pass dials)))
                (λ apart.
                  NextLate-all p bound t rest connected cs (λ n. world (suc n))
                    (dialed_pass net c (world 0) pass) (λ n. clock (suc n))
                    (subst (λ (x : Pass net). Rests p bound t x.backoff → NextLate p bound rest)
                      step.0 go)
                    (Rests-settle p c.0 bound t pass.backoff (world 0) apart rests)))
      ]
