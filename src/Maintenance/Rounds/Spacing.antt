-- ===== src/Maintenance/Rounds/Spacing.antt =====
-- How far apart the maintenance loop dials a peer that could not be reached.
use p2p_service.Prelude.{
  ℕ, suc, ◌+◌, ◌/◌, ◌≤◌, ◌≡◌, false, Option, none, some, inl, inr, List, [], ◌∷◌, ◌++◌, map, Each,
  Bool-cases,
}
use mathlib.Core.List.{flat_map}
use p2p_service.Maintenance.Once.{peers_of}
use p2p_service.HashSet.{HashSet}
use p2p_service.Net.{Net}
use p2p_service.Backoff.{DialBackoff, prune}
use p2p_service.Maintenance.{backoff_base, backoff_cap}
use p2p_service.Maintenance.Attempts.{Attempt, View, Pass, fresh, attempt_all, tick, initial}
use p2p_service.Maintenance.Table.{
  IsTable, settle-IsTable, prune-IsTable, initial-IsTable, attempt_all-IsTable,
}
use p2p_service.Maintenance.Rounds.{Round, run}
use p2p_service.Maintenance.Rounds.Log.{
  Dial, skips, dialed_pass, log_all, attempt_all_skipped, attempt_all_dialed, log_at, log_of,
  log_from, log_from_lem,
}
use p2p_service.Maintenance.Rounds.Rests.{
  NextLate, Rests, Rests-prune, Rests-failed, IsJittered, NextLate-all,
}

module _ (net : Net) where
  -- After a failed dial of a peer, the next dial of it does not begin before half of the base of
  -- the backoff has passed.
  abbrev pub IsSpaced : List (Dial net) → Type 0
  IsSpaced [] = Unit
  IsSpaced ((p, a) ∷ l) =
      (a.reached ≡ false → NextLate net p (a.failed_at + backoff_base / 2) l) × IsSpaced l

  -- The clock does not run backwards from round to round.
  abbrev pub IsOrdered : ℕ → List (Round net) → Type 0
  IsOrdered t [] = Unit
  IsOrdered t (r ∷ rs) = (t ≤ r.now) × ((n : ℕ) → r.now ≤ (r.world n).asked_at) × IsOrdered r.now rs

  IsSpaced-all :
      (t : ℕ) (rest : List (Dial net)) (connected : HashSet net.PeerId)
      (cs : List (net.PeerId × List net.Multiaddr)) (world : ℕ → Attempt) (pass : Pass net)
      → ((n : ℕ) → t ≤ (world n).asked_at)
      → IsJittered net world
      → IsTable net backoff_base backoff_cap pass.backoff
      → ((p : net.PeerId) (bound : ℕ)
          → Rests net p bound t (attempt_all net connected cs world pass).backoff
          → NextLate net p bound rest)
      → IsSpaced rest
      → IsSpaced (log_all net connected cs world pass ++ rest)
  IsSpaced-all t rest connected [] world pass clock jitter table go spaced =
      unfold log_all in spaced
  IsSpaced-all t rest connected (c ∷ cs) world pass clock jitter table go spaced =
      let later : ℕ → Attempt = λ (n : ℕ). world (suc n) in
      elim (Bool-cases (skips net connected c.0 (world 0) pass)) [
        | inl skip ↦
            let step = attempt_all_skipped net connected c cs world pass skip in
            rw (step.1) (
              IsSpaced-all t rest connected cs later pass (λ n. clock (suc n)) (λ n. jitter (suc n))
                table (λ p bound. rw (← step.0) (go p bound)) spaced)
        | inr dials ↦
            let step = attempt_all_dialed net connected c cs world pass dials in
            let next = dialed_pass net c (world 0) pass in
            rw (step.1) (
              λ failed.
                  NextLate-all net c.0 ((world 0).failed_at + backoff_base / 2) t rest connected cs
                    later next (λ n. clock (suc n)) (rw (← step.0) (go c.0 _))
                    (Rests-failed net c.0 t pass.backoff (world 0) table (jitter 0) failed),
              IsSpaced-all t rest connected cs later next (λ n. clock (suc n)) (λ n. jitter (suc n))
                  (settle-IsTable net pass.backoff c.0 (world 0) table)
                  (λ p bound. rw (← step.0) (go p bound)) spaced,
            )
      ]

  module _ (low_water : ℕ) (bootstrap_multiaddrs : List net.Multiaddr) where
    abbrev after_pass :
        DialBackoff net.PeerId → Round net → Option (View net) → DialBackoff net.PeerId
    after_pass b r snapshot =
        (tick net r.shuffles low_water bootstrap_multiaddrs r.now r.now_unix snapshot r.store
          r.world b).backoff

    NextLate-round :
        (p : net.PeerId) (bound t : ℕ) (rest : List (Dial net)) (b : DialBackoff net.PeerId)
        (r : Round net) (snapshot : Option (View net))
        → IsTable net backoff_base backoff_cap b
        → t ≤ r.now
        → ((n : ℕ) → r.now ≤ (r.world n).asked_at)
        → (Rests net p bound r.now (after_pass b r snapshot) → NextLate net p bound rest)
        → Rests net p bound t b
        → NextLate net p bound (log_at net low_water bootstrap_multiaddrs b r snapshot ++ rest)
    unfolding log_at tick
    NextLate-round p bound t rest b r none table h clock go rests =
        go (Rests-prune net p bound t r.now b table h rests)
    NextLate-round p bound t rest b r (some snapshot) table h clock go rests =
        NextLate-all net p bound r.now rest snapshot.connected _ r.world (fresh net (prune b r.now))
          clock go (Rests-prune net p bound t r.now b table h rests)

    IsTable-round :
        (b : DialBackoff net.PeerId) (r : Round net) (snapshot : Option (View net))
        → IsTable net backoff_base backoff_cap b
        → IsTable net backoff_base backoff_cap (after_pass b r snapshot)
    unfolding tick
    IsTable-round b r none table = prune-IsTable net b r.now table
    IsTable-round b r (some snapshot) table =
        attempt_all-IsTable net snapshot.connected _ r.world (fresh net (prune b r.now))
          (prune-IsTable net b r.now table)

    NextLate-rounds :
        (p : net.PeerId) (bound t : ℕ) (b : DialBackoff net.PeerId) (rs : List (Round net))
        → IsTable net backoff_base backoff_cap b
        → IsOrdered t rs
        → Rests net p bound t b
        → NextLate net p bound (log_from net low_water bootstrap_multiaddrs b rs)
    unfolding log_from log_of
    NextLate-rounds p bound t b [] table ordered rests = tt
    NextLate-rounds p bound t b (r ∷ rs) table ordered rests =
        NextLate-round p bound t _ b r r.snapshot table ordered.0 ordered.1
          (NextLate-rounds p bound r.now (after_pass b r r.snapshot) rs
            (IsTable-round b r r.snapshot table) ordered.2)
          rests

    IsSpaced-round :
        (rest : List (Dial net)) (b : DialBackoff net.PeerId) (r : Round net)
        (snapshot : Option (View net))
        → IsTable net backoff_base backoff_cap b
        → ((n : ℕ) → r.now ≤ (r.world n).asked_at)
        → IsJittered net r.world
        → ((p : net.PeerId) (bound : ℕ)
            → Rests net p bound r.now (after_pass b r snapshot)
            → NextLate net p bound rest)
        → IsSpaced rest
        → IsSpaced (log_at net low_water bootstrap_multiaddrs b r snapshot ++ rest)
    unfolding log_at tick
    IsSpaced-round rest b r none table clock jitter go spaced = spaced
    IsSpaced-round rest b r (some snapshot) table clock jitter go spaced =
        IsSpaced-all r.now rest snapshot.connected _ r.world (fresh net (prune b r.now)) clock
          jitter (prune-IsTable net b r.now table) go spaced

    IsSpaced-rounds :
        (t : ℕ) (b : DialBackoff net.PeerId) (rs : List (Round net))
        → IsTable net backoff_base backoff_cap b
        → IsOrdered t rs
        → Each (λ (r : Round net). IsJittered net r.world) rs
        → IsSpaced (log_from net low_water bootstrap_multiaddrs b rs)
    unfolding log_from log_of Each
    IsSpaced-rounds t b [] table ordered jitter = tt
    IsSpaced-rounds t b (r ∷ rs) table ordered jitter =
        let next = IsTable-round b r r.snapshot table in
        IsSpaced-round _ b r r.snapshot table ordered.1 jitter.0
          (λ p bound. NextLate-rounds p bound r.now (after_pass b r r.snapshot) rs next ordered.2)
          (IsSpaced-rounds r.now (after_pass b r r.snapshot) rs next ordered.2 jitter.1)

    -- Over any rounds of the maintenance loop from its start, if no clock of a round shows less
    -- than when the round or an earlier one began, and no jitter lowers a delay below its half,
    -- then a dial of a peer that follows a failed one of the same peer, with no other of it
    -- between them, begins no earlier than half a second after the failure; this is said of a log
    -- whose peers are those that the passes dialed, in order.
    pub dials-IsSpaced :
        (rs : List (Round net))
        → IsOrdered 0 rs
        → Each (λ (r : Round net). IsJittered net r.world) rs
        → (map (λ e. e.0) (log_from net low_water bootstrap_multiaddrs (initial net) rs)
            ≡ flat_map
                (λ (pass : Pass net). peers_of net pass.dialed)
                (run net low_water bootstrap_multiaddrs rs))
          × IsSpaced (log_from net low_water bootstrap_multiaddrs (initial net) rs)
    unfolding run
    dials-IsSpaced rs ordered jitter = (
      log_from_lem net low_water bootstrap_multiaddrs (initial net) rs,
      IsSpaced-rounds 0 (initial net) rs (initial-IsTable net) ordered jitter,
    )
