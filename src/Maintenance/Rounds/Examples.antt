-- ===== src/Maintenance/Rounds/Examples.antt =====
-- Rounds of the maintenance loop at concrete inputs.
use mathlib.Core.List.{filter_map, flat_map}
use p2p_service.Prelude.{
  ℕ, ◌+◌, ◌*◌, ◌/◌, ◌≤◌, ◌<◌, ◌≡◌, refl, true, false, some, none, Option, List, map, arith, String,
  String_discrete, [], ◌∷◌, ◌++◌, Each,
}
use p2p_service.HashMap
use p2p_service.HashSet.{contains}
use p2p_service.Backoff.{DialBackoff, BackoffState}
use p2p_service.Maintenance.{any, bootstrap_of, split_peer_multiaddr, backoff_base, backoff_cap}
use p2p_service.Maintenance.Attempts.{View, Pass, initial}
use p2p_service.Maintenance.Once.{peers_of}
use p2p_service.Maintenance.Rounds.{Round, passes, run}
use p2p_service.Maintenance.Rounds.Quiet.{IsBefore, passes_quiet}
use p2p_service.Maintenance.Rounds.Log.{log_from}
use p2p_service.Maintenance.Rounds.Spacing.{IsSpaced, dials-IsSpaced}
use p2p_service.Maintenance.Rounds.Anchored.{run_anchors}
use p2p_service.Maintenance.Sample.{nobody, round_at}
use p2p_service.Samples.{sample_net}

-- The bootstrap peer failed, and its window runs for a second; there are two passes in that time.
abbrev boot_failed : BackoffState
boot_failed = record { failures = 1; next_attempt = backoff_base }

abbrev resting : DialBackoff String
resting = record { base = backoff_base; cap = backoff_cap; state = ("boot", boot_failed) ∷ [] }

abbrev rounds : List (Round sample_net)
rounds = round_at 5 (some nobody) ∷ round_at 6 none ∷ round_at 7 (some nobody) ∷ []

passes_quiet_example :
    Each
      (λ (pass : Pass sample_net).
        (contains String_discrete "boot" (map (λ c. c.0) pass.dialed) ≡ false)
        × (HashMap.get String_discrete "boot" pass.backoff.state ≡ some boot_failed))
      (passes sample_net 2 ("boot/p2p" ∷ []) resting rounds)
unfolding HashMap.get Each String_discrete
passes_quiet_example =
    passes_quiet sample_net "boot" boot_failed 2 ("boot/p2p" ∷ []) resting rounds (refl, tt) refl
      (
        before 5 (some nobody) (omega arith),
        (before 6 none (omega arith), (before 7 (some nobody) (omega arith), tt)),
      )
  where
    before :
        (now : ℕ) (snapshot : Option (View sample_net))
        → now < boot_failed.next_attempt
        → IsBefore sample_net "boot" boot_failed (round_at now snapshot)
    before now snapshot h = record { pruned = h; asked = λ n. h }

-- The dial of the bootstrap peer fails in the first of these rounds.
dials-IsSpaced_example :
    let log = log_from sample_net 2 ("boot/p2p" ∷ []) (initial sample_net) rounds in
    (map (λ e. e.0) log
      ≡ flat_map
          (λ (pass : Pass sample_net). peers_of sample_net pass.dialed)
          (run sample_net 2 ("boot/p2p" ∷ []) rounds))
    × IsSpaced sample_net log
unfolding Each
dials-IsSpaced_example =
    dials-IsSpaced sample_net 2 ("boot/p2p" ∷ []) rounds (omega arith)
      (λ n d. half d, (λ n d. half d, (λ n d. half d, tt)))
  where
    half : (d : ℕ) → d ≤ 2 * d + 1
    half d = omega arith

-- Seven and a half minutes later it is dialed again.
abbrev afterwards : Round sample_net
afterwards = round_at (7 + 3 * backoff_cap / 2) (some nobody)

run_anchors_example :
    (pass : Pass sample_net) × (run sample_net 2 ("boot/p2p" ∷ []) (rounds ++ afterwards ∷ [])
      ≡ run sample_net 2 ("boot/p2p" ∷ []) rounds ++ pass ∷ [])
    × (contains String_discrete "boot" (peers_of sample_net pass.dialed) ≡ true)
unfolding Each any bootstrap_of split_peer_multiaddr contains String_discrete filter_map
run_anchors_example =
    run_anchors sample_net 2 ("boot/p2p" ∷ []) 7 rounds afterwards nobody "boot"
      (λ n. (omega arith, half), (λ n. (omega arith, half), (λ n. (omega arith, half), tt)))
      (λ n. omega arith) refl refl refl
  where
    half : (d : ℕ) → 2 * d ≤ 3 * d + 1
    half d = omega arith
