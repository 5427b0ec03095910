-- ===== src/Maintenance/Rounds.antt =====
-- The loop of `run` in src/p2p/maintenance.rs: one pass after the other, with the backoff table that
-- they share.
pub mod Quiet
pub mod Log
pub mod Rests
pub mod Spacing
pub mod Anchored
mod Examples
use mathlib.Core.Path.{subst}
use p2p_service.Prelude.{
  ℕ, suc, ◌+◌, ◌<◌, ◌≡◌, ◌≢◌, refl, sym, ap, ◌∙◌, true, false, ◌||◌, Option, none, some, List, [],
  ◌∷◌, ◌++◌, map, Each, arith, Bool-cases, inl, inr, ltb,
}
use p2p_service.HashMap
use p2p_service.HashMap.{IsUnique}
use p2p_service.HashMap.Laws.{
  get-insert, get-remove, get-retain, insert-IsUnique, remove-IsUnique, retain-IsUnique,
}
use p2p_service.HashSet.{HashSet, contains}
use p2p_service.HashSet.Laws.{contains-append}
use p2p_service.Net.{Net}
use p2p_service.Deps.{Deps}
use p2p_service.Peerstore.{PeerStore}
use p2p_service.Network.{NetworkSnapshot}
use p2p_service.Network.Client.{Result, returned, raised}
use p2p_service.Backoff.{
  DialBackoff, BackoffState, ready, record_failure, record_success, prune, next_failures,
  capped_delay,
}
use p2p_service.Maintenance.{Shuffles}
use p2p_service.Maintenance.Attempts.{
  Attempt, View, Pass, fresh, settle, attempt, attempt_all, initial, tick,
}

-- What one round of the loop finds: the shuffles, the clocks, the answer to the request for a
-- snapshot, the peerstore, and what happens at its dials.
pub record Round (net : Net) : Type 0 where
  pub shuffles : Shuffles net
  pub now : ℕ
  pub now_unix : ℕ
  pub snapshot : Option (View net)
  pub store : PeerStore
  pub world : ℕ → Attempt

-- The answer of the client, an error of which only ends the pass.
unfoldable pub view_of : (d : Deps) → Result (NetworkSnapshot d) → Option (View d.net)
view_of d (returned s) = some (record { connected = s.connected; preferred = s.preferred })
view_of d (raised e) = none

module _ (net : Net) (low_water : ℕ) (bootstrap_multiaddrs : List net.Multiaddr) where
  -- One round of the loop, with the backoff table that it finds.
  abbrev pub pass_of : DialBackoff net.PeerId → Round net → Pass net
  pass_of backoff r =
      tick net r.shuffles low_water bootstrap_multiaddrs r.now r.now_unix r.snapshot r.store r.world
        backoff

  -- The passes of the rounds, from a backoff table.
  unfoldable pub passes : DialBackoff net.PeerId → List (Round net) → List (Pass net)
  passes backoff [] = []
  passes backoff (r ∷ rs) = let pass = pass_of backoff r in pass ∷ passes pass.backoff rs

  unfoldable pub run : List (Round net) → List (Pass net)
  unfolding passes
  run rounds = passes (initial net) rounds
