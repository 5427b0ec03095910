-- ===== src/Maintenance.antt =====
-- src/p2p/maintenance.rs: the candidates of one pass of the maintenance loop. The two shuffles of the
-- `rand` crate are parameters, as are the snapshot and the clock.
pub mod Attempts
pub mod Table
pub mod Bounds
pub mod Candidates
pub mod Origins
pub mod Safety
pub mod Once
pub mod Anchor
pub mod Rounds
pub mod Connected
pub mod Tests
mod Sample
mod Examples
use mathlib.Core.List.{filter_map}
use p2p_service.Prelude.{
  ℕ, ◌+◌, ◌-◌, ◌*◌, ◌^◌, Bool, true, false, not, ◌&&◌, ◌||◌, Option, none, some, List, [], ◌∷◌,
  ◌++◌, map, length, take, ltb, ◌==◌, if◌then◌else◌,
}
use p2p_service.HashSet.{HashSet, contains}
use p2p_service.Net.{Net, Protocol, ip4, ip6, p2p}

-- `BACKOFF_BASE` and `BACKOFF_CAP`, in nanoseconds.
abbrev pub backoff_base : ℕ
backoff_base = 10 ^ 9

abbrev pub backoff_cap : ℕ
backoff_cap = 300 * 10 ^ 9

abbrev pub peerstore_max_age_secs : ℕ
peerstore_max_age_secs = 7 * 24 * 3600

abbrev pub max_preferred_dials_per_tick : ℕ
max_preferred_dials_per_tick = 16

split_popped : {P A : Type 0} → Option (Protocol P) × A → Option (P × A)
split_popped (some (p2p peer_id), dial_addr) = some (peer_id, dial_addr)
split_popped _ = none

-- `is_loopback` and `is_unspecified` of an address component; an IPv6 address is its number.
unfoldable pub is_local : {P : Type 0} → Protocol P → Bool
is_local (ip4 a b c d) = (a == 127) || ((a == 0) && (b == 0) && (c == 0) && (d == 0))
is_local (ip6 n) = (n == 1) || (n == 0)
is_local _ = false

unfoldable pub any {ℓ} : {A : Type ℓ} → (A → Bool) → List A → Bool
any test [] = false
any test (x ∷ xs) = test x || any test xs

unfoldable pub keep {ℓ} : {A : Type ℓ} → (A → Bool) → List A → List A
keep test [] = []
keep test (x ∷ xs) = let rest = keep test xs in if test x then x ∷ rest else rest

-- `shuffle` on the preferred candidates and on those of the peerstore, in one pass.
pub record Shuffles (net : Net) : Type 0 where
  pub preferred : List (net.PeerId × List net.Multiaddr) → List (net.PeerId × List net.Multiaddr)
  pub stored : List (net.PeerId × net.Multiaddr) → List (net.PeerId × net.Multiaddr)

module _ (net : Net) where
  unfoldable pub split_peer_multiaddr : net.Multiaddr → Option (net.PeerId × net.Multiaddr)
  unfolding split_popped
  split_peer_multiaddr addr = split_popped (net.pop addr)

  unfoldable pub is_undialable : net.Multiaddr → Bool
  is_undialable addr = any is_local (net.iter addr)

  -- The bootstrap peers that have a `/p2p` suffix.
  unfoldable pub bootstrap_of : List net.Multiaddr → List (net.PeerId × net.Multiaddr)
  bootstrap_of = filter_map split_peer_multiaddr

  -- A peer with its one address.
  abbrev pub single : net.PeerId × net.Multiaddr → net.PeerId × List net.Multiaddr
  single (peer_id, addr) = (peer_id, addr ∷ [])

  -- All bootstrap peers, unless one of them is connected.
  unfoldable pub bootstrap_candidates :
      (connected : HashSet net.PeerId)
      → List (net.PeerId × net.Multiaddr)
      → List (net.PeerId × List net.Multiaddr)
  bootstrap_candidates connected bootstrap =
      if any (λ e. contains net.peer_eq e.0 connected) bootstrap then [] else map single bootstrap

  -- One round of the loop over the preferred peers.
  unfoldable pub preferred_candidate :
      (connected : HashSet net.PeerId)
      → net.PeerId × List net.Multiaddr
      → Option (net.PeerId × List net.Multiaddr)
  preferred_candidate connected (peer_id, addrs) =
      let dialable = keep (λ addr. not (is_undialable addr)) addrs in
      if contains net.peer_eq peer_id connected || (length dialable == 0)
      then none
      else some (peer_id, dialable)

  unfoldable pub preferred_candidates :
      (connected : HashSet net.PeerId)
      → List (net.PeerId × List net.Multiaddr)
      → List (net.PeerId × List net.Multiaddr)
  preferred_candidates connected = filter_map (preferred_candidate connected)

  unfoldable pub priority_candidates :
      Shuffles net
      → (connected : HashSet net.PeerId) → List (net.PeerId × net.Multiaddr)
      → (preferred : List (net.PeerId × List net.Multiaddr))
      → List (net.PeerId × List net.Multiaddr)
  priority_candidates shuffles connected bootstrap preferred =
      bootstrap_candidates connected bootstrap
      ++ take max_preferred_dials_per_tick
          (shuffles.preferred (preferred_candidates connected preferred))

  unfoldable pub refill_budget : (low_water : ℕ) → (connected : HashSet net.PeerId) → ℕ
  refill_budget low_water connected = (low_water - length connected) + 2

  -- `stored` is what `dial_candidates` of the peerstore returns.
  unfoldable pub refill_candidates :
      Shuffles net
      → (low_water : ℕ) → (connected : HashSet net.PeerId)
      → (stored : List (net.PeerId × net.Multiaddr)) → List (net.PeerId × net.Multiaddr)
  unfolding refill_budget
  refill_candidates shuffles low_water connected stored =
      let candidates =
        if ltb (length connected) low_water
        then shuffles.stored
            (keep (λ e. not (contains net.peer_eq e.0 connected) && not (is_undialable e.1)) stored)
        else [] in
      take (refill_budget low_water connected) candidates

  -- The candidates of the pass, in the order in which they are dialed.
  unfoldable pub tick_candidates :
      Shuffles net
      → (low_water : ℕ) → (connected : HashSet net.PeerId)
      → (bootstrap : List (net.PeerId × net.Multiaddr))
      → (preferred : List (net.PeerId × List net.Multiaddr))
      → (stored : List (net.PeerId × net.Multiaddr)) → List (net.PeerId × List net.Multiaddr)
  tick_candidates shuffles low_water connected bootstrap preferred stored =
      priority_candidates shuffles connected bootstrap preferred
      ++ map single (refill_candidates shuffles low_water connected stored)
