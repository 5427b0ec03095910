-- ===== src/Maintenance/Safety.antt =====
-- At which addresses a pass dials.
use mathlib.Core.List.{filter_map, Mem, mem-cons_self, mem-cons_of_mem}
use p2p_service.Prelude.{
  ℕ, ◌<◌, ◌≡◌, refl, Bool, true, false, not, ◌||◌, some, List, [], ◌∷◌, length, Each, Each-map,
  Each-imp, arith, ◌⊎◌, inl, inr, Bool-cases, ◌==◌,
}
use p2p_service.HashSet.{HashSet, contains}
use p2p_service.Net.{Net}
use p2p_service.Peerstore.{PeerStore}
use p2p_service.Backoff.{DialBackoff}
use p2p_service.Maintenance.{
  Shuffles, keep, is_undialable, bootstrap_of, single, preferred_candidate, preferred_candidates,
}
use p2p_service.Maintenance.Attempts.{Attempt, View, tick}
use p2p_service.Maintenance.Candidates.{IsShuffle, tick-Each}

pub Each-mem : {A : Type 0} (xs : List A) → Each (λ x. Mem x xs) xs
unfolding Each
Each-mem [] = tt
Each-mem (x ∷ xs) = (mem-cons_self, Each-imp _ _ (λ y m. mem-cons_of_mem x m) xs (Each-mem xs))

pub Each-keep :
    {A : Type 0} (test : A → Bool) (xs : List A) → Each (λ x. test x ≡ true) (keep test xs)
unfolding Each keep
Each-keep test [] = tt
Each-keep test (x ∷ xs) = elim (Bool-cases (test x)) [
  | inl yes_test ↦ rw (yes_test, keep) (yes_test, Each-keep test xs)
  | inr no_test ↦ rw (no_test, keep) (Each-keep test xs)
]

module _ (net : Net) where
  -- Every address of the candidate may be dialed, and there is one.
  abbrev pub IsDialable : net.PeerId × List net.Multiaddr → Type 0
  IsDialable c = Each (λ addr. is_undialable net addr ≡ false) c.1 × (0 < length c.1)

  -- The candidate is a bootstrap peer with its configured address, or has only dialable addresses.
  abbrev pub IsSafe : List (net.PeerId × net.Multiaddr) → net.PeerId × List net.Multiaddr → Type 0
  IsSafe bootstrap c =
      ∥ ((e : net.PeerId × net.Multiaddr) × Mem e bootstrap × (c ≡ single net e)) ⊎ IsDialable c ∥₁

  Each-kept :
      (addrs : List net.Multiaddr)
      → Each
          (λ addr. is_undialable net addr ≡ false)
          (keep (λ addr. not (is_undialable net addr)) addrs)
  Each-kept addrs =
      Each-imp _ _ (λ addr h. ground arith) _
        (Each-keep (λ addr. not (is_undialable net addr)) addrs)

  Each-preferred_candidates :
      (connected : HashSet net.PeerId) (preferred : List (net.PeerId × List net.Multiaddr))
      → Each IsDialable (preferred_candidates net connected preferred)
  unfolding Each preferred_candidates preferred_candidate filter_map
  Each-preferred_candidates connected [] = tt
  Each-preferred_candidates connected ((p, addrs) ∷ rest) =
      let kept = keep (λ addr. not (is_undialable net addr)) addrs in
      elim (Bool-cases (contains net.peer_eq p connected || (length kept == 0))) [
        | inl skip ↦ rw (skip, preferred_candidate) (Each-preferred_candidates connected rest)
        | inr go ↦
            rw (go, preferred_candidate)
              ((Each-kept addrs, ground arith), Each-preferred_candidates connected rest)
      ]

  -- If the shuffles only reorder, a pass dials a bootstrap peer at its configured address, or a
  -- peer with at least one address and none that is loopback or unspecified.
  pub tick-IsSafe :
      (shuffles : Shuffles net) (low_water : ℕ) (bootstrap_multiaddrs : List net.Multiaddr)
      (now now_unix : ℕ) (snapshot : View net) (store : PeerStore) (world : ℕ → Attempt)
      (backoff : DialBackoff net.PeerId)
      → IsShuffle net shuffles
      → Each
          (IsSafe (bootstrap_of net bootstrap_multiaddrs))
          (tick net shuffles low_water bootstrap_multiaddrs now now_unix
            (some snapshot)
            store
            world
            backoff).dialed
  unfolding Each
  tick-IsSafe shuffles low_water bootstrap_multiaddrs now now_unix snapshot store world backoff sh =
      let bootstrap = bootstrap_of net bootstrap_multiaddrs in
      tick-Each net (IsSafe bootstrap) shuffles low_water bootstrap_multiaddrs now now_unix snapshot
        store world backoff sh
        (Each-map (IsSafe bootstrap) (single net) bootstrap
          (Each-imp _ _ (λ e m. ∣ inl (e, m, refl) ∣₁) bootstrap (Each-mem bootstrap)))
        (Each-imp IsDialable (IsSafe bootstrap) (λ c h. ∣ inr h ∣₁) _
          (Each-preferred_candidates snapshot.connected snapshot.preferred))
        (Each-imp _ _ (λ e h. ∣ inr ((ground arith, tt), omega arith) ∣₁) _ (Each-keep _ _))
