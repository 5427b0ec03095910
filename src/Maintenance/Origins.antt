-- ===== src/Maintenance/Origins.antt =====
-- Where the addresses that a pass of src/p2p/maintenance.rs dials come from, with the snapshot and
-- the peerstore of a running event loop (src/p2p/network.rs).
use mathlib.Core.List.{filter_map, Mem}
use p2p_service.Prelude.{
  ℕ, ◌≡◌, refl, not, ◌||◌, ◌==◌, Bool, List, [], ◌∷◌, length, Each, Each-imp, Each-map, Bool-cases,
  ◌⊎◌, inl, inr,
}
use p2p_service.HashSet.{HashSet, contains}
use p2p_service.Deps.{Deps}
use p2p_service.Net.{Net}
use p2p_service.Backoff.{DialBackoff}
use p2p_service.Peerstore.Origins.{Reads, dial_candidates-Origins}
use p2p_service.Network.{EventLoop}
use p2p_service.Network.Loop.{Input, run}
use p2p_service.Network.Origins.{BringsKnown, KeepsKnown}
use p2p_service.Network.Origins.Runs.{run-KeepsKnown}
use p2p_service.Maintenance.{
  Shuffles, keep, is_undialable, bootstrap_of, single, preferred_candidate, preferred_candidates,
  peerstore_max_age_secs,
}
use p2p_service.Maintenance.Attempts.{Attempt}
use p2p_service.Maintenance.Candidates.{IsShuffle, tick-Each}
use p2p_service.Maintenance.Safety.{Each-mem}
use p2p_service.Maintenance.Connected.{asking, view_of_lem, seen}

keep-Each :
    {A : Type 0} (P : A → Type 0) (test : A → Bool) (xs : List A)
    → Each P xs
    → Each P (keep test xs)
unfolding Each keep
keep-Each P test [] h = tt
keep-Each P test (x ∷ xs) h = elim (Bool-cases (test x)) [
  | inl yes_test ↦ rw (yes_test, keep) (h.0, keep-Each P test xs h.1)
  | inr no_test ↦ rw (no_test, keep) (keep-Each P test xs h.1)
]

module _ (net : Net) (K : net.PeerId → net.Multiaddr → Type 0) where
  preferred_candidates-Origins :
      (connected : HashSet net.PeerId) (preferred : List (net.PeerId × List net.Multiaddr))
      → Each (λ c. Each (K c.0) c.1) preferred
      → Each (λ c. Each (K c.0) c.1) (preferred_candidates net connected preferred)
  unfolding Each preferred_candidates preferred_candidate filter_map
  preferred_candidates-Origins connected [] h = tt
  preferred_candidates-Origins connected ((p, addrs) ∷ rest) h =
      let kept = keep (λ addr. not (is_undialable net addr)) addrs in
      elim (Bool-cases (contains net.peer_eq p connected || (length kept == 0))) [
        | inl skip ↦
            rw (skip, preferred_candidate) (preferred_candidates-Origins connected rest h.1)
        | inr go ↦
            rw (go, preferred_candidate)
              (keep-Each (K p) _ addrs h.0, preferred_candidates-Origins connected rest h.1)
      ]

module _ (d : Deps) (K : d.PeerId → d.Multiaddr → Type 0) where
  -- A bootstrap peer with its configured address, or a peer with addresses of the relation only.
  abbrev pub HasOrigin : List (d.PeerId × d.Multiaddr) → d.PeerId × List d.Multiaddr → Type 0
  HasOrigin bootstrap c =
      ∥ ((e : d.PeerId × d.Multiaddr) × Mem e bootstrap × (c ≡ single d.net e))
        ⊎ Each (K c.0) c.1 ∥₁

  -- If printed peer ids and addresses parse back and the shuffles only reorder, then for every
  -- relation of peers and addresses: from a state of the event loop in which the peerstore and the
  -- dial hints offer only addresses of the relation, over events and commands that bring only such
  -- addresses in, by Identify with TCP, by a dial that got through, or as preferred peers, a pass
  -- that then asks for the snapshot, and reads the peerstore at that time or later, dials each
  -- peer at addresses of the relation only, or it is a bootstrap peer at its configured address.
  pub asking-HasOrigin :
      (s : EventLoop d) (before meanwhile later : List (Input d)) (shuffles : Shuffles d.net)
      (low_water : ℕ) (bootstrap_multiaddrs : List d.Multiaddr) (now now_unix : ℕ)
      (world : ℕ → Attempt) (b : DialBackoff d.PeerId) (channel : ℕ)
      → Reads d.net
      → IsShuffle d.net shuffles
      → KeepsKnown d K s
      → Each (BringsKnown d K) before
      → Each (BringsKnown d K) meanwhile
      → let answering = (run d s before).0 in
        let store = (run d answering meanwhile).0.peerstore in
        Each
          (HasOrigin (bootstrap_of d.net bootstrap_multiaddrs))
          (asking d shuffles low_water bootstrap_multiaddrs now now_unix store world b answering
            later channel).dialed
  asking-HasOrigin s before meanwhile later shuffles low_water bootstrap_multiaddrs now now_unix
        world b channel reads sh known k l =
      let bootstrap = bootstrap_of d.net bootstrap_multiaddrs in
      let answering = (run d s before).0 in
      let asked = run-KeepsKnown d K s before reads k known in
      let done = run-KeepsKnown d K answering meanwhile reads l asked in
      let store = (run d answering meanwhile).0.peerstore in
      rw (view_of_lem d answering later channel) (
        tick-Each d.net (HasOrigin bootstrap) shuffles low_water bootstrap_multiaddrs now now_unix
          (seen d answering) store world b sh
          (Each-map (HasOrigin bootstrap) (single d.net) bootstrap
            (Each-imp _ _ (λ e m. ∣ inl (e, m, refl) ∣₁) bootstrap (Each-mem bootstrap)))
          (Each-imp (λ c. Each (K c.0) c.1) (HasOrigin bootstrap) (λ c h. ∣ inr h ∣₁) _
            (preferred_candidates-Origins d.net K (seen d answering).connected answering.dial_hints
              asked.hinted))
          (keep-Each _ _ _ (
            Each-imp (λ e. K e.0 e.1) _ one_address _
              (dial_candidates-Origins d.net K peerstore_max_age_secs now_unix store done.stored))))
    where
      one_address :
          (e : d.PeerId × d.Multiaddr)
          → K e.0 e.1
          → HasOrigin (bootstrap_of d.net bootstrap_multiaddrs) (single d.net e)
      one_address e h = ∣ inr (single_known h) ∣₁
        where
          single_known : K e.0 e.1 → Each (K e.0) (e.1 ∷ [])
          single_known h = unfold Each in (h, tt)
