-- ===== src/Network/Origins/Runs.antt =====
-- The addresses that the event loop of src/p2p/network.rs keeps, over commands and runs.
use p2p_service.Prelude.{ℕ, refl, ◌∙◌, List, [], ◌∷◌, Each, arith, Each-take}
use p2p_service.HashMap.Entries.{insert-Each}
use p2p_service.HashSet
use p2p_service.HashSet.{contains}
use p2p_service.Deps.{Deps}
use p2p_service.Peerstore.Origins.{Reads}
use p2p_service.Network.{EventLoop, Command, dial, set_preferred_peers}
use p2p_service.Network.Commands.{
  drop_one, drop_protection, add_protection, on_set_preferred_peers, clear_preferred, on_dial,
  start_dial, handle_command, accepted_peers,
}
use p2p_service.Network.Frames.Events.{handle_event-roles}
use p2p_service.Network.Frames.Commands.{on_dial-roles}
use p2p_service.Network.Loop.{Input, event, command, step, run}
use p2p_service.Network.Origins.{SameStore, BringsKnown, KeepsKnown, event-Origins}

module _ (d : Deps) (K : d.PeerId → d.Multiaddr → Type 0) where
  -- The loop that ends the protection of the old peers keeps the peerstore.
  drop_protection-store :
      (new_set : HashSet.HashSet d.PeerId) (old : List d.PeerId) (s : EventLoop d)
      → SameStore d K s (drop_protection d new_set old s)
  unfolding drop_protection
  drop_protection-store new_set [] s = refl
  drop_protection-store new_set (p ∷ old) s =
      drop_protection-store new_set old (drop_one d new_set p s) ∙ drop_one-store p s
    where
      drop_one-store : (p : d.PeerId) (s : EventLoop d) → SameStore d K s (drop_one d new_set p s)
      drop_one-store p s = unfold drop_one in ground arith

  add_protection-KeepsKnown :
      (accepted : List (d.PeerId × List d.Multiaddr)) (s : EventLoop d)
      → Each (λ e. Each (K e.0) e.1) accepted
      → KeepsKnown d K s
      → KeepsKnown d K (add_protection d accepted s)
  unfolding add_protection Each
  add_protection-KeepsKnown [] s k h = h
  add_protection-KeepsKnown ((p, addrs) ∷ rest) s k h =
      add_protection-KeepsKnown rest _ k.1 (record {
        stored = h.stored;
        hinted = insert-Each d.peer_eq (λ e. Each (K e.0) e.1) p addrs s.dial_hints k.0 h.hinted;
      })

  clear_preferred-KeepsKnown :
      (s : EventLoop d) (accepted : List (d.PeerId × List d.Multiaddr))
      → KeepsKnown d K s
      → KeepsKnown d K (clear_preferred d s accepted)
  unfolding clear_preferred Each
  clear_preferred-KeepsKnown s accepted h = record {
    stored = rw (drop_protection-store _ s.protected s) h.stored;
    hinted = tt;
  }

  on_dial-KeepsKnown :
      (s : EventLoop d) (p : d.PeerId) (addrs : List d.Multiaddr) (n : ℕ)
      → KeepsKnown d K s
      → KeepsKnown d K (on_dial d s p addrs n).0
  on_dial-KeepsKnown s p addrs n h = record {
    stored = rw (on_dial-store s p addrs n) h.stored;
    hinted = rw ((on_dial-roles d s p addrs n).dial_hints) h.hinted;
  }
    where
      on_dial-store :
          (s : EventLoop d) (p : d.PeerId) (addrs : List d.Multiaddr) (n : ℕ)
          → SameStore d K s (on_dial d s p addrs n).0
      on_dial-store s p addrs n = unfold on_dial start_dial in ground arith

  command-KeepsKnown :
      (s : EventLoop d) (c : Command d)
      → BringsKnown d K (command c)
      → KeepsKnown d K s
      → KeepsKnown d K (handle_command d s c).0
  unfolding handle_command on_set_preferred_peers accepted_peers
  command-KeepsKnown s (dial p addrs n) k h = on_dial-KeepsKnown s p addrs n h
  command-KeepsKnown s (set_preferred_peers peers n) k h =
      add_protection-KeepsKnown _ _ (Each-take (λ e. Each (K e.0) e.1) _ peers k)
        (clear_preferred-KeepsKnown s _ h)
  command-KeepsKnown s _ k h = record { stored = h.stored; hinted = h.hinted }

  step-KeepsKnown :
      (s : EventLoop d) (i : Input d)
      → Reads d.net
      → BringsKnown d K i
      → KeepsKnown d K s
      → KeepsKnown d K (step d s i).0
  unfolding step
  step-KeepsKnown s (event clock e) reads k h = record {
    stored = event-Origins d K reads clock s e k h.stored;
    hinted = rw ((handle_event-roles d s clock e).dial_hints) h.hinted;
  }
  step-KeepsKnown s (command c) reads k h = command-KeepsKnown s c k h

  pub run-KeepsKnown :
      (s : EventLoop d) (is : List (Input d))
      → Reads d.net
      → Each (BringsKnown d K) is
      → KeepsKnown d K s
      → KeepsKnown d K (run d s is).0
  unfolding run Each
  run-KeepsKnown s [] reads k h = h
  run-KeepsKnown s (i ∷ is) reads k h =
      run-KeepsKnown (step d s i).0 is reads k.1 (step-KeepsKnown s i reads k.0 h)
