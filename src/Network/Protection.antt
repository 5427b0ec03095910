-- ===== src/Network/Protection.antt =====
-- Who is protected from the connection limits.
pub mod Loops
pub mod Reached
use p2p_service.Prelude.{
  ℕ, ◌+◌, ◌≤◌, ◌≡◌, refl, sym, ap, ◌∙◌, Bool, true, false, not, ◌&&◌, ◌||◌, Option, none, some,
  List, [], ◌∷◌, map, length, length-map, min, length-take, length-append, ◌++◌, take,
  if◌then◌else◌, arith, ite, is_some,
}
use p2p_service.HashMap
use p2p_service.HashMap.{contains_key}
use p2p_service.HashMap.Laws.{get-insert, length-insert}
use p2p_service.HashSet
use p2p_service.HashSet.{HashSet, contains, IsDistinct, from_list}
use p2p_service.HashSet.Laws.{
  contains-insert, contains-remove, contains-from_list, insert-IsDistinct, remove-IsDistinct,
  length-le_of_subset, contains-append, contains_tail,
}
use p2p_service.Deps.{Deps}
use p2p_service.Metrics.{Metrics}
use p2p_service.Peerstore.{PeerStore}
use p2p_service.Subscriptions.{Subscriptions}
use p2p_service.Network.{
  EventLoop, new, Command, NetworkSettings, start_listening, dial, identify, subscribe,
  publish_message, network_snapshot, set_preferred_peers, get_peers,
}
use p2p_service.Network.Commands.{
  drop_one, drop_protection, add_protection, clear_preferred, accepted_peers, protected_cap,
  on_set_preferred_peers, handle_command,
}
use p2p_service.Network.Events.{preferred_peer_app_score, handle_event}
use p2p_service.Network.Frames.{SameRoles}
use p2p_service.Network.Frames.Events.{handle_event-roles}
use p2p_service.Network.Frames.Commands.{
  on_dial-roles, on_set_preferred_peers-frame, handle_command-keeps,
}
use p2p_service.Network.Loop.{Input, event, command, step, run}
use Loops.{
  contains-drop_protection, drop_protection-IsDistinct, contains-add_protection,
  add_protection-IsDistinct, length-add_protection, clear_preferred-IsDistinct, no_hints,
  length-accepted_peers, contains-keys, is_out, peers_of,
}

module _ (d : Deps) where
  -- Protected are the bootstrap peers and the preferred ones, which are no more than the cap.
  pub record IsProtecting (s : EventLoop d) : Type 0 where
    pub exact :
        (p : d.PeerId)
        → contains d.peer_eq p s.protected
          ≡ (contains d.peer_eq p s.bootstrap_peers || contains_key d.peer_eq p s.dial_hints)
    pub distinct : IsDistinct d.peer_eq s.protected
    pub hinted : length s.dial_hints ≤ protected_cap d s.settings

  SameRoles-IsProtecting :
      (s s' : EventLoop d) → SameRoles d s s' → IsProtecting s → IsProtecting s'
  SameRoles-IsProtecting s s' h v = record {
    exact = λ p. rw (h.protected, h.bootstrap_peers, h.dial_hints) (v.exact p);
    distinct = rw h.protected v.distinct;
    hinted = rw (h.dial_hints, h.settings) v.hinted;
  }

  length-on_set_preferred_peers :
      (s : EventLoop d) (new_peers : List (d.PeerId × List d.Multiaddr)) (sender : ℕ)
      → length (on_set_preferred_peers d s new_peers sender).0.dial_hints
        ≤ protected_cap d s.settings
  unfolding on_set_preferred_peers
  length-on_set_preferred_peers s new_peers sender = omega (
    arith,
    length-accepted_peers d s new_peers,
    length-add_protection d (accepted_peers d s new_peers)
        (clear_preferred d s (accepted_peers d s new_peers)),
    no_hints d (accepted_peers d s new_peers) s,
  )

  contains-clear_preferred :
      (accepted : List (d.PeerId × List d.Multiaddr)) (s : EventLoop d) (q : d.PeerId)
      → IsProtecting s
      → contains d.peer_eq q (clear_preferred d s accepted).protected ≡ (
          contains d.peer_eq q s.bootstrap_peers
          || (contains d.peer_eq q s.protected && contains d.peer_eq q (peers_of d accepted)))
  unfolding clear_preferred
  contains-clear_preferred accepted s q v = ground (
    arith,
    contains-drop_protection d (from_list d.peer_eq (peers_of d accepted)) s.protected s q,
    contains-from_list d.peer_eq q (peers_of d accepted),
    v.exact q,
  )

  -- From a state in which exactly the bootstrap and preferred peers are protected, after
  -- SetPreferredPeers the protected peers are exactly the bootstrap peers and the accepted ones,
  -- and dial hints are kept for exactly the accepted ones.
  pub on_set_preferred_peers-protected :
      (s : EventLoop d) (new_peers : List (d.PeerId × List d.Multiaddr)) (sender : ℕ) (q : d.PeerId)
      → IsProtecting s
      → let s' = (on_set_preferred_peers d s new_peers sender).0 in
        let accepted = peers_of d (accepted_peers d s new_peers) in
        (contains d.peer_eq q s'.protected
          ≡ (contains d.peer_eq q s.bootstrap_peers || contains d.peer_eq q accepted))
        × (contains_key d.peer_eq q s'.dial_hints ≡ contains d.peer_eq q accepted)
  unfolding on_set_preferred_peers
  on_set_preferred_peers-protected s new_peers sender q v =
      let accepted = accepted_peers d s new_peers in
      let cleared = clear_preferred d s accepted in
      let added = contains-add_protection d accepted cleared q in
      (
        ground (arith, added.0, contains-clear_preferred accepted s q v),
        added.1
            ∙ unfold clear_preferred HashMap.get in
              or_false (contains d.peer_eq q (peers_of d accepted)),
      )
    where
      or_false : (b : Bool) → (b || false) ≡ b
      or_false b = ground arith

  on_set_preferred_peers-IsProtecting :
      (s : EventLoop d) (new_peers : List (d.PeerId × List d.Multiaddr)) (sender : ℕ)
      → IsProtecting s
      → IsProtecting (on_set_preferred_peers d s new_peers sender).0
  on_set_preferred_peers-IsProtecting s new_peers sender v =
      let f = on_set_preferred_peers-frame d s new_peers sender in
      let accepted = accepted_peers d s new_peers in
      let cleared = clear_preferred d s accepted in
      record {
        exact = λ p.
            let e = on_set_preferred_peers-protected s new_peers sender p v in
            rw (f.bootstrap_peers)
              (e.0 ∙ ap (λ b. contains d.peer_eq p s.bootstrap_peers || b) (sym e.1));
        distinct =
            unfold on_set_preferred_peers in
            add_protection-IsDistinct d accepted cleared
              (clear_preferred-IsDistinct d accepted s v.distinct);
        hinted = rw f.settings (length-on_set_preferred_peers s new_peers sender);
      }

  handle_command-IsProtecting :
      (s : EventLoop d) (c : Command d) → IsProtecting s → IsProtecting (handle_command d s c).0
  unfolding handle_command
  handle_command-IsProtecting s (dial p addrs sender) v =
      SameRoles-IsProtecting s _ (on_dial-roles d s p addrs sender) v
  handle_command-IsProtecting s (set_preferred_peers new_peers sender) v =
      on_set_preferred_peers-IsProtecting s new_peers sender v
  handle_command-IsProtecting s _ v = record {
    exact = v.exact;
    distinct = v.distinct;
    hinted = v.hinted;
  }

  -- One step keeps the roles in order, and the bootstrap peers and the settings as they are.
  step-IsProtecting :
      (s : EventLoop d) (i : Input d)
      → IsProtecting s
      → IsProtecting (step d s i).0
        × ((step d s i).0.bootstrap_peers ≡ s.bootstrap_peers)
        × ((step d s i).0.settings ≡ s.settings)
  unfolding step
  step-IsProtecting s (event clock e) v =
      let r = handle_event-roles d s clock e in
      (SameRoles-IsProtecting s (handle_event d clock s e).0 r v, r.bootstrap_peers, r.settings)
  step-IsProtecting s (command c) v =
      let kept = handle_command-keeps d s c in (handle_command-IsProtecting s c v, kept.0, kept.1)

  pub run-IsProtecting :
      (is : List (Input d)) (s : EventLoop d)
      → IsProtecting s
      → IsProtecting (run d s is).0
        × ((run d s is).0.bootstrap_peers ≡ s.bootstrap_peers)
        × ((run d s is).0.settings ≡ s.settings)
  unfolding run
  run-IsProtecting [] s v = (v, refl, refl)
  run-IsProtecting (i ∷ is) s v =
      let one = step-IsProtecting s i v in
      let rest = run-IsProtecting is (step d s i).0 one.0 in
      (rest.0, rest.1 ∙ one.1, rest.2 ∙ one.2)

  pub new-IsProtecting :
      (swarm : d.Swarm) (subscriptions : Subscriptions d.broadcast) (metrics : Metrics)
      (peerstore : PeerStore) (settings : NetworkSettings d) (bootstrap_peers : HashSet d.PeerId)
      → IsDistinct d.peer_eq bootstrap_peers
      → IsProtecting (new d swarm subscriptions metrics peerstore settings bootstrap_peers)
  unfolding new HashMap.get
  new-IsProtecting swarm subscriptions metrics peerstore settings bootstrap_peers u = record {
    exact = λ p. ground arith;
    distinct = u;
    hinted = omega arith;
  }
