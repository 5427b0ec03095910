-- ===== src/Network/Frames/Commands.antt =====
-- What the commands leave alone.
use p2p_service.Prelude.{ℕ, ◌≡◌, refl, List, [], ◌∷◌, ◌-◌, ◌%◌, ◌^◌, map, length, arith}
use p2p_service.HashSet.{from_list}
use p2p_service.Deps.{Deps}
use p2p_service.Network.{EventLoop, counts, Command, dial, set_preferred_peers}
use p2p_service.Network.Commands.{
  drop_one, drop_protection, add_protection, on_set_preferred_peers, clear_preferred, on_dial,
  start_dial, handle_command, reply, accepted_peers, protected_cap,
}
use p2p_service.Network.Frames.{SameDials, SameConnections, SameRoles}

module _ (d : Deps) where
  -- What `set_preferred_peers` leaves alone.
  pub record Apart (s s' : EventLoop d) : Type 0 where
    pub dials : SameDials d s s'
    pub connections : SameConnections d s s'
    pub bootstrap_peers : s'.bootstrap_peers ≡ s.bootstrap_peers
    pub settings : s'.settings ≡ s.settings

  Apart-trans : (a b c : EventLoop d) → Apart a b → Apart b c → Apart a c
  Apart-trans a b c h k = ground arith

  drop_protection-frame :
      (new_set : List d.PeerId) (old : List d.PeerId) (s : EventLoop d)
      → Apart s (drop_protection d new_set old s)
  unfolding drop_protection drop_one
  drop_protection-frame new_set [] s = ground arith
  drop_protection-frame new_set (p ∷ old) s =
      Apart-trans s _ _ (ground arith) (drop_protection-frame new_set old _)

  add_protection-frame :
      (accepted : List (d.PeerId × List d.Multiaddr)) (s : EventLoop d)
      → Apart s (add_protection d accepted s)
  unfolding add_protection
  add_protection-frame [] s = ground arith
  add_protection-frame ((p, addrs) ∷ rest) s =
      Apart-trans s _ _ (ground arith) (add_protection-frame rest _)

  clear_preferred-frame :
      (s : EventLoop d) (accepted : List (d.PeerId × List d.Multiaddr))
      → Apart s (clear_preferred d s accepted)
  unfolding clear_preferred
  clear_preferred-frame s accepted =
      let f = drop_protection-frame (from_list d.peer_eq (map (λ e. e.0) accepted)) s.protected s in
      record {
        dials = f.dials;
        connections = record {
          connected = f.connections.connected;
          subnet_limits = f.connections.subnet_limits;
          gauge = f.connections.gauge;
        };
        bootstrap_peers = f.bootstrap_peers;
        settings = f.settings;
      }

  pub on_set_preferred_peers-frame :
      (s : EventLoop d) (new_peers : List (d.PeerId × List d.Multiaddr)) (sender : ℕ)
      → Apart s (on_set_preferred_peers d s new_peers sender).0
  unfolding on_set_preferred_peers
  on_set_preferred_peers-frame s new_peers sender =
      Apart-trans s _ _ (clear_preferred-frame s (accepted_peers d s new_peers))
        (add_protection-frame (accepted_peers d s new_peers) _)

  -- The answer: how many were accepted and how many were not.
  pub on_set_preferred_peers-reply :
      (s : EventLoop d) (new_peers : List (d.PeerId × List d.Multiaddr)) (sender : ℕ)
      → (on_set_preferred_peers d s new_peers sender).1
        ≡ reply d sender (
            counts
              (length (accepted_peers d s new_peers) % 2 ^ 32)
              ((length new_peers - protected_cap d s.settings) % 2 ^ 32))
  unfolding on_set_preferred_peers
  on_set_preferred_peers-reply s new_peers sender = refl

  module _ (s : EventLoop d) where
    pub on_dial-roles :
        (p : d.PeerId) (addrs : List d.Multiaddr) (sender : ℕ)
        → SameRoles d s (on_dial d s p addrs sender).0
    unfolding on_dial start_dial
    on_dial-roles p addrs sender = ground arith

    -- No command changes the bootstrap peers or the settings.
    pub handle_command-keeps :
        (c : Command d)
        → ((handle_command d s c).0.bootstrap_peers ≡ s.bootstrap_peers)
          × ((handle_command d s c).0.settings ≡ s.settings)
    unfolding handle_command
    handle_command-keeps (dial p addrs sender) =
        let r = on_dial-roles p addrs sender in (r.bootstrap_peers, r.settings)
    handle_command-keeps (set_preferred_peers new_peers sender) =
        let f = on_set_preferred_peers-frame s new_peers sender in (f.bootstrap_peers, f.settings)
    handle_command-keeps _ = (refl, refl)
