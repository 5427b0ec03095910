-- ===== src/Network/Commands.antt =====
-- `handle_command` of src/p2p/network.rs. Every command carries the number of its one-shot sender;
-- a command answers at once, except for a dial that has to wait.
use p2p_service.Prelude.{
  ℕ, ◌-◌, ◌%◌, ◌^◌, not, ◌&&◌, String, List, [], ◌∷◌, ◌++◌, map, Option, none, some, length, take,
  if◌then◌else◌,
}
use p2p_service.HashMap
use p2p_service.HashMap.{HashMap}
use p2p_service.HashSet
use p2p_service.HashSet.{HashSet, contains}
use p2p_service.Deps.{Deps, DialError, PublishError, Outcome, ok, failed, dial_peer_condition_false}
use p2p_service.Network.{
  EventLoop, Command, Sent, Response, done, error, node_info, snapshot, counts, peer_list,
  dial_error, publish_error, other_error, start_listening, dial, identify, subscribe,
  publish_message, network_snapshot, set_preferred_peers, get_peers, NetworkSettings, PeerSnapshot,
}
use p2p_service.Network.Events.{preferred_peer_app_score}

module _ (d : Deps) where
  abbrev pub reply : ℕ → Response d → List (Sent d)
  reply sender response = record { sender = sender; response = response } ∷ []

  -- `Ok(_) => sender.send(Ok(())), Err(e) => sender.send(Err(Box::new(e)))`
  unfoldable pub ack_or_other : Outcome String → Response d
  ack_or_other ok = done
  ack_or_other (failed e) = error (other_error e)

  unfoldable pub ack_or_publish_error : Outcome PublishError → Response d
  ack_or_publish_error ok = done
  ack_or_publish_error (failed e) = error (publish_error e)

  -- The three outcomes of `swarm.dial` where no dial was in flight; the condition is false if the
  -- peer is connected, or being dialed, already.
  unfoldable pub start_dial :
      EventLoop d → d.PeerId → ℕ → Outcome DialError → EventLoop d × List (Sent d)
  start_dial s peer_id sender ok = (
    record s { pending_dials = HashMap.insert d.peer_eq peer_id (sender ∷ []) s.pending_dials },
    [],
  )
  start_dial s peer_id sender (failed dial_peer_condition_false) = (s, reply sender done)
  start_dial s peer_id sender (failed e) = (s, reply sender (error (dial_error e)))

  unfoldable pub on_dial :
      EventLoop d → d.PeerId → List d.Multiaddr → ℕ → EventLoop d × List (Sent d)
  unfolding start_dial
  on_dial s peer_id peer_addrs sender = elim (HashMap.get d.peer_eq peer_id s.pending_dials) [
    | some senders ↦ (
      record s {
        pending_dials = HashMap.insert d.peer_eq peer_id (senders ++ sender ∷ []) s.pending_dials;
      },
      [],
    )
    | none ↦
        let (swarm, outcome) = d.dial s.swarm peer_id peer_addrs in
        start_dial (record s { swarm = swarm }) peer_id sender outcome
  ]

  -- `(high_water as f32 * max_protected_share) as usize`
  unfoldable pub protected_cap : NetworkSettings d → ℕ
  protected_cap settings =
      d.usize_of_f32 (d.f32_mul (d.f32_of_usize settings.high_water) settings.max_protected_share)

  -- One round of the loop over the old protected peers: one that is neither in the new set nor a
  -- bootstrap peer loses its protection and its score.
  unfoldable pub drop_one : (new_set : HashSet d.PeerId) → d.PeerId → EventLoop d → EventLoop d
  drop_one new_set old_peer s =
      if not (contains d.peer_eq old_peer new_set)
        && not (contains d.peer_eq old_peer s.bootstrap_peers)
      then record s {
        protected = HashSet.remove d.peer_eq old_peer s.protected;
        swarm = d.set_application_score s.swarm old_peer (d.score 0);
      }
      else s

  unfoldable pub drop_protection :
      (new_set : HashSet d.PeerId) → List d.PeerId → EventLoop d → EventLoop d
  drop_protection new_set [] s = s
  drop_protection new_set (old_peer ∷ rest) s =
      drop_protection new_set rest (drop_one new_set old_peer s)

  -- The loop over the accepted peers.
  unfoldable pub add_protection : List (d.PeerId × List d.Multiaddr) → EventLoop d → EventLoop d
  add_protection [] s = s
  add_protection ((peer_id, addrs) ∷ rest) s = add_protection rest (record s {
    protected = HashSet.insert d.peer_eq peer_id s.protected;
    swarm = d.set_application_score s.swarm peer_id (preferred_peer_app_score d);
    dial_hints = HashMap.insert d.peer_eq peer_id addrs s.dial_hints;
  })

  -- The peers that are accepted.
  unfoldable pub accepted_peers :
      EventLoop d → List (d.PeerId × List d.Multiaddr) → List (d.PeerId × List d.Multiaddr)
  unfolding protected_cap
  accepted_peers s peers = take (protected_cap s.settings) peers

  -- The state after the first loop and `dial_hints.clear()`.
  unfoldable pub clear_preferred :
      EventLoop d → (accepted : List (d.PeerId × List d.Multiaddr)) → EventLoop d
  clear_preferred s accepted =
      let new_set = HashSet.from_list d.peer_eq (map (λ e. e.0) accepted) in
      record (drop_protection new_set s.protected s) { dial_hints = [] }

  unfoldable pub on_set_preferred_peers :
      EventLoop d → List (d.PeerId × List d.Multiaddr) → ℕ → EventLoop d × List (Sent d)
  on_set_preferred_peers s peers sender =
      let truncated = (length peers - protected_cap s.settings) % 2 ^ 32 in
      let accepted = accepted_peers s peers in
      (
        add_protection accepted (clear_preferred s accepted),
        reply sender (counts (length accepted % 2 ^ 32) truncated),
      )

  unfoldable pub score_or_zero : Option d.Score → d.Score
  score_or_zero none = d.score 0
  score_or_zero (some x) = x

  unfoldable pub peer_snapshots :
      EventLoop d → List (d.PeerId × List d.Multiaddr) → List (PeerSnapshot d)
  unfolding score_or_zero
  peer_snapshots s = map λ e. record {
    peer_id = e.0;
    multiaddrs = e.1;
    preferred = contains d.peer_eq e.0 s.protected;
    score = score_or_zero (d.peer_score s.swarm e.0);
  }

  unfoldable pub handle_command : EventLoop d → Command d → EventLoop d × List (Sent d)
  handle_command s (start_listening addr sender) =
      let (swarm, outcome) = d.listen_on s.swarm addr in
      (record s { swarm = swarm }, reply sender (ack_or_other outcome))
  handle_command s (dial peer_id peer_addrs sender) = on_dial s peer_id peer_addrs sender
  handle_command s (identify sender) = (
    s,
    reply sender (
        node_info (record {
          peer_id = d.local_peer_id s.swarm;
          listen_multiaddrs = d.listeners s.swarm;
          external_multiaddrs = d.external_addresses s.swarm;
        })),
  )
  handle_command s (subscribe topic sender) =
      let (swarm, outcome) = d.gossipsub_subscribe s.swarm topic in
      (record s { swarm = swarm }, reply sender (ack_or_other outcome))
  handle_command s (publish_message topic payload sender) =
      let (swarm, outcome) = d.gossipsub_publish s.swarm topic payload in
      (record s { swarm = swarm }, reply sender (ack_or_publish_error outcome))
  handle_command s (network_snapshot sender) = (
    s,
    reply sender
        (snapshot (record { connected = HashMap.keys s.connected; preferred = s.dial_hints })),
  )
  handle_command s (set_preferred_peers new_peers sender) =
      on_set_preferred_peers s new_peers sender
  handle_command s (get_peers sender) = (s, reply sender (peer_list (peer_snapshots s s.connected)))
