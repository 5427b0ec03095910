-- ===== src/Network/Events.antt =====
-- `handle_event` of src/p2p/network.rs: a step from a state and a swarm event to the state and what
-- is sent on one-shot channels. `Clock` is what the two clock functions return during the call.
use p2p_service.Prelude.{
  ℕ, Bool, true, false, not, ◌&&◌, ◌||◌, String, List, [], ◌∷◌, ◌++◌, map, Option, none, some,
  length, ltb, ◌==◌, if◌then◌else◌, ite,
}
use p2p_service.HashMap
use p2p_service.HashSet.{contains}
use p2p_service.Net.{Protocol, tcp}
use p2p_service.Deps.{Deps, DialError}
use p2p_service.Metrics.{inc_counter}
use p2p_service.Metrics.Gauge.{inc, dec}
use p2p_service.Subnet.{Verdict, allow, reject, on_connection, on_disconnection}
use p2p_service.Peerstore.{record_peer}
use p2p_service.Subscriptions.{publish}
use p2p_service.Network.{
  EventLoop, SwarmEvent, Endpoint, Sent, Response, done, error, dial_failed, message,
  identify_received, connection_established, connection_closed, outgoing_connection_error, logged,
}

-- `now_unix()` and `now_millis()`
pub record Clock : Type 0 where
  pub unix : ℕ
  pub millis : ℕ

-- `PREFERRED_PEER_APP_SCORE`
abbrev pub preferred_peer_app_score : (d : Deps) → d.Score
preferred_peer_app_score d = d.score 100

-- The loop that sends one answer to every waiting sender.
abbrev pub answer_all : (d : Deps) → List ℕ → Response d → List (Sent d)
answer_all d senders response = map (λ n. record { sender = n; response = response }) senders

abbrev pub has_tcp : {P : Type 0} → List (Protocol P) → Bool
has_tcp [] = false
has_tcp (tcp port ∷ ps) = true
has_tcp (_ ∷ ps) = has_tcp ps

-- The addresses with a TCP component.
unfoldable pub tcp_only : (d : Deps) → List d.Multiaddr → List d.Multiaddr
tcp_only d [] = []
tcp_only d (a ∷ rest) = let kept = tcp_only d rest in if has_tcp (d.iter a) then a ∷ kept else kept

-- `addrs.retain(|a| a != addr)`
unfoldable pub without : (d : Deps) → d.Multiaddr → List d.Multiaddr → List d.Multiaddr
without d addr [] = []
without d addr (a ∷ rest) = ite (d.addr_eq a addr) (without d addr rest) (a ∷ without d addr rest)

-- `entry(peer_id).or_default()`
abbrev pub addrs_or_default : {A : Type 0} → Option (List A) → List A
addrs_or_default none = []
addrs_or_default (some addrs) = addrs

module _ (d : Deps) where
  -- `close_connection` if the subnet cap is exceeded.
  close_if_rejected : EventLoop d → d.ConnectionId → Verdict → EventLoop d
  close_if_rejected s connection_id reject = record s {
    swarm = d.close_connection s.swarm connection_id;
  }
  close_if_rejected s connection_id allow = s

  unfoldable pub enforce_connection_limits :
      EventLoop d → d.PeerId → d.ConnectionId → d.Multiaddr → EventLoop d
  unfolding close_if_rejected
  enforce_connection_limits s peer_id connection_id remote_addr =
      let exempt = contains d.peer_eq peer_id s.protected in
      let (limits, subnet_verdict) = on_connection d.net s.subnet_limits remote_addr exempt in
      let over_high_water = ltb s.settings.high_water (length s.connected) && not exempt in
      let s' = record s { subnet_limits = limits } in
      if over_high_water
      then record s' { swarm = d.disconnect_peer_id s'.swarm peer_id }
      else close_if_rejected s' connection_id subnet_verdict

  -- `pending_dials.remove(&peer_id)`, and the same answer to every sender found there.
  unfoldable pub resolve_dials : EventLoop d → d.PeerId → Response d → EventLoop d × List (Sent d)
  resolve_dials s peer_id response = elim (HashMap.get d.peer_eq peer_id s.pending_dials) [
    | none ↦ (s, [])
    | some senders ↦ (
      record s { pending_dials = HashMap.remove d.peer_eq peer_id s.pending_dials },
      answer_all d senders response,
    )
  ]

  unfoldable pub on_message : Clock → EventLoop d → Option d.PeerId → String → List ℕ → EventLoop d
  on_message clock s none topic payload = s
  on_message clock s (some source) topic payload = record s {
    metrics = record s.metrics {
      total_messages_received = inc_counter s.metrics.total_messages_received;
    };
    subscriptions =
        (publish d.broadcast s.subscriptions (record {
          topic = topic;
          source_peer_id = d.show_peer source;
          payload = payload;
          received_at_millis = clock.millis;
        })).0;
  }

  -- Nothing is recorded when no address is left.
  record_if_any : Clock → EventLoop d → d.PeerId → List d.Multiaddr → EventLoop d
  record_if_any clock s peer_id [] = s
  record_if_any clock s peer_id (a ∷ rest) = record s {
    peerstore = record_peer d.net s.peerstore peer_id (a ∷ rest) clock.unix;
  }

  unfoldable pub on_identify_received :
      Clock → EventLoop d → d.PeerId → List d.Multiaddr → EventLoop d
  unfolding record_if_any
  on_identify_received clock s peer_id listen_addrs =
      record_if_any clock s peer_id (tcp_only d listen_addrs)

  -- What a dialed connection adds: its address in the peerstore, and the answers to its dialers.
  unfoldable pub on_dialed :
      Clock → EventLoop d → d.PeerId → Endpoint d → EventLoop d × List (Sent d)
  on_dialed clock s peer_id endpoint =
      if endpoint.is_dialer
      then resolve_dials
          (record s {
            peerstore =
                record_peer d.net s.peerstore peer_id (endpoint.remote_address ∷ []) clock.unix;
          })
          peer_id done
      else (s, [])

  -- `self.connected.entry(peer_id).or_default().push(remote_addr)`
  unfoldable pub track_address : EventLoop d → d.PeerId → d.Multiaddr → EventLoop d
  track_address s peer_id remote_addr = record s {
    connected =
        HashMap.insert d.peer_eq peer_id
          (addrs_or_default (HashMap.get d.peer_eq peer_id s.connected) ++ remote_addr ∷ [])
          s.connected;
  }

  -- The score bonus of a preferred or bootstrap peer, on connecting.
  unfoldable pub grant_score : EventLoop d → d.PeerId → EventLoop d
  grant_score s peer_id =
      if HashMap.contains_key d.peer_eq peer_id s.dial_hints
        || contains d.peer_eq peer_id s.bootstrap_peers
      then record s { swarm = d.set_application_score s.swarm peer_id (preferred_peer_app_score d) }
      else s

  unfoldable pub count_connected : EventLoop d → EventLoop d
  count_connected s = record s {
    metrics = record s.metrics { connected_peers = inc s.metrics.connected_peers };
  }

  unfoldable pub on_connection_established :
      Clock → EventLoop d → d.PeerId → d.ConnectionId → Endpoint d → EventLoop d × List (Sent d)
  on_connection_established clock s peer_id connection_id endpoint =
      let remote_addr = endpoint.remote_address in
      let (s', sent) = on_dialed clock (count_connected s) peer_id endpoint in
      let tracked = grant_score (track_address s' peer_id remote_addr) peer_id in
      (enforce_connection_limits tracked peer_id connection_id remote_addr, sent)

  -- `connected` after a connection closed: the peer goes with its last connection, else its address.
  unfoldable pub forget_address :
      HashMap.HashMap d.PeerId (List d.Multiaddr)
      → d.PeerId
      → d.Multiaddr
      → (num_established : ℕ) → HashMap.HashMap d.PeerId (List d.Multiaddr)
  forget_address connected peer_id addr num_established =
      if num_established == 0
      then HashMap.remove d.peer_eq peer_id connected
      else elim (HashMap.get d.peer_eq peer_id connected) [
        | none ↦ connected
        | some addrs ↦ HashMap.insert d.peer_eq peer_id (without d addr addrs) connected
      ]

  unfoldable pub on_connection_closed : EventLoop d → d.PeerId → Endpoint d → ℕ → EventLoop d
  unfolding forget_address
  on_connection_closed s peer_id endpoint num_established = record s {
    metrics = record s.metrics { connected_peers = dec s.metrics.connected_peers };
    subnet_limits = on_disconnection d.net s.subnet_limits endpoint.remote_address;
    connected = forget_address s.connected peer_id endpoint.remote_address num_established;
  }

  unfoldable pub on_outgoing_connection_error :
      EventLoop d → Option d.PeerId → DialError → EventLoop d × List (Sent d)
  on_outgoing_connection_error s none e = (s, [])
  on_outgoing_connection_error s (some peer_id) e = resolve_dials s peer_id (error (dial_failed e))

  unfoldable pub handle_event : Clock → EventLoop d → SwarmEvent d → EventLoop d × List (Sent d)
  handle_event clock s (message source topic payload) =
      (on_message clock s source topic payload, [])
  handle_event clock s (identify_received peer_id listen_addrs) =
      (on_identify_received clock s peer_id listen_addrs, [])
  handle_event clock s (connection_established peer_id connection_id endpoint) =
      on_connection_established clock s peer_id connection_id endpoint
  handle_event clock s (connection_closed peer_id endpoint num_established) =
      (on_connection_closed s peer_id endpoint num_established, [])
  handle_event clock s (outgoing_connection_error peer_id e) =
      on_outgoing_connection_error s peer_id e
  handle_event clock s logged = (s, [])
