-- ===== src/Network/Client.antt =====
-- `P2PClient` of src/p2p/network.rs: each method makes a one-shot channel, sends one command and waits
-- for the answer. A call is given the number of its channel and the loop that it meets.
pub mod Wait
pub mod Dialing
pub mod Outcome
mod Examples
use p2p_service.Prelude.{ℕ, ℕ_discrete, String, List, [], ◌∷◌, Option, none, some, ite}
use p2p_service.Deps.{Deps}
use p2p_service.Network.{
  EventLoop, BoxError, channel_closed, Response, done, error, node_info, snapshot, counts,
  peer_list, NodeInfo, NetworkSnapshot, PeerSnapshot, Sent, Command, start_listening, dial,
  identify, subscribe, publish_message, network_snapshot, set_preferred_peers, get_peers,
}
use p2p_service.Network.Loop.{Input, command, run}

-- `Result<T, Box<dyn Error + Send>>`
pub data Result (A : Type 0) : Type 0 where
  returned : A → Result A
  raised : BoxError → Result A

-- The event loop as one call finds it: its state when it takes the command, `none` when its end of
-- the command channel is gone, and what it takes after the command until it ends.
pub record Link (d : Deps) : Type 0 where
  pub event_loop : Option (EventLoop d)
  pub later : List (Input d)

module _ (d : Deps) where
  -- What the one-shot channel `receiver` holds when its sender is gone: the first value sent on it.
  unfoldable pub received : (receiver : ℕ) → List (Sent d) → Option (Response d)
  received receiver [] = none
  received receiver (x ∷ xs) =
      ite (ℕ_discrete receiver x.sender) (some x.response) (received receiver xs)

  -- The answer as the type of the channel has it. An answer of another type is never sent.
  unfoldable pub read_unit : Response d → Result Unit
  read_unit done = returned tt
  read_unit (error e) = raised e
  read_unit _ = raised channel_closed

  unfoldable pub read_node_info : Response d → Result (NodeInfo d)
  read_node_info (node_info info) = returned info
  read_node_info (error e) = raised e
  read_node_info _ = raised channel_closed

  unfoldable pub read_snapshot : Response d → Result (NetworkSnapshot d)
  read_snapshot (snapshot view) = returned view
  read_snapshot (error e) = raised e
  read_snapshot _ = raised channel_closed

  unfoldable pub read_counts : Response d → Result (ℕ × ℕ)
  read_counts (counts accepted truncated) = returned (accepted, truncated)
  read_counts (error e) = raised e
  read_counts _ = raised channel_closed

  unfoldable pub read_peer_list : Response d → Result (List (PeerSnapshot d))
  read_peer_list (peer_list peers) = returned peers
  read_peer_list (error e) = raised e
  read_peer_list _ = raised channel_closed

  -- `match receiver.await`: the sender may be dropped unused.
  unfoldable pub wait : {A : Type 0} → (Response d → Result A) → Option (Response d) → Result A
  wait read none = raised channel_closed
  wait read (some response) = read response

  unfoldable pub send_command_and_wait :
      {A : Type 0} → (Response d → Result A) → Link d → Command d → (receiver : ℕ) → Result A
  unfolding wait
  send_command_and_wait read link c receiver = elim link.event_loop [
    | none ↦ raised channel_closed
    | some s ↦ wait read (received receiver (run d s (command c ∷ link.later)).1)
  ]

module _ (d : Deps) (link : Link d) (channel : ℕ) where
  unfoldable pub client_start_listening : d.Multiaddr → Result Unit
  client_start_listening addr =
      send_command_and_wait d (read_unit d) link (start_listening addr channel) channel

  unfoldable pub dial_and_wait : d.PeerId → List d.Multiaddr → Result Unit
  dial_and_wait peer_id peer_addrs =
      send_command_and_wait d (read_unit d) link (dial peer_id peer_addrs channel) channel

  unfoldable pub client_identify : Result (NodeInfo d)
  client_identify = send_command_and_wait d (read_node_info d) link (identify channel) channel

  unfoldable pub client_subscribe : String → Result Unit
  client_subscribe topic =
      send_command_and_wait d (read_unit d) link (subscribe topic channel) channel

  unfoldable pub client_publish : String → List ℕ → Result Unit
  client_publish topic payload =
      send_command_and_wait d (read_unit d) link (publish_message topic payload channel) channel

  unfoldable pub client_network_snapshot : Result (NetworkSnapshot d)
  client_network_snapshot =
      send_command_and_wait d (read_snapshot d) link (network_snapshot channel) channel

  unfoldable pub client_set_preferred_peers : List (d.PeerId × List d.Multiaddr) → Result (ℕ × ℕ)
  client_set_preferred_peers new_peers =
      send_command_and_wait d (read_counts d) link (set_preferred_peers new_peers channel) channel

  unfoldable pub client_get_peers : Result (List (PeerSnapshot d))
  client_get_peers = send_command_and_wait d (read_peer_list d) link (get_peers channel) channel
