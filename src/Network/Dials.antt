-- ===== src/Network/Dials.antt =====
-- Every command is answered exactly once, or is a dial that still waits.
pub mod Table
pub mod Balance
use p2p_service.Prelude.{
  ℕ, ◌+◌, ◌≡◌, refl, sym, ap, ◌∙◌, Option, none, some, String, List, [], ◌∷◌, ◌++◌, map, ite,
  ℕ_discrete, arith, Option-cases, Bool-cases, inl, inr,
}
use p2p_service.HashMap
use p2p_service.HashMap.{HashMap, IsUnique}
use p2p_service.HashMap.Laws.{insert-IsUnique, remove-IsUnique, get-insert, get-remove}
use p2p_service.Deps.{
  Deps, DialError, Outcome, ok, failed, dial_peer_condition_false, wrong_peer_id, other_dial_error,
}
use p2p_service.Network.{
  EventLoop, SwarmEvent, Command, Sent, Response, Endpoint, start_listening, dial, identify,
  subscribe, publish_message, network_snapshot, set_preferred_peers, get_peers, message,
  identify_received, connection_established, connection_closed, outgoing_connection_error, logged,
  done,
}
use p2p_service.Network.Events.{
  Clock, handle_event, answer_all, addrs_or_default, enforce_connection_limits, on_message,
  on_identify_received, on_connection_established, on_dialed, count_connected, resolve_dials,
  on_outgoing_connection_error, on_connection_closed, track_address, grant_score,
}
use p2p_service.Network.Frames.{on_message-dials, on_identify_received-dials, SameDials}
use p2p_service.Network.Frames.Events.{established-dials}
use p2p_service.Network.Frames.Commands.{on_set_preferred_peers-reply, on_set_preferred_peers-frame}
use p2p_service.Network.Commands.{handle_command, reply, start_dial, on_dial}
use p2p_service.Network.Dials.Table.{count, count-append, waits, waits-insert, waits-remove}
use p2p_service.Network.Loop.{Input, event, command, step, run}
use p2p_service.Network.Dials.Balance.{
  sender_of, brings, submitted, IsTable, Balanced, Keeps, resolve_dials-Balanced,
  resolve_dials-IsTable, on_dialed-Keeps, Keeps-same, answers, answers-append, answers-answer_all,
}

module _ (d : Deps) where
  on_connection_established-Keeps :
      (n : ℕ) (clock : Clock) (s : EventLoop d) (p : d.PeerId) (c : d.ConnectionId)
      (endpoint : Endpoint d)
      → IsTable d s
      → Keeps d n s (on_connection_established d clock s p c endpoint) 0
  on_connection_established-Keeps n clock s p c endpoint u =
      let same = established-dials d clock s p c endpoint in
      let before =
        on_dialed-Keeps d n clock (count_connected d s) p endpoint (unfold count_connected in u) in
      rw (same.0, same.1) (unfold count_connected in before)

  handle_event-Keeps :
      (n : ℕ) (clock : Clock) (s : EventLoop d) (e : SwarmEvent d)
      → IsTable d s
      → Keeps d n s (handle_event d clock s e) 0
  unfolding handle_event on_connection_closed on_outgoing_connection_error
  handle_event-Keeps n clock s (message source topic payload) u =
      Keeps-same d n s (handle_event d clock s (message source topic payload)) u refl
        (on_message-dials d clock s source topic payload)
  handle_event-Keeps n clock s (identify_received p addrs) u =
      Keeps-same d n s (handle_event d clock s (identify_received p addrs)) u refl
        (on_identify_received-dials d clock s p addrs)
  handle_event-Keeps n clock s (connection_established p c endpoint) u =
      on_connection_established-Keeps n clock s p c endpoint u
  handle_event-Keeps n clock s (connection_closed p endpoint k) u =
      Keeps-same d n s (handle_event d clock s (connection_closed p endpoint k)) u refl refl
  handle_event-Keeps n clock s (outgoing_connection_error none e) u =
      Keeps-same d n s (handle_event d clock s (outgoing_connection_error none e)) u refl refl
  handle_event-Keeps n clock s (outgoing_connection_error (some p) e) u =
      (resolve_dials-Balanced d n s p _ u, resolve_dials-IsTable d s p _ u)
  handle_event-Keeps n clock s logged u =
      Keeps-same d n s (handle_event d clock s logged) u refl refl

  -- A command that is answered at once.
  Keeps-reply :
      (n : ℕ) (s : EventLoop d) (sender : ℕ) (r : EventLoop d × List (Sent d)) (answer : Response d)
      → IsTable d s
      → r.1 ≡ reply d sender answer
      → SameDials d s r.0
      → Keeps d n s r (ite (ℕ_discrete n sender) 1 0)
  unfolding answers
  Keeps-reply n s sender r answer u once h = rw (h, once) (omega arith, u)

  start_dial-Keeps :
      (n : ℕ) (s : EventLoop d) (p : d.PeerId) (sender : ℕ) (o : Outcome DialError)
      → HashMap.get d.peer_eq p s.pending_dials ≡ none
      → IsTable d s
      → Keeps d n s (start_dial d s p sender o) (ite (ℕ_discrete n sender) 1 0)
  unfolding start_dial
  start_dial-Keeps n s p sender ok h u = (
    unfold answers count in
        omega (
          arith,
          waits-insert d.peer_eq n p (sender ∷ []) s.pending_dials,
          ap (λ (o : Option (List ℕ)). count n (addrs_or_default o)) h,
        ),
    insert-IsUnique d.peer_eq p (sender ∷ []) s.pending_dials u,
  )
  start_dial-Keeps n s p sender (failed dial_peer_condition_false) h u =
      Keeps-reply n s sender (s, reply d sender done) _ u refl refl
  start_dial-Keeps n s p sender (failed wrong_peer_id) h u =
      Keeps-reply n s sender (start_dial d s p sender (failed wrong_peer_id)) _ u refl refl
  start_dial-Keeps n s p sender (failed (other_dial_error t)) h u =
      Keeps-reply n s sender (start_dial d s p sender (failed (other_dial_error t))) _ u refl refl

  on_dial-Keeps :
      (n : ℕ) (s : EventLoop d) (p : d.PeerId) (addrs : List d.Multiaddr) (sender : ℕ)
      → IsTable d s
      → Keeps d n s (on_dial d s p addrs sender) (ite (ℕ_discrete n sender) 1 0)
  unfolding on_dial
  on_dial-Keeps n s p addrs sender u =
      elim (Option-cases (HashMap.get d.peer_eq p s.pending_dials)) [
        | inl e ↦ rw (e, on_dial) (start_dial-Keeps n _ p sender (d.dial s.swarm p addrs).1 e u)
        | inr (senders, e) ↦
            rw (e, on_dial)
              (
                unfold answers count in
                    omega (
                      arith,
                      waits-insert d.peer_eq n p (senders ++ sender ∷ []) s.pending_dials,
                      count-append n senders (sender ∷ []),
                      ap (λ (o : Option (List ℕ)). count n (addrs_or_default o)) e,
                    ),
                insert-IsUnique d.peer_eq p (senders ++ sender ∷ []) s.pending_dials u,
              )
      ]

  handle_command-Keeps :
      (n : ℕ) (s : EventLoop d) (c : Command d)
      → IsTable d s
      → Keeps d n s (handle_command d s c) (ite (ℕ_discrete n (sender_of c)) 1 0)
  unfolding handle_command
  handle_command-Keeps n s (start_listening addr sender) u =
      Keeps-reply n s sender (handle_command d s (start_listening addr sender)) _ u refl refl
  handle_command-Keeps n s (dial p addrs sender) u = on_dial-Keeps n s p addrs sender u
  handle_command-Keeps n s (identify sender) u =
      Keeps-reply n s sender (handle_command d s (identify sender)) _ u refl refl
  handle_command-Keeps n s (subscribe topic sender) u =
      Keeps-reply n s sender (handle_command d s (subscribe topic sender)) _ u refl refl
  handle_command-Keeps n s (publish_message topic payload sender) u =
      Keeps-reply n s sender (handle_command d s (publish_message topic payload sender)) _ u refl
        refl
  handle_command-Keeps n s (network_snapshot sender) u =
      Keeps-reply n s sender (handle_command d s (network_snapshot sender)) _ u refl refl
  handle_command-Keeps n s (set_preferred_peers new_peers sender) u =
      Keeps-reply n s sender (handle_command d s (set_preferred_peers new_peers sender)) _ u
        (on_set_preferred_peers-reply d s new_peers sender)
        (on_set_preferred_peers-frame d s new_peers sender).dials
  handle_command-Keeps n s (get_peers sender) u =
      Keeps-reply n s sender (handle_command d s (get_peers sender)) _ u refl refl

  pub step-Keeps :
      (n : ℕ) (s : EventLoop d) (i : Input d) → IsTable d s → Keeps d n s (step d s i) (brings n i)
  unfolding step
  step-Keeps n s (event clock e) u = handle_event-Keeps n clock s e u
  step-Keeps n s (command c) u = handle_command-Keeps n s c u

  -- Over any sequence of events and commands from a state whose table of dials is a map, every
  -- one-shot sender that came in was answered exactly as often as it came in, or still waits in
  -- the table of dials; none is answered that did not come in or wait at the start.
  pub run-answers :
      (n : ℕ) (s : EventLoop d) (is : List (Input d))
      → IsTable d s
      → waits n s.pending_dials + submitted n is
        ≡ waits n (run d s is).0.pending_dials + answers d n (run d s is).1
  unfolding run submitted answers
  run-answers n s [] u = omega arith
  run-answers n s (i ∷ is) u =
      let one = step-Keeps n s i u in
      let rest = run-answers n (step d s i).0 is one.1 in
      omega (arith, one.0, rest, answers-append d n (step d s i).1 (run d (step d s i).0 is).1)
