-- ===== src/Network/Client/Dialing.antt =====
-- `dial_and_wait` of src/p2p/network.rs from the call to its answer, against the first event that
-- decides the dial.
use p2p_service.Prelude.{
  ℕ, ◌≡◌, ◌≢◌, refl, sym, true, ap, ◌≤◌, Option, none, some, List, [], ◌∷◌, ◌++◌, ite, arith,
  Option-cases, Bool-cases, inl, inr, if◌then◌else◌,
}
use p2p_service.HashMap
use p2p_service.HashMap.Laws.{get-insert, get-remove}
use p2p_service.Deps.{Deps}
use p2p_service.Network.{
  EventLoop, Endpoint, Response, Command, SwarmEvent, connection_established,
  outgoing_connection_error, dial_failed, channel_closed, done, error, dial, set_preferred_peers,
  message, identify_received,
}
use p2p_service.Network.Events.{
  Clock, addrs_or_default, handle_event, resolve_dials, on_dialed, count_connected,
  on_connection_established, on_connection_closed, on_outgoing_connection_error,
}
use p2p_service.Network.Frames.{on_message-dials, on_identify_received-dials}
use p2p_service.Network.Frames.Events.{established-dials}
use p2p_service.Network.Frames.Commands.{on_set_preferred_peers-frame}
use p2p_service.Network.Commands.{handle_command, on_dial, start_dial}
use p2p_service.Network.Dials.Table.{count, count-append}
use p2p_service.Network.Dials.Balance.{brings}
use p2p_service.Network.Loop.{Input, event, command, step}
use p2p_service.Network.Client.{Result, returned, raised, received, read_unit}
use p2p_service.Network.Client.Wait.{received-answer_all}

module _ (d : Deps) where
  -- What an event says of a dial of `p`.
  unfoldable pub outcome_of : d.PeerId → Input d → Option (Result Unit)
  outcome_of p (event clock (connection_established q c endpoint)) =
      if endpoint.is_dialer then ite (d.peer_eq p q) (some (returned tt)) none else none
  outcome_of p (event clock (outgoing_connection_error (some q) e)) =
      ite (d.peer_eq p q) (some (raised (dial_failed e))) none
  outcome_of p _ = none

  -- The first event that says something of the dial decides it.
  unfoldable pub first_outcome : d.PeerId → List (Input d) → Result Unit
  first_outcome p [] = raised channel_closed
  first_outcome p (i ∷ is) = elim (outcome_of p i) [ none ↦ first_outcome p is | some r ↦ r ]

  -- The senders that wait for a peer.
  abbrev pub senders_of : d.PeerId → EventLoop d → List ℕ
  senders_of p s = addrs_or_default (HashMap.get d.peer_eq p s.pending_dials)

  -- What an event that leaves the dial open does to the senders of the peer: nothing.
  resolve_undecided :
      (p q : d.PeerId) (s : EventLoop d) (r : Response d)
      → p ≢ q
      → senders_of p (resolve_dials d s q r).0 ≡ senders_of p s
  unfolding resolve_dials
  resolve_undecided p q s r apart = ground (arith, get-remove d.peer_eq q p s.pending_dials)

  module _ (p : d.PeerId) where
    established_undecided :
        (clock : Clock) (s : EventLoop d) (q : d.PeerId) (c : d.ConnectionId)
        (endpoint : Endpoint d)
        → outcome_of p (event clock (connection_established q c endpoint)) ≡ none
        → senders_of p (on_connection_established d clock s q c endpoint).0 ≡ senders_of p s
    unfolding outcome_of on_dialed resolve_dials count_connected
    established_undecided clock s q c endpoint h =
        rw ((established-dials d clock s q c endpoint).0)
          (ground (arith, get-remove d.peer_eq q p s.pending_dials, h))

    event_undecided :
        (clock : Clock) (s : EventLoop d) (e : SwarmEvent d)
        → outcome_of p (event clock e) ≡ none
        → senders_of p (handle_event d clock s e).0 ≡ senders_of p s
    unfolding handle_event on_connection_closed on_outgoing_connection_error outcome_of
    event_undecided clock s (message source topic payload) h =
        rw (on_message-dials d clock s source topic payload) refl
    event_undecided clock s (identify_received q addrs) h =
        rw (on_identify_received-dials d clock s q addrs) refl
    event_undecided clock s (connection_established q c endpoint) h =
        established_undecided clock s q c endpoint h
    event_undecided clock s (outgoing_connection_error (some q) e) h =
        resolve_undecided p q s (error (dial_failed e)) (ground (arith, h))
    event_undecided clock s _ h = refl

    -- A command of another sender adds none of ours.
    command_undecided :
        (n : ℕ) (s : EventLoop d) (c : Command d)
        → brings n (command c) ≡ 0
        → count n (senders_of p (handle_command d s c).0) ≡ count n (senders_of p s)
    unfolding handle_command on_dial start_dial count
    command_undecided n s (dial q addrs sender) h = ground (
      arith,
      h,
      count-append n (senders_of q s) (sender ∷ []),
      get-insert d.peer_eq q p (sender ∷ []) s.pending_dials,
      get-insert d.peer_eq q p (senders_of q s ++ sender ∷ []) s.pending_dials,
    )
    command_undecided n s (set_preferred_peers new_peers sender) h =
        rw ((on_set_preferred_peers-frame d s new_peers sender).dials) refl
    command_undecided n s _ h = refl

    pub step_undecided :
        (n : ℕ) (s : EventLoop d) (i : Input d)
        → outcome_of p i ≡ none
        → brings n i ≡ 0
        → count n (senders_of p (step d s i).0) ≡ count n (senders_of p s)
    unfolding step
    step_undecided n s (event clock e) h k = ap (count n) (event_undecided clock s e h)
    step_undecided n s (command c) h k = command_undecided n s c k

    resolve_decided :
        (n : ℕ) (s : EventLoop d) (r : Response d)
        → 1 ≤ count n (senders_of p s)
        → received d n (resolve_dials d s p r).1 ≡ some r
    unfolding resolve_dials count
    resolve_decided n s r h = elim (Option-cases (HashMap.get d.peer_eq p s.pending_dials)) [
      | inl e ↦ absurd (omega (arith, ap (λ (o : Option (List ℕ)). count n (addrs_or_default o)) e))
      | inr (senders, e) ↦
          rw (e, resolve_dials)
            (received-answer_all d n senders r
              (omega (arith, ap (λ (o : Option (List ℕ)). count n (addrs_or_default o)) e)))
    ]

    dialed_decided :
        (n : ℕ) (clock : Clock) (s : EventLoop d) (q : d.PeerId) (endpoint : Endpoint d)
        → endpoint.is_dialer ≡ true
        → p ≡ q
        → 1 ≤ count n (senders_of p s)
        → received d n (on_dialed d clock (count_connected d s) q endpoint).1 ≡ some done
    unfolding on_dialed count_connected
    dialed_decided n clock s q endpoint dialer same h =
        rw (dialer, sym same) (resolve_decided n _ done h)

    -- The input that decides the dial answers it.
    pub step_decided :
        (n : ℕ) (s : EventLoop d) (i : Input d) (r : Result Unit)
        → 1 ≤ count n (senders_of p s)
        → outcome_of p i ≡ some r
        → (answer : Response d) × (received d n (step d s i).1 ≡ some answer)
          × (read_unit d answer ≡ r)
    unfolding step outcome_of handle_event on_outgoing_connection_error read_unit
    step_decided n s (event clock (connection_established q c endpoint)) r h o =
        elim (Bool-cases endpoint.is_dialer) [
          | inl dialer ↦ elim (d.peer_eq p q) [
            | yes same ↦ (
              done,
              rw ((established-dials d clock s q c endpoint).1)
                  (dialed_decided n clock s q endpoint dialer same h),
              ground (arith, o),
            )
            | no apart ↦ absurd (ground (arith, o))
          ]
          | inr inbound ↦ absurd (ground (arith, o))
        ]
    step_decided n s (event clock (outgoing_connection_error (some q) e)) r h o =
        elim (d.peer_eq p q) [
          | yes same ↦ (
            error (dial_failed e),
            rw (sym same) (resolve_decided n s (error (dial_failed e)) h),
            ground (arith, o),
          )
          | no apart ↦ absurd (ground (arith, o))
        ]
    step_decided n s (event clock (outgoing_connection_error none e)) r h o =
        absurd (ground (arith, o))
    step_decided n s (event clock _) r h o = absurd (ground (arith, o))
    step_decided n s (command c) r h o = absurd (ground (arith, o))
