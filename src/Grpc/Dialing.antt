-- ===== src/Grpc/Dialing.antt =====
-- Dial of src/grpc.rs from the request to the status.
use mathlib.Core.Path.{subst}
use p2p_service.Prelude.{
  ℕ, ◌≡◌, ◌↔◌, refl, Option, none, some, String, List, [], ◌∷◌, arith, Option-cases, inl, inr,
}
use p2p_service.HashMap
use p2p_service.Deps.{
  Deps, DialError, Outcome, ok, failed, wrong_peer_id, dial_peer_condition_false, other_dial_error,
}
use p2p_service.Network.{
  EventLoop, publish_error, other_error, dial_failed, dial_error, channel_closed,
  connection_established, outgoing_connection_error,
}
use p2p_service.Network.Errors.{classify_dial_error, downcast, kind_of}
use p2p_service.Network.Dials.Table.{waits}
use p2p_service.Network.Dials.Balance.{IsTable, submitted}
use p2p_service.Network.Loop.{Input, event, command}
use p2p_service.Network.Client.{Result, returned, raised}
use p2p_service.Network.Client.Dialing.{outcome_of, first_outcome}
use p2p_service.Network.Client.Outcome.{asked, expected, dial_and_wait_lem}
use p2p_service.Grpc.{
  Shared, internal_error, invalid_argument, failed_precondition, not_found,
  map_dial_error_to_status, status_of,
}
use p2p_service.Grpc.Handlers.{
  GrpcService, Reply, replied, refused, handle_dial, dialed, parse_peer_id, parse_multiaddr,
}

-- The status that a result of a dial is to have: a wrong peer id is a failed precondition, any other
-- error of a dial means that the peer was not found, and all else is internal.
abbrev pub told : Result Unit → Reply Unit
told (returned x) = replied x
told (raised (dial_failed wrong_peer_id)) = refused failed_precondition
told (raised (dial_failed _)) = refused not_found
told (raised (dial_error wrong_peer_id)) = refused failed_precondition
told (raised (dial_error _)) = refused not_found
told (raised _) = refused internal_error

module _ (d : Deps) where
  -- The result is reported as INTERNAL exactly if the event loop was gone.
  abbrev IsTold : Result Unit → Type 0
  IsTold r = (dialed d r ≡ refused internal_error) ↔ (r ≡ raised channel_closed)

  returned-IsTold : IsTold (returned tt)
  unfolding dialed
  returned-IsTold = ground arith

  closed-IsTold : IsTold (raised channel_closed)
  unfolding dialed map_dial_error_to_status classify_dial_error downcast kind_of status_of
  closed-IsTold = ground arith

  failed-IsTold : (e : DialError) → IsTold (raised (dial_failed e)) × IsTold (raised (dial_error e))
  unfolding dialed map_dial_error_to_status classify_dial_error downcast kind_of status_of
  failed-IsTold wrong_peer_id = ground arith
  failed-IsTold dial_peer_condition_false = ground arith
  failed-IsTold (other_dial_error t) = ground arith

  module _ (p : d.PeerId) where
    outcome-IsTold : (i : Input d) (r : Result Unit) → outcome_of d p i ≡ some r → IsTold r
    unfolding outcome_of
    outcome-IsTold (event clock (connection_established q c endpoint)) r h =
        subst IsTold (ground (arith, h)) returned-IsTold
    outcome-IsTold (event clock (outgoing_connection_error (some q) e)) r h =
        subst IsTold (ground (arith, h)) (failed-IsTold e).0
    outcome-IsTold (event clock (outgoing_connection_error none e)) r h = absurd (ground (arith, h))
    outcome-IsTold (event clock _) r h = absurd (ground (arith, h))
    outcome-IsTold (command c) r h = absurd (ground (arith, h))

    first_outcome-IsTold : (is : List (Input d)) → IsTold (first_outcome d p is)
    unfolding first_outcome
    first_outcome-IsTold [] = closed-IsTold
    first_outcome-IsTold (i ∷ is) = elim (Option-cases (outcome_of d p i)) [
      | inl e ↦ rw (e, first_outcome) (first_outcome-IsTold is)
      | inr (r, e) ↦ rw (e, first_outcome) (outcome-IsTold i r e)
    ]

    asked-IsTold :
        (n : ℕ) (o : Outcome DialError) (later : List (Input d)) → IsTold (asked d n p o later)
    unfolding asked
    asked-IsTold n ok later = first_outcome-IsTold later
    asked-IsTold n (failed dial_peer_condition_false) later = returned-IsTold
    asked-IsTold n (failed wrong_peer_id) later = (failed-IsTold wrong_peer_id).1
    asked-IsTold n (failed (other_dial_error t)) later = (failed-IsTold (other_dial_error t)).1

    expected-IsTold :
        (n : ℕ) (s : EventLoop d) (addrs : List d.Multiaddr) (later : List (Input d))
        → IsTold (expected d n p s addrs later)
    unfolding expected
    expected-IsTold n s addrs later =
        elim (Option-cases (HashMap.get d.peer_eq p s.pending_dials)) [
          | inl e ↦ rw (e, expected) (asked-IsTold n (d.dial s.swarm p addrs).1 later)
          | inr (senders, e) ↦ rw (e, expected) (first_outcome-IsTold later)
        ]

  dialed_told : (r : Result Unit) → dialed d r ≡ told r
  unfolding dialed map_dial_error_to_status classify_dial_error downcast kind_of status_of
  dialed_told (returned x) = refl
  dialed_told (raised (dial_failed wrong_peer_id)) = refl
  dialed_told (raised (dial_failed dial_peer_condition_false)) = refl
  dialed_told (raised (dial_failed (other_dial_error t))) = refl
  dialed_told (raised (dial_error wrong_peer_id)) = refl
  dialed_told (raised (dial_error dial_peer_condition_false)) = refl
  dialed_told (raised (dial_error (other_dial_error t))) = refl
  dialed_told (raised (publish_error e)) = refl
  dialed_told (raised (other_error t)) = refl
  dialed_told (raised channel_closed) = refl

  -- The service while the event loop runs.
  abbrev pub running : EventLoop d → List (Input d) → Shared d.broadcast → d.PeerId → GrpcService d
  running s later shared local_peer_id = record {
    client = record { event_loop = some s; later = later };
    shared = shared;
    local_peer_id = local_peer_id;
  }

  module _ (s : EventLoop d) (later : List (Input d)) (n : ℕ) where
    -- What a request is to be answered, of which the two texts may or may not parse.
    abbrev pub answer : Option d.PeerId → Option d.Multiaddr → Reply Unit
    answer none addr = refused invalid_argument
    answer (some p) none = refused invalid_argument
    answer (some p) (some addr) = told (expected d n p s (addr ∷ []) later)

    module _ (shared : Shared d.broadcast) (local_peer_id : d.PeerId) (u : IsTable d s)
        (fresh : waits n s.pending_dials ≡ 0) (h : submitted n later ≡ 0) where
      answered :
          (peer_id multiaddr : String) (p : Option d.PeerId) (addr : Option d.Multiaddr)
          → d.read_peer peer_id ≡ p
          → d.read_addr multiaddr ≡ addr
          → handle_dial d (running s later shared local_peer_id) n peer_id multiaddr ≡ answer p addr
      unfolding handle_dial parse_peer_id parse_multiaddr
      answered peer_id multiaddr none addr e f = rw e refl
      answered peer_id multiaddr (some p) none e f = rw (e, f) refl
      answered peer_id multiaddr (some p) (some addr) e f =
          rw (e, f, dial_and_wait_lem d n p s (addr ∷ []) later u fresh h)
            (dialed_told (expected d n p s (addr ∷ []) later))

  -- On a running event loop whose table of dials is a map, and with a channel that is used once,
  -- Dial replies INVALID_ARGUMENT if the peer id or the multiaddr does not parse; else it succeeds
  -- exactly if the dial does, and replies FAILED_PRECONDITION if the dial fails with a wrong peer
  -- id, NOT_FOUND if it fails with any other error of a dial, and INTERNAL if the event loop ends
  -- before the dial is decided.
  pub handle_dial_lem :
      (s : EventLoop d) (later : List (Input d)) (shared : Shared d.broadcast)
      (local_peer_id : d.PeerId) (n : ℕ) (peer_id multiaddr : String)
      → IsTable d s
      → waits n s.pending_dials ≡ 0
      → submitted n later ≡ 0
      → handle_dial d (running s later shared local_peer_id) n peer_id multiaddr
        ≡ answer s later n (d.read_peer peer_id) (d.read_addr multiaddr)
  handle_dial_lem s later shared local_peer_id n peer_id multiaddr u fresh h =
      answered s later n shared local_peer_id u fresh h peer_id multiaddr _ _ refl refl

  -- The reply to a request that parses is INTERNAL exactly if the event loop ended before the dial
  -- was decided.
  pub handle_dial_internal :
      (s : EventLoop d) (later : List (Input d)) (shared : Shared d.broadcast)
      (local_peer_id : d.PeerId) (n : ℕ) (peer_id multiaddr : String) (p : d.PeerId)
      (addr : d.Multiaddr)
      → IsTable d s
      → waits n s.pending_dials ≡ 0
      → submitted n later ≡ 0
      → d.read_peer peer_id ≡ some p
      → d.read_addr multiaddr ≡ some addr
      → (handle_dial d (running s later shared local_peer_id) n peer_id multiaddr
          ≡ refused internal_error)
        ↔ (expected d n p s (addr ∷ []) later ≡ raised channel_closed)
  unfolding handle_dial parse_peer_id parse_multiaddr
  handle_dial_internal s later shared local_peer_id n peer_id multiaddr p addr u fresh h peer at =
      rw (peer, at, dial_and_wait_lem d n p s (addr ∷ []) later u fresh h)
        (expected-IsTold p n s (addr ∷ []) later)
