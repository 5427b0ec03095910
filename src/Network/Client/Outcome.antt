-- ===== src/Network/Client/Outcome.antt =====
-- What `dial_and_wait` of src/p2p/network.rs returns.
use p2p_service.Prelude.{
  ℕ, ◌≡◌, refl, ap, none, some, List, [], ◌∷◌, ◌++◌, arith, Option-cases, inl, inr,
}
use p2p_service.HashMap
use p2p_service.HashMap.Laws.{get-insert}
use p2p_service.Deps.{
  Deps, DialError, Outcome, ok, failed, dial_peer_condition_false, wrong_peer_id, other_dial_error,
}
use p2p_service.Network.{EventLoop, dial_error, done, error, dial}
use p2p_service.Network.Commands.{handle_command, on_dial, start_dial}
use p2p_service.Network.Dials.{step-Keeps}
use p2p_service.Network.Dials.Table.{count, count-append, waits, count-le-waits}
use p2p_service.Network.Dials.Balance.{IsTable, submitted}
use p2p_service.Network.Loop.{Input, command, step, run}
use p2p_service.Network.Client.{
  Result, returned, raised, received, read_unit, wait, send_command_and_wait, dial_and_wait,
}
use p2p_service.Network.Client.Wait.{received-append, received_unanswered, send_replied}
use p2p_service.Network.Client.Dialing.{
  outcome_of, first_outcome, senders_of, step_undecided, step_decided,
}

module _ (d : Deps) (n : ℕ) (p : d.PeerId) where
  -- Once the sender waits for the peer, and nowhere else, it gets the first outcome.
  run_waiting :
      (s : EventLoop d) (is : List (Input d))
      → IsTable d s
      → waits n s.pending_dials ≡ 1
      → count n (senders_of d p s) ≡ 1
      → submitted n is ≡ 0
      → wait d (read_unit d) (received d n (run d s is).1) ≡ first_outcome d p is
  unfolding run submitted first_outcome received wait
  run_waiting s [] u w k h = refl
  run_waiting s (i ∷ is) u w k h = elim (Option-cases (outcome_of d p i)) [
    | inl open_still ↦
        let kept = step_undecided d p n s i open_still (omega (arith, h)) in
        let one = step-Keeps d n s i u in
        let bound = count-le-waits d.peer_eq n p (step d s i).0.pending_dials in
        rw
          (
            open_still,
            first_outcome,
            received-append d n (step d s i).1 (run d (step d s i).0 is).1,
            received_unanswered d n (step d s i).1 (omega (arith, one.0, bound, kept, h)),
          )
          (run_waiting (step d s i).0 is one.1 (omega (arith, one.0, bound, kept, h))
            (omega (arith, kept)) (omega (arith, h)))
    | inr (r, decided) ↦
        let (answer, found, reads) = step_decided d p n s i r (omega (arith, k)) decided in
        rw
          (
            decided,
            first_outcome,
            received-append d n (step d s i).1 (run d (step d s i).0 is).1,
            found,
          )
          reads
  ]

  -- What a dial that the swarm was asked for returns.
  unfoldable pub asked : Outcome DialError → List (Input d) → Result Unit
  asked ok later = first_outcome d p later
  asked (failed dial_peer_condition_false) later = returned tt
  asked (failed e) later = raised (dial_error e)

  -- What a dial of the peer returns: with a dial of it in flight, or one that the swarm starts, the
  -- first outcome; else what the swarm said.
  unfoldable pub expected : EventLoop d → List d.Multiaddr → List (Input d) → Result Unit
  unfolding asked
  expected s addrs later = elim (HashMap.get d.peer_eq p s.pending_dials) [
    | some senders ↦ first_outcome d p later
    | none ↦ asked (d.dial s.swarm p addrs).1 later
  ]

  -- A dial that waits.
  dial_waiting :
      (s : EventLoop d) (addrs : List d.Multiaddr) (later : List (Input d))
      → IsTable d s
      → waits n s.pending_dials ≡ 0
      → submitted n later ≡ 0
      → (step d s (command (dial p addrs n))).1 ≡ []
      → count n (senders_of d p (step d s (command (dial p addrs n))).0) ≡ 1
      → dial_and_wait d (record { event_loop = some s; later = later }) n p addrs
        ≡ first_outcome d p later
  unfolding dial_and_wait send_command_and_wait run received
  dial_waiting s addrs later u fresh h silent k =
      let one = step-Keeps d n s (command (dial p addrs n)) u in
      rw (received-append d n (step d s (command (dial p addrs n))).1 _, silent)
        (run_waiting (step d s (command (dial p addrs n))).0 later one.1
          (ground (
            arith,
            one.0,
            fresh,
            k,
            count-le-waits d.peer_eq n p (step d s (command (dial p addrs n))).0.pending_dials,
          ))
          k h)

  joined_count :
      (s : EventLoop d) (addrs : List d.Multiaddr) (senders : List ℕ)
      → waits n s.pending_dials ≡ 0
      → HashMap.get d.peer_eq p s.pending_dials ≡ some senders
      → ((step d s (command (dial p addrs n))).1 ≡ [])
        × (count n (senders_of d p (step d s (command (dial p addrs n))).0) ≡ 1)
  unfolding step handle_command on_dial count
  joined_count s addrs senders fresh e =
      rw (e, on_dial)
        (
          refl,
          ground (
            arith,
            e,
            fresh,
            get-insert d.peer_eq p p (senders ++ n ∷ []) s.pending_dials,
            count-append n senders (n ∷ []),
            count-le-waits d.peer_eq n p s.pending_dials,
          ),
        )

  asked_step :
      (s : EventLoop d) (addrs : List d.Multiaddr) (o : Outcome DialError)
      → HashMap.get d.peer_eq p s.pending_dials ≡ none
      → (d.dial s.swarm p addrs).1 ≡ o
      → step d s (command (dial p addrs n))
        ≡ start_dial d (record s { swarm = (d.dial s.swarm p addrs).0 }) p n o
  unfolding step handle_command on_dial
  asked_step s addrs o e a =
      rw (e, on_dial) (ap (start_dial d (record s { swarm = (d.dial s.swarm p addrs).0 }) p n) a)

  -- A dial that the swarm is asked for.
  dial_asked :
      (s : EventLoop d) (addrs : List d.Multiaddr) (later : List (Input d)) (o : Outcome DialError)
      → IsTable d s
      → waits n s.pending_dials ≡ 0
      → submitted n later ≡ 0
      → HashMap.get d.peer_eq p s.pending_dials ≡ none
      → step d s (command (dial p addrs n))
        ≡ start_dial d (record s { swarm = (d.dial s.swarm p addrs).0 }) p n o
      → dial_and_wait d (record { event_loop = some s; later = later }) n p addrs ≡ asked o later
  unfolding asked start_dial count dial_and_wait read_unit
  dial_asked s addrs later ok u fresh h e a =
      dial_waiting s addrs later u fresh h (rw a refl)
        (rw a (ground (arith, get-insert d.peer_eq p p (n ∷ []) s.pending_dials)))
  dial_asked s addrs later (failed dial_peer_condition_false) u fresh h e a =
      send_replied d n (read_unit d) s later (dial p addrs n) done (rw a refl)
  dial_asked s addrs later (failed wrong_peer_id) u fresh h e a =
      send_replied d n (read_unit d) s later (dial p addrs n) (error (dial_error wrong_peer_id))
        (rw a refl)
  dial_asked s addrs later (failed (other_dial_error t)) u fresh h e a =
      send_replied d n (read_unit d) s later (dial p addrs n)
        (error (dial_error (other_dial_error t))) (rw a refl)

  -- A call of dial_and_wait on a running event loop whose table of dials is a map, with a channel
  -- that is used once, returns what the first event that concerns a dial of the peer says, success
  -- for a dialed connection and its error for a failed one, if a dial of the peer was in flight or
  -- the swarm starts one; it returns what the swarm said if it refuses the dial, with success if
  -- the peer is connected, or being dialed, already; and it reports a closed channel if the loop
  -- ends before any such event.
  pub dial_and_wait_lem :
      (s : EventLoop d) (addrs : List d.Multiaddr) (later : List (Input d))
      → IsTable d s
      → waits n s.pending_dials ≡ 0
      → submitted n later ≡ 0
      → dial_and_wait d (record { event_loop = some s; later = later }) n p addrs
        ≡ expected s addrs later
  unfolding expected
  dial_and_wait_lem s addrs later u fresh h =
      elim (Option-cases (HashMap.get d.peer_eq p s.pending_dials)) [
        | inl e ↦
            rw (e, expected) (dial_asked s addrs later _ u fresh h e (asked_step s addrs _ e refl))
        | inr (senders, e) ↦
            let joined = joined_count s addrs senders fresh e in
            rw (e, expected) (dial_waiting s addrs later u fresh h joined.0 joined.1)
      ]
