-- ===== src/Network/Client/Examples.antt =====
-- Calls of the client at concrete inputs.
use p2p_service.Prelude.{◌≡◌, refl, true, String_discrete, List, [], ◌∷◌, some}
use p2p_service.Deps.{wrong_peer_id}
use p2p_service.Network.{new, connection_established, dial_failed, outgoing_connection_error}
use p2p_service.Network.Loop.{Input, event}
use p2p_service.Network.Sample.{sample_deps, sample_loop}
use p2p_service.Network.Dials.Table.{waits}
use p2p_service.Network.Dials.Balance.{submitted}
use p2p_service.Network.Client.{raised, Link, dial_and_wait}
use p2p_service.Network.Client.Dialing.{first_outcome, outcome_of}
use p2p_service.Network.Client.Outcome.{expected, dial_and_wait_lem}

-- Another peer connects first, then the dial fails.
abbrev later : List (Input sample_deps)
later =
    event (record { unix = 0; millis = 0 })
      (connection_established "b" 1 (record { is_dialer = true; remote_address = "lan2" }))
    ∷ event (record { unix = 1; millis = 0 }) (outgoing_connection_error (some "a") wrong_peer_id)
    ∷ []

abbrev link : Link sample_deps
link = record { event_loop = some sample_loop; later = later }

first_outcome_is_error : first_outcome sample_deps "a" later ≡ raised (dial_failed wrong_peer_id)
unfolding first_outcome outcome_of String_discrete
first_outcome_is_error = refl

dial_and_wait_lem_example :
    dial_and_wait sample_deps link 7 "a" ("lan1" ∷ [])
    ≡ expected sample_deps 7 "a" sample_loop ("lan1" ∷ []) later
unfolding submitted waits
dial_and_wait_lem_example =
    dial_and_wait_lem sample_deps 7 "a" sample_loop ("lan1" ∷ []) later (unfold new in tt)
      (unfold new in refl) refl
