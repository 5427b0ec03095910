-- ===== src/Network/Examples.antt =====
-- The event loop at concrete inputs.
use p2p_service.Prelude.{
  not, ◌&&◌, none, leb, ◌+◌, ◌≤◌, ◌≡◌, refl, ◌||◌, String, some, false, ltb, List, [], ◌∷◌, length,
  String_discrete,
}
use p2p_service.HashMap.{contains_key}
use p2p_service.HashSet.{contains, IsDistinct}
use p2p_service.Metrics
use p2p_service.Peerstore
use p2p_service.Subscriptions
use p2p_service.Deps.{wrong_peer_id}
use p2p_service.Network.{
  EventLoop, Endpoint, NetworkSettings, new, connection_established, dial, set_preferred_peers,
  outgoing_connection_error,
}
use p2p_service.Network.Commands.{protected_cap}
use p2p_service.Metrics.Gauge.{pos}
use p2p_service.Network.Connections.{History, begins, opens, Link, opened, links_of, conns}
use p2p_service.Network.Connections.Counts.{gauge_connections, connected_peers_lem}
use p2p_service.Network.Connections.Cap.{left_open, run_capped, told_lem}
use p2p_service.Network.Connections.Orders.{told_to_close}
use p2p_service.Subnet.{subnet}
use p2p_service.Subnet.Counts.{open_in}
use p2p_service.Network.Events.{Clock, handle_event}
use p2p_service.Network.Loop.{Input, event, command, run}
use p2p_service.Network.Dials.{run-answers}
use p2p_service.Network.Dials.Balance.{submitted, answers}
use p2p_service.Network.Dials.Table.{waits}
use p2p_service.Network.Protection.Reached.{run_protected}
use p2p_service.Network.Sample.{sample_deps, sample_recorder}
use p2p_service.Subscriptions.Sample.{queue_broadcast}

abbrev settings : NetworkSettings sample_deps
settings = record { low_water = 2; high_water = 4; per_subnet_cap = 1; max_protected_share = 50 }

-- The loop at the start, with one bootstrap peer.
abbrev start : EventLoop sample_deps
start =
    new sample_deps [] (Subscriptions.new queue_broadcast 16) Metrics.new Peerstore.default settings
      ("boot" ∷ [])

-- Two callers dial a peer, which fails; a third dials one whose dial is refused at once.
abbrev dials : List (Input sample_deps)
dials =
    command (dial "a" ("lan1" ∷ []) 1)
    ∷ command (dial "a" ("lan2" ∷ []) 2)
    ∷ command (dial "down" ("lan1" ∷ []) 3)
    ∷ event (record { unix = 0; millis = 0 }) (outgoing_connection_error (some "a") wrong_peer_id)
    ∷ command (dial "b" ("lan2" ∷ []) 4)
    ∷ []

run-answers_example :
    waits 2 start.pending_dials + submitted 2 dials
    ≡ waits 2 (run sample_deps start dials).0.pending_dials
      + answers sample_deps 2 (run sample_deps start dials).1
run-answers_example = run-answers sample_deps 2 start dials (unfold new in tt)

-- The second list drops "a" and is cut to the cap of two.
abbrev chosen : List (String × List String)
chosen = ("b", "lan1" ∷ []) ∷ ("boot", []) ∷ ("c", []) ∷ []

abbrev choices : List (Input sample_deps)
choices =
    command (set_preferred_peers (("a", []) ∷ []) 1) ∷ command (set_preferred_peers chosen 2) ∷ []

one_IsDistinct : IsDistinct String_discrete ("boot" ∷ [])
unfolding contains
one_IsDistinct = (refl, tt)

run_protected_example :
    let s = (run sample_deps start choices).0 in
    (contains String_discrete "b" s.protected ≡ (
      contains String_discrete "b" ("boot" ∷ []) || contains_key String_discrete "b" s.dial_hints))
    × (length s.protected ≤ 1 + protected_cap sample_deps settings)
run_protected_example =
    run_protected sample_deps [] (Subscriptions.new queue_broadcast 16) Metrics.new
      Peerstore.default settings ("boot" ∷ []) choices "b" one_IsDistinct

-- Two connections of one peer, the second over the cap of its subnet; the first closes.
abbrev inbound : String → Endpoint sample_deps
inbound addr = record { is_dialer = false; remote_address = addr }

abbrev midnight : Clock
midnight = record { unix = 0; millis = 0 }

abbrev one_link : EventLoop sample_deps
one_link =
    (handle_event sample_deps midnight start (connection_established "a" 1 (inbound "lan1"))).0

abbrev two_links : EventLoop sample_deps
two_links =
    (handle_event sample_deps midnight one_link (connection_established "a" 2 (inbound "lan2"))).0

abbrev open_links : List (Link sample_deps)
open_links =
    opened sample_deps midnight one_link "a" 2 (inbound "lan2")
    ∷ opened sample_deps midnight start "a" 1 (inbound "lan1")
    ∷ []

history : History sample_deps start two_links open_links
history = opens midnight "a" 2 (inbound "lan2") (opens midnight "a" 1 (inbound "lan1") begins)

gauge_connections_example : two_links.metrics.connected_peers ≡ pos 2
unfolding new Metrics.new
gauge_connections_example = gauge_connections sample_deps start refl history

connected_peers_lem_example :
    contains_key String_discrete "a" two_links.connected
    ≡ ltb 0 (links_of sample_deps "a" open_links)
unfolding new
connected_peers_lem_example = connected_peers_lem sample_deps start "a" refl history

-- The second connection of the subnet is told to close, the first is left open.
run_capped_example :
    left_open sample_deps sample_recorder (record { a = 10; b = 0; c = 0 }) open_links ≤ 1
run_capped_example =
    run_capped sample_deps sample_recorder [] (Subscriptions.new queue_broadcast 16) Metrics.new
      Peerstore.default settings ("boot" ∷ []) (record { a = 10; b = 0; c = 0 }) history

-- When the second connection opens, its subnet has the one open connection that the cap allows.
abbrev first_link : List (Link sample_deps)
first_link = opened sample_deps midnight start "a" 1 (inbound "lan1") ∷ []

told_lem_example :
    told_to_close sample_recorder (opened sample_deps midnight one_link "a" 2 (inbound "lan2")) ≡ (
      not (contains String_discrete "a" one_link.protected)
      && (ltb 4 (length two_links.connected) || elim (subnet sample_deps.net "lan2") [
        | none ↦ false
        | some n ↦ leb 1 (open_in sample_deps.net n (conns sample_deps first_link))
      ]))
told_lem_example =
    told_lem sample_deps sample_recorder [] (Subscriptions.new queue_broadcast 16) Metrics.new
      Peerstore.default settings ("boot" ∷ []) midnight "a" 2 (inbound "lan2")
      (opens midnight "a" 1 (inbound "lan1") begins)
