-- ===== src/Maintenance/Examples.antt =====
-- One pass of the maintenance loop at concrete inputs.
use p2p_service.Prelude.{
  ℕ, ◌+◌, ◌-◌, ◌≤◌, ◌≡◌, refl, true, false, some, List, map, String, ltb, String_discrete, [], ◌∷◌,
  length, Each,
}
use p2p_service.HashSet.{contains, IsDistinct}
use p2p_service.Backoff.{ready, prune}
use p2p_service.Peerstore
use p2p_service.Maintenance.{any, bootstrap_of, split_peer_multiaddr, is_undialable, is_local}
use p2p_service.Maintenance.Attempts.{tick}
use p2p_service.Maintenance.Bounds.{length-tick_dialed}
use p2p_service.Maintenance.Once.{tick_fair, MayDial, peers_of}
use p2p_service.Maintenance.Candidates.{IsShuffle}
use p2p_service.Maintenance.Safety.{IsSafe, tick-IsSafe}
use p2p_service.Maintenance.Sample.{in_order, failing, nobody, table}
use p2p_service.Maintenance.Origins.{HasOrigin, asking-HasOrigin}
use p2p_service.Network.Origins.{BringsKnown, KeepsKnown}
use p2p_service.Network.Loop.{Input, event, command, run}
use p2p_service.Maintenance.Connected.{asking, asking_lem}
use p2p_service.Network.Connections.{Link, opened, opens, begins, links_of}
use p2p_service.Network.{
  EventLoop, Endpoint, connection_established, new, identify_received, set_preferred_peers,
}
use p2p_service.Network.Events.{Clock, handle_event, has_tcp}
use p2p_service.Network.Sample.{sample_deps, sample_loop}
use p2p_service.Samples.{sample_net, read-show_peer, read-show_addr}

-- `is_undialable_classification` and `split_peer_multiaddr_extracts_id`.
loopback : is_undialable sample_net "loop" ≡ true
unfolding is_undialable any is_local
loopback = refl

routable : is_undialable sample_net "lan1" ≡ false
unfolding is_undialable any is_local
routable = refl

boot_split : split_peer_multiaddr sample_net "boot/p2p" ≡ some ("boot", "boot")
unfolding split_peer_multiaddr
boot_split = refl

in_order-IsShuffle : IsShuffle sample_net in_order
in_order-IsShuffle = record { preferred = λ P l h. h; stored = λ P l h. h }

tick_fair_example :
    let pass =
      tick sample_net in_order 2
        ("boot/p2p" ∷ [])
        0
        0
        (some nobody)
        Peerstore.default
        failing
        table in
    IsDistinct String_discrete (peers_of sample_net pass.dialed)
    × Each (MayDial sample_net [] failing (prune table 0)) (peers_of sample_net pass.dialed)
tick_fair_example =
    tick_fair sample_net in_order 2 ("boot/p2p" ∷ []) 0 0 nobody Peerstore.default failing table

length-tick_dialed_example :
    length
      (tick sample_net in_order 2
        ("boot/p2p" ∷ [])
        0
        0
        (some nobody)
        Peerstore.default
        failing
        table).dialed
    ≤ length (bootstrap_of sample_net ("boot/p2p" ∷ [])) + 16 + ((2 - 0) + 2)
length-tick_dialed_example =
    length-tick_dialed sample_net in_order 2 ("boot/p2p" ∷ []) 0 0 nobody Peerstore.default failing
      table

tick-IsSafe_example :
    Each
      (IsSafe sample_net (bootstrap_of sample_net ("boot/p2p" ∷ [])))
      (tick sample_net in_order 2
        ("boot/p2p" ∷ [])
        0
        0
        (some nobody)
        Peerstore.default
        failing
        table).dialed
tick-IsSafe_example =
    tick-IsSafe sample_net in_order 2 ("boot/p2p" ∷ []) 0 0 nobody Peerstore.default failing table
      in_order-IsShuffle

-- The event loop of the snapshot has one open connection, to "ann".
abbrev inbound : Endpoint sample_deps
inbound = record { is_dialer = false; remote_address = "lan1" }

abbrev midnight : Clock
midnight = record { unix = 0; millis = 0 }

abbrev one_link : EventLoop sample_deps
one_link =
    (handle_event sample_deps midnight sample_loop (connection_established "ann" 1 inbound)).0

abbrev open_links : List (Link sample_deps)
open_links = opened sample_deps midnight sample_loop "ann" 1 inbound ∷ []

asking_lem_example :
    let pass =
      asking sample_deps in_order 2
        ("boot/p2p" ∷ [])
        0
        0
        Peerstore.default
        failing
        table
        one_link
        []
        9 in
    Each (λ p. links_of sample_deps p open_links ≡ 0) (peers_of sample_net pass.dialed)
    × ((p : String)
        → any
            (λ e. ltb 0 (links_of sample_deps e.0 open_links))
            (bootstrap_of sample_net ("boot/p2p" ∷ []))
          ≡ false
        → contains String_discrete p (map (λ e. e.0) (bootstrap_of sample_net ("boot/p2p" ∷ [])))
          ≡ true
        → ((n : ℕ) → ready String_discrete (prune table 0) p (failing n).asked_at ≡ true)
        → contains String_discrete p (peers_of sample_net pass.dialed) ≡ true)
unfolding new
asking_lem_example =
    asking_lem sample_deps in_order 2 ("boot/p2p" ∷ []) 0 0 Peerstore.default failing table
      sample_loop [] 9 refl (opens midnight "ann" 1 inbound begins)

-- Every address that the event loop learns has TCP.
abbrev IsTcp : String → String → Type 0
IsTcp p addr = has_tcp (sample_deps.iter addr) ≡ true

abbrev learned : List (Input sample_deps)
learned =
    event midnight (identify_received "bob" ("lan2" ∷ "nowhere" ∷ []))
    ∷ command (set_preferred_peers (("ann", "loop" ∷ "lan1" ∷ []) ∷ []) 1)
    ∷ []

abbrev reached_by_dial : List (Input sample_deps)
reached_by_dial =
    event midnight
      (connection_established "cat" 1 (record { is_dialer = true; remote_address = "lan1" }))
    ∷ []

abbrev answering : EventLoop sample_deps
answering = (run sample_deps sample_loop learned).0

sample_loop-KeepsKnown : KeepsKnown sample_deps IsTcp sample_loop
unfolding new Each
sample_loop-KeepsKnown = record { stored = tt; hinted = tt }

learned-BringsKnown : Each (BringsKnown sample_deps IsTcp) learned
unfolding Each
learned-BringsKnown = ((λ tcp. refl, (λ tcp. absurd (cc), tt)), (((refl, (refl, tt)), tt), tt))

reached-BringsKnown : Each (BringsKnown sample_deps IsTcp) reached_by_dial
unfolding Each
reached-BringsKnown = (λ dialer. refl, tt)

asking-HasOrigin_example :
    Each
      (HasOrigin sample_deps IsTcp (bootstrap_of sample_net ("boot/p2p" ∷ [])))
      (asking sample_deps in_order 2
        ("boot/p2p" ∷ [])
        0
        0
        (run sample_deps answering reached_by_dial).0.peerstore
        failing
        table
        answering
        []
        9).dialed
asking-HasOrigin_example =
    asking-HasOrigin sample_deps IsTcp sample_loop learned reached_by_dial [] in_order 2
      ("boot/p2p" ∷ []) 0 0 failing table 9
      (record { peer = read-show_peer; addr = read-show_addr }) in_order-IsShuffle
      sample_loop-KeepsKnown learned-BringsKnown reached-BringsKnown
