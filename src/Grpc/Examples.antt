-- ===== src/Grpc/Examples.antt =====
-- The handlers at concrete inputs.
use mathlib.Core.List.{filter_map}
use p2p_service.Prelude.{
  ℕ, ℕ_discrete, ◌≤◌, keep_last, ◌+◌, ◌%◌, ◌^◌, ◌++◌, length, some, none, arith, ◌≡◌, refl, true,
  false, ltb, map, if◌then◌else◌, String_discrete, String-ne, List, [], ◌∷◌,
}
use p2p_service.HashMap
use p2p_service.HashSet.{contains, insert}
use p2p_service.Deps.{ok, is_ok}
use p2p_service.Metrics
use p2p_service.Metrics.{inc_counter, events_of, increment_event}
use p2p_service.Subscriptions
use p2p_service.Subscriptions.Sample.{queue_broadcast, queue_laws, queue_receive, Chan}
use p2p_service.Subscriptions.Calls
use p2p_service.Subscriptions.Calls.{Call, publishes, sent_on}
use p2p_service.Grpc.Echo.{echoes, said, is_taken, handle_publish_delivers}
use p2p_service.Network.Fanout.{gossip, of_topic}
use p2p_service.Network.Commands.{handle_command, ack_or_other}
use p2p_service.Grpc.Delivery.{handle_subscribe_streams}
use p2p_service.Network.{EventLoop, message, connection_established, set_preferred_peers, new}
use p2p_service.Network.Loop.{Input, event, command, step, run}
use p2p_service.Network.Dials.Table.{waits}
use p2p_service.Network.Dials.Balance.{submitted}
use p2p_service.Network.Client.{
  raised, Link, client_subscribe, send_command_and_wait, wait, read_unit,
}
use p2p_service.Network.Client
use p2p_service.Network.Client.Outcome.{expected}
use p2p_service.Network.Sample.{sample_deps, sample_loop}
use p2p_service.Subscriptions.Channel.{Envelope}
use p2p_service.Subscriptions.Receive.{Recv, got, lagged, polls}
use p2p_service.Grpc.Handlers.{
  or_internal, handle_subscribe, GrpcService, replied, handle_dial, handle_set_preferred_peers,
  handle_publish,
}
use p2p_service.Grpc.Dialing.{told, handle_dial_lem}
use p2p_service.Grpc.Preferred.{handle_set_preferred_peers_lem}
use p2p_service.Grpc.Stream.{
  to_proto, stream, stream_lem, received, before_close, lags, is_closed, lagged_count,
}
use p2p_service.Grpc.{Shared, PublishRequest, PreferredPeer, keep_addrs, parse_peers}
use p2p_service.Grpc.Peers.{first_entry, listed, apart, valid_addrs}
use p2p_service.Grpc.Counting.{Follows, handle_publish-Follows}
use p2p_service.Samples.{sample_net}

-- "ann" is listed twice, and the second entry's id does not parse.
abbrev entries : List PreferredPeer
entries = ("Qann", "/lan1" ∷ "bad" ∷ []) ∷ ("x", []) ∷ ("Qann", "/lan2" ∷ []) ∷ []

parsed : parse_peers sample_net [] entries ≡ ("ann", "lan1" ∷ []) ∷ []
unfolding parse_peers filter_map keep_addrs contains String_discrete insert
parsed = refl

abbrev shared : Shared queue_broadcast
shared = record { metrics = Metrics.new; subscriptions = Subscriptions.new queue_broadcast 16 }

abbrev request : PublishRequest
request = record { topic = "a"; payload = []; echo = true }

-- The event loop as the handlers meet it: the peer that is dialed connects, or nothing more comes.
abbrev later : List (Input sample_deps)
later =
    event (record { unix = 0; millis = 0 })
      (connection_established "a" 1 (record { is_dialer = true; remote_address = "lan1" }))
    ∷ []

abbrev service : List (Input sample_deps) → GrpcService sample_deps
service is = record {
  client = record { event_loop = some sample_loop; later = is };
  shared = shared;
  local_peer_id = "self";
}

-- The swarm of the examples has no peer to send to: the request is counted as such, and echoed.
handle_publish-Follows_example :
    Follows sample_deps
      (handle_publish sample_deps (service []) 7 9 request)
      shared
      "Qself"
      9
      request
      (record { event = some "publish_no_peers"; is_sent = false; reply = ok })
unfolding String_discrete
handle_publish-Follows_example = handle_publish-Follows sample_deps (service []) 7 9 request

handle_dial_lem_example :
    handle_dial sample_deps (service later) 7 "Qa" "/lan1"
    ≡ told (expected sample_deps 7 "a" sample_loop ("lan1" ∷ []) later)
unfolding new submitted waits
handle_dial_lem_example =
    handle_dial_lem sample_deps sample_loop later shared "self" 7 "Qa" "/lan1" tt refl refl

-- Two distinct peers, of which the cap of two takes both.
abbrev three_entries : List PreferredPeer
three_entries = ("Qann", "/lan1" ∷ "bad" ∷ []) ∷ ("x", []) ∷ ("Qbob", "/lan2" ∷ []) ∷ []

handle_set_preferred_peers_lem_example :
    (handle_set_preferred_peers sample_deps (service []) 7 three_entries
      ≡ replied (record { accepted = 2; truncated = 0 }))
    × (HashMap.get String_discrete "ann"
          (step sample_deps sample_loop (
            command (set_preferred_peers (parse_peers sample_net [] three_entries) 7))).0.dial_hints
        ≡ some ("lan1" ∷ []))
unfolding listed apart first_entry valid_addrs String_discrete contains new
handle_set_preferred_peers_lem_example =
    handle_set_preferred_peers_lem sample_deps sample_loop [] shared "self" 7 three_entries "ann"
      (omega arith)

abbrev envelope : Envelope
envelope = record { topic = "a"; source_peer_id = "Qa"; payload = 1 ∷ []; received_at_millis = 5 }

abbrev results : List Recv
results = got envelope ∷ lagged 3 ∷ got envelope ∷ []

stream_lem_example :
    let s = stream Metrics.new results in
    (s.yielded ≡ received (before_close results))
    × (s.ended ≡ is_closed results)
    × (lagged_count s.metrics ≡ (lagged_count Metrics.new + lags (before_close results)) % 2 ^ 64)
stream_lem_example =
    stream_lem Metrics.new results (unfold Metrics.new events_of HashMap.get in omega arith)

-- A consumer of "a": the event loop takes one message of the topic, one of another, and one
-- without a source.
abbrev registered : Subscriptions.Subscriptions queue_broadcast × ℕ
registered = Subscriptions.subscribe queue_broadcast shared.subscriptions "a"

abbrev joined_loop : EventLoop sample_deps
joined_loop = record sample_loop { subscriptions = registered.0 }

abbrev messages : List (Input sample_deps)
messages =
    event (record { unix = 0; millis = 5 }) (message (some "ann") "a" (1 ∷ []))
    ∷ event (record { unix = 0; millis = 6 }) (message (some "ann") "b" (2 ∷ []))
    ∷ event (record { unix = 0; millis = 7 }) (message none "a" (3 ∷ []))
    ∷ []

abbrev meets : Subscriptions.Subscriptions queue_broadcast → Link sample_deps
meets subs = record {
  event_loop = some (record sample_loop { subscriptions = subs });
  later = messages;
}

one_message :
    of_topic "a" (gossip sample_deps messages)
    ≡ record { topic = "a"; source_peer_id = "Qann"; payload = 1 ∷ []; received_at_millis = 5 } ∷ []
unfolding of_topic gossip String_discrete
one_message = refl

handle_subscribe_streams_example :
    (sender : Chan) × (HashMap.get String_discrete "a"
        (run sample_deps joined_loop messages).0.subscriptions.senders
      ≡ some sender)
    × (stream Metrics.new (polls queue_receive 9 sender registered.1) ≡ record {
      yielded =
          map to_proto
            (keep_last (queue_laws.capacity sender) (of_topic "a" (gossip sample_deps messages)));
      metrics =
          if ltb (queue_laws.capacity sender) (length (of_topic "a" (gossip sample_deps messages)))
          then increment_event Metrics.new "subscriber_lagged"
          else Metrics.new;
      ended = false;
    })
    × (16 ≤ queue_laws.capacity sender)
unfolding handle_subscribe or_internal Calls.run String_discrete client_subscribe
    send_command_and_wait Client.received wait read_unit run step handle_command ack_or_other
    ℕ_discrete new of_topic gossip
handle_subscribe_streams_example =
    handle_subscribe_streams sample_deps queue_laws queue_receive (service []) 7 16 meets "a" []
      joined_loop registered.1 messages Metrics.new 9 refl refl (omega arith)

-- The consumer of "a" has one message of its topic when Publish is called with an echo.
abbrev calls : List Call
calls = publishes envelope ∷ []

abbrev called_service : GrpcService sample_deps
called_service = record (service []) {
  shared = record shared { subscriptions = Calls.run queue_broadcast registered.0 calls };
}

handle_publish_delivers_example :
    let done = handle_publish sample_deps called_service 7 9 request in
    (sender : Chan) × (HashMap.get String_discrete "a" done.0.subscriptions.senders ≡ some sender)
    × (queue_laws.waiting sender registered.1
        ≡ keep_last
            (queue_laws.capacity sender)
            (sent_on "a" (calls ++ echoes sample_deps called_service 9 sample_loop request)))
    × (16 ≤ queue_laws.capacity sender)
    × (is_ok done.1 ≡ is_taken (said sample_deps sample_loop request))
unfolding Calls.run
handle_publish_delivers_example =
    handle_publish_delivers sample_deps queue_laws called_service 7 9 request sample_loop [] 16 []
      calls "a" refl (String-ne "a" "" refl) refl
