-- ===== src/Lib.antt =====
-- The aleph.im P2P service: a daemon that keeps a libp2p node connected, forwards gossipsub
-- messages to local consumers and serves them over gRPC.
--
-- The parts, and the files that model them (paths from the repository's root):
--
-- - src/p2p/network.rs, the event loop. Network.antt has the state `EventLoop`, the commands and
--   the swarm events; Network/Events.antt has `handle_event`, one function per arm, and
--   `enforce_connection_limits`; Network/Commands.antt has `handle_command`; Network/Loop.antt has
--   the select loop `run` as a function of the sequence of events and commands in the order in
--   which they are taken. A handler returns the next state and what it sent on one-shot channels,
--   which are numbered. Network/Errors.antt has `classify_dial_error`. Network/Frames.antt with its
--   children says what each handler leaves alone, Network/Dials.antt follows the senders of
--   commands, over the counts of Network/Dials/Table.antt and Network/Dials/Balance.antt, and
--   Network/Protection.antt with its children the protected peers. Network/Connections.antt keeps
--   the list of open connections beside the state; Network/Connections/Counts.antt and
--   Network/Connections/Cap.antt compare the two, the latter with the calls that close a
--   connection, which Network/Connections/Orders.antt observes in the swarm. Network/Origins.antt follows the addresses that
--   come in, and Peerstore/Origins.antt and Maintenance/Origins.antt where they go to.
-- - src/p2p/subnet.rs, the cap per /24 subnet: Subnet.antt, with its counters against the open
--   connections in Subnet/Counts.antt and the cap in Subnet/Cap.antt.
-- - src/p2p/backoff.rs, the backoff of dials: Backoff.antt, Backoff/Delay.antt,
--   Backoff/Readiness.antt.
-- - src/p2p/peerstore.rs, the known peers: Peerstore.antt, Peerstore/Addresses.antt,
--   Peerstore/Newest.antt, Peerstore/Candidates.antt, Peerstore/Origins.antt, and
--   Peerstore/File.antt for `load` and `save`.
-- - src/subscriptions.rs, the fanout to consumers: Subscriptions.antt; Subscriptions/Channel.antt
--   states what is asked of tokio's broadcast channel, Subscriptions/Calls.antt has sequences of
--   calls, Subscriptions/Delivery.antt follows a consumer over them, and Subscriptions/Reading.antt
--   what it then reads by `recv`, of which Subscriptions/Receive.antt states what is asked.
-- - src/p2p/maintenance.rs, the loop that keeps the node connected: Maintenance.antt has the
--   candidates of one pass, Maintenance/Attempts.antt the dials and the pass `tick`, and
--   Maintenance/Rounds.antt the loop; Maintenance/Once.antt, Maintenance/Safety.antt,
--   Maintenance/Bounds.antt and Maintenance/Anchor.antt say whom a pass dials, over the lists of
--   Maintenance/Candidates.antt, and Maintenance/Connected.antt whom one does that asks a running
--   event loop for its snapshot. Maintenance/Table.antt and the children of Maintenance/Rounds.antt
--   follow the backoff table over the rounds: Quiet.antt while a window runs, Log.antt lists the
--   dials, Rests.antt and Spacing.antt say how far apart they are, and Anchored.antt how soon they
--   come again.
-- - src/p2p/network.rs, the client: Network/Client.antt has `P2PClient`, each method as a call on
--   the event loop that it meets: the loop's state when it takes the command, or none if it is
--   gone, and what it takes afterwards until it ends. Network/Client/Wait.antt is about the
--   one-shot channel, Network/Client/Dialing.antt and Network/Client/Outcome.antt about
--   `dial_and_wait`. Network/Build.antt has `make_gossipsub_config` and `new`: what libp2p's
--   builder is given.
-- - src/grpc.rs: Grpc.antt has the logic of Publish, of the parsing in SetPreferredPeers and of the
--   status of a failed dial, with Grpc/Publish.antt and Grpc/Peers.antt. Grpc/Handlers.antt has the
--   handlers from the request to the response, with Grpc/Dialing.antt and Grpc/Preferred.antt;
--   Grpc/Counting.antt follows a Publish from its request to its counters, its echo and its reply;
--   Grpc/Stream.antt has the stream of Subscribe, Grpc/Delivery.antt follows its consumer over what
--   the event loop takes, with Network/Fanout.antt, and Grpc/Echo.antt follows a message of Publish
--   to the consumers.
-- - src/config.rs: Config.antt, with the legacy key in Config/Keys.antt.
-- - src/main.rs: Startup.antt has `validate_config`, the deduplication of topics and
--   `bootstrap_peer_ids`, with Startup/Checks.antt, Startup/Defaults.antt and, for the event loop
--   that is started with them, Startup/Slots.antt. Startup/Boot.antt is `main` up to the
--   supervision, with Startup/Boot/Steps.antt, Startup/Boot/Reached.antt and
--   Startup/Boot/Limits.antt; Startup/Supervision.antt is the rest of it, with
--   Startup/Supervision/Persistence.antt.
-- - src/metrics.rs: Metrics.antt, with gauges as integers in Metrics/Gauge.antt, and the memory
--   gauge in Metrics/Memory.antt, over the text functions of Metrics/Memory/Text.antt, with
--   Metrics/Memory/Status.antt.
-- - src/http: Http.antt has the routes and the handlers of the metrics server, Http/Requests.antt
--   sequences of requests.
--
-- The event loop owns the subnet limits and the table of dials; the peerstore, the subscriptions
-- and the metrics are shared with the rest of the program, and each call on them is one step
-- under its lock.
--
-- Net.antt and Deps.antt hold what the program calls outside the repository, as parameters:
-- libp2p's addresses and peer ids, the swarm with gossipsub (each call returns the swarm
-- afterwards), keys, hashes, the broadcast channel, and floating point. A HashMap (HashMap.antt)
-- is an association list and a HashSet (HashSet.antt) a list. Samples.antt and the Sample modules
-- instantiate the parameters, and the Examples modules apply the theorems to concrete inputs. The
-- Tests modules have the unit tests of the source files as functions into Bool, over the parameters,
-- each with the proof that it passes.
--
-- Bounds: durations are counts of nanoseconds below `duration_max`, the counter of failures wraps
-- at 2^32, counters of metrics at 2^64, the answers of SetPreferredPeers at 2^32, the memory
-- usage at 2^64. No loop needs fuel: all are loops over lists, of inputs, ticks, results or
-- characters. How often a consumer calls `recv` is a number, which is to exceed the messages that
-- wait by more than one.
--
-- Not modelled: logging, the transport that the gRPC and HTTP libraries generate or provide, the
-- build script, the integration tests, which run several nodes, and the vendored copy of core2.
-- The timeout of a dial in the maintenance loop is one of the outcomes that the dial has there.
-- Panics are left out: of the arithmetic on durations and instants in src/p2p/backoff.rs, and of a
-- lock that another thread's panic has poisoned.
mod Prelude
pub mod HashMap
pub mod HashSet
pub mod Net
pub mod Backoff
pub mod Subnet
pub mod Peerstore
pub mod Metrics
pub mod Subscriptions
pub mod Config
pub mod Deps
pub mod Http
pub mod Network
pub mod Maintenance
pub mod Startup
pub mod Grpc
mod Samples
