-- ===== src/Startup/Boot/Examples.antt =====
-- A start of the service at a concrete host, and its end.
use p2p_service.Prelude.{
  ℕ, ◌≡◌, ◌↔◌, ◌⊎◌, refl, ◌≤◌, ◌+◌, arith, true, String, String_discrete, String-ne, List, [], ◌∷◌,
  ◌++◌, some, none, length, drop, ℕ_discrete, zero, suc, Option, some_inj,
}
use mathlib.Core.List.{filter_map}
use p2p_service.HashMap
use p2p_service.HashSet
use p2p_service.Subnet
use p2p_service.Maintenance.{split_peer_multiaddr}
use p2p_service.Network.Events.{handle_event}
use p2p_service.Metrics
use p2p_service.Subscriptions
use p2p_service.Peerstore.{PeerStore, PeerRecord, default}
use p2p_service.Peerstore.File.{written, not_opened, load}
use p2p_service.Config.{AppConfig, default_sentry, read_app_config, default_p2p, fill, aliased}
use p2p_service.Config.Examples.{legacy_keys}
use p2p_service.Network.{EventLoop, new, logged, set_preferred_peers}
use p2p_service.Network.Build.{new_network}
use p2p_service.Network.Loop.{event, command, step, run}
use p2p_service.Network.Sample.{sample_deps, listened, joined}
use p2p_service.Network.Commands.{handle_command, ack_or_other}
use p2p_service.Network.Client.{
  client_start_listening, client_subscribe, send_command_and_wait, received, wait, read_unit,
}
use p2p_service.Startup.{
  validate_config, network_settings, bootstrap_peer_ids, dedup_topics, dedup_from,
}
use p2p_service.Startup.Examples.{percent-IsShare}
use p2p_service.Startup.Supervision.{Tick, sigterm, sigint, supervise}
use p2p_service.Startup.Supervision.Persistence.{RoundTrips, survivor, lands, load-supervise}
use p2p_service.Startup.Boot.{
  Host, Service, reached, boot, parse_args, read_config, load_p2p_private_key, serve_grpc,
  serve_http, ready, listen_on_port, subscribe_to_topics, accepted, listened as after_listening,
  configure_sentry,
}
use p2p_service.Startup.Boot.Reached.{IsReady, boot-IsReady}
use p2p_service.Startup.Boot.Limits.{boot_slots}

abbrev host : Host sample_deps
host = record {
  args = parse_args none (some "key");
  files = ("config.yml", "document") ∷ ("key", "self") ∷ [];
  parse_yaml = λ text. some (some (record legacy_keys { peers = some ("boot/p2p" ∷ []) }), none);
  try_decode_pkcs8 = λ text. some text;
  to_json = λ store. some "store";
  from_json = λ text. none;
  cargo_pkg_version = "0.1.0";
  build_swarm = λ c. some [];
  is_socket_addr = λ grpc_host grpc_port. true;
  binds_grpc = λ grpc_host grpc_port. true;
  binds_http = λ metrics_port. true;
  before_listening = [];
  before_subscribing = λ topic. event (record { unix = 0; millis = 0 }) logged ∷ [];
}

abbrev app_config : AppConfig sample_deps
app_config = record {
  p2p = record {
    port = record { number = 4025 };
    grpc_host = "0.0.0.0";
    grpc_port = record { number = 4031 };
    metrics_port = record { number = 4040 };
    peers = "boot/p2p" ∷ [];
    topics = "ALIVE" ∷ "ALEPH-TEST" ∷ [];
    nb_api_workers = 4;
    peerstore_path = "peerstore.json";
    low_water = 80;
    high_water = 160;
    per_subnet_cap = 4;
    max_protected_share = 50;
    maintenance_interval_secs = 30;
  };
  sentry = default_sentry sample_deps;
}

-- The swarm listens on the port, then joins the two topics.
abbrev running_loop : EventLoop sample_deps
running_loop =
    new sample_deps (listened "any" ∷ joined "ALIVE" ∷ joined "ALEPH-TEST" ∷ [])
      (Subscriptions.new sample_deps.broadcast 1024) Metrics.new default
      (network_settings sample_deps app_config.p2p) ("boot" ∷ [])

abbrev service : Service sample_deps
service = ready sample_deps app_config "self" running_loop

boots : boot sample_deps host ≡ reached service
unfolding boot read_config load_p2p_private_key serve_grpc serve_http ready listen_on_port
    subscribe_to_topics accepted after_listening HashMap.get parse_args read_app_config default_p2p
    fill aliased new new_network step handle_command run client_start_listening client_subscribe
    send_command_and_wait received wait read_unit validate_config network_settings
    bootstrap_peer_ids dedup_topics dedup_from String_discrete ℕ_discrete ack_or_other
    HashSet.contains handle_event Subscriptions.new Metrics.new Subnet.new configure_sentry load
    HashSet.from_list filter_map split_peer_multiaddr HashSet.insert
boots = refl

boot-IsReady_example : IsReady sample_deps host service
boot-IsReady_example = boot-IsReady sample_deps host service boots

boot_slots_example :
    length
      (run sample_deps service.event_loop
        (command (set_preferred_peers (("a", []) ∷ []) 1) ∷ [])).0.protected
    ≤ length (bootstrap_peer_ids sample_deps.net service.app_config.p2p.peers)
      + service.app_config.p2p.high_water
unfolding ready
boot_slots_example =
    boot_slots sample_deps host service (command (set_preferred_peers (("a", []) ∷ []) 1) ∷ [])
      percent-IsShare boots (omega arith)

-- A serialiser of stores with one peer, no address and the time 0: it writes the key.
abbrev key_of : String → List String → ℕ → Option String
key_of key [] zero = some key
key_of key _ _ = none

abbrev peers_key : HashMap.HashMap String PeerRecord → Option String
peers_key ((key, r) ∷ []) = key_of key r.addrs r.last_seen_unix
peers_key _ = none

abbrev to_key : PeerStore → Option String
to_key store = peers_key store.peers

abbrev one_key : String → PeerStore
one_key key = record { peers = (key, record { addrs = []; last_seen_unix = 0 }) ∷ [] }

abbrev of_key : String → Option PeerStore
of_key key = some (one_key key)

one_record :
    (key : String) (r : PeerRecord) (contents : String)
    → key_of key r.addrs r.last_seen_unix ≡ some contents
    → of_key contents ≡ some (record { peers = (key, r) ∷ [] })
one_record key r contents h = go r.addrs r.last_seen_unix h
  where
    go :
        (addrs : List String) (n : ℕ)
        → key_of key addrs n ≡ some contents
        → of_key contents
          ≡ some (record { peers = (key, record { addrs = addrs; last_seen_unix = n }) ∷ [] })
    go [] zero h = rw (some_inj h) refl
    go [] (suc n) h = absurd (cc h)
    go (a ∷ addrs) n h = absurd (cc h)

of_key-to_key : RoundTrips to_key of_key "tmp" "path"
of_key-to_key store contents h = go store.peers h
  where
    go :
        (peers : HashMap.HashMap String PeerRecord)
        → peers_key peers ≡ some contents
        → of_key contents ≡ some (record { peers = peers })
    go [] h = absurd (cc h)
    go ((key, r) ∷ []) h = one_record key r contents h
    go (e ∷ f ∷ peers) h = absurd (cc h)

-- Three ticks: the first is skipped, the second save goes through, the third does not; neither does
-- the final one.
abbrev saved : String → Tick
saved key = record { store = one_key key; outcomes = record { write = written; renamed = true } }

abbrev lost : String → Tick
lost key = record { store = one_key key; outcomes = record { write = not_opened; renamed = true } }

abbrev ticks : List Tick
ticks = saved "Qann" ∷ saved "Qbob" ∷ lost "Qeve" ∷ []

bob_survives :
    survivor to_key of_key "tmp" "path" default (drop 1 ticks ++ lost "Qeve" ∷ []) ≡ one_key "Qbob"
unfolding survivor lands
bob_survives = refl

load-supervise_example :
    let r = supervise to_key of_key "tmp" "path" [] ticks sigterm (lost "Qeve") in
    (load to_key of_key r.0 "path"
      ≡ survivor to_key of_key "tmp" "path"
          (load to_key of_key [] "path")
          (drop 1 ticks ++ lost "Qeve" ∷ []))
    × ((r.1 ≡ 0) ↔ ((sigterm ≡ sigint) ⊎ (sigterm ≡ sigterm)))
load-supervise_example =
    load-supervise to_key of_key "tmp" "path" (String-ne "tmp" "path" refl) of_key-to_key [] ticks
      sigterm (lost "Qeve")
