-- ===== src/Startup/Boot/Reached.antt =====
-- The state in which startup (src/main.rs) hands over to the supervision.
use mathlib.Core.Path.{subst}
use p2p_service.Prelude.{
  some_inj, bind_some, ℕ, ◌≡◌, refl, sym, ap, ◌∙◌, some, String, List, ◌∷◌, ◌++◌,
}
use p2p_service.Net.{tcp}
use p2p_service.Deps.{Deps, ok}
use p2p_service.Metrics
use p2p_service.Subscriptions
use p2p_service.Peerstore.File.{load}
use p2p_service.Config.{AppConfig}
use p2p_service.Network
use p2p_service.Network.{EventLoop, start_listening}
use p2p_service.Network.Build.{new_network, swarm_config}
use p2p_service.Network.Loop.{Input, command, step, run}
use p2p_service.Startup.{validate_config, network_settings, bootstrap_peer_ids, dedup_topics}
use p2p_service.Startup.Boot.{
  serve_grpc, serve_http, ready, Host, Service, reached, boot, read_config, load_p2p_private_key,
  listen_on_port, accepted, required, subscribe_to_topics, no_network, invalid_bind_address,
}
use p2p_service.Startup.Boot.Steps.{
  bind_reached, reached_inj, required_reached, accepted_reached, listened_reached, run-append,
  subscription_inputs, subscribe_to_topics_reached,
}

module _ (d : Deps) (host : Host d) where
  -- What the event loop has taken when startup is over: the command to listen, and one to subscribe
  -- for each topic, with what came before each.
  unfoldable pub boot_inputs : (bind_addr : d.Multiaddr) → (topics : List String) → List (Input d)
  boot_inputs bind_addr topics =
      host.before_listening
      ++ command (start_listening bind_addr 0)
        ∷ subscription_inputs d host.before_subscribing topics

  -- The event loop as it is built.
  unfoldable pub initial_loop : d.Swarm → AppConfig d → EventLoop d
  initial_loop swarm app_config =
      Network.new d swarm (Subscriptions.new d.broadcast 1024) Metrics.new
        (load host.to_json host.from_json host.files app_config.p2p.peerstore_path)
        (network_settings d app_config.p2p) (bootstrap_peer_ids d.net app_config.p2p.peers)

  listen_on_port_reached :
      (s s' : EventLoop d) (port : ℕ)
      → listen_on_port d host s port ≡ reached s'
      → (any_host : d.Multiaddr) × (d.read_addr "/ip4/0.0.0.0" ≡ some any_host)
        × (s'
            ≡ (step d
                (run d s host.before_listening).0
                (command (start_listening (d.push any_host (tcp port)) 0))).0)
  unfolding listen_on_port
  listen_on_port_reached s s' port h =
      let (any_host, parsed, rest) =
        bind_reached (required (d.read_addr "/ip4/0.0.0.0") invalid_bind_address) _ s' h in
      (
        any_host,
        required_reached (d.read_addr "/ip4/0.0.0.0") invalid_bind_address any_host parsed,
        listened_reached d _ s' _ rest,
      )

  -- What holds of the service that startup hands over.
  pub record IsReady (service : Service d) : Type 0 where
    pub config : validate_config d service.app_config.p2p ≡ ok
    pub id_keys : d.Keypair
    pub swarm : d.Swarm
    pub any_host : d.Multiaddr
    pub read : read_config d host host.args.config ≡ reached service.app_config
    pub identity : service.peer_id ≡ d.peer_id_of id_keys
    pub built : host.build_swarm (swarm_config d host.cargo_pkg_version id_keys) ≡ some swarm
    pub parsed : d.read_addr "/ip4/0.0.0.0" ≡ some any_host
    pub event_loop :
        service.event_loop
        ≡ (run d (initial_loop swarm service.app_config) (
            boot_inputs
              (d.push any_host (tcp service.app_config.p2p.port.number))
              (dedup_topics service.app_config.p2p.topics))).0

  built_reached :
      (id_keys : d.Keypair) (app_config : AppConfig d) (s : EventLoop d)
      → new_network d host.cargo_pkg_version host.build_swarm id_keys
          (network_settings d app_config.p2p)
          (bootstrap_peer_ids d.net app_config.p2p.peers)
          Metrics.new
          (Subscriptions.new d.broadcast 1024)
          (load host.to_json host.from_json host.files app_config.p2p.peerstore_path)
        ≡ some s
      → (swarm : d.Swarm) × (host.build_swarm (swarm_config d host.cargo_pkg_version id_keys)
          ≡ some swarm)
        × (s ≡ initial_loop swarm app_config)
  unfolding new_network initial_loop
  built_reached id_keys app_config s h =
      let (swarm, built, made) =
        bind_some (host.build_swarm (swarm_config d host.cargo_pkg_version id_keys)) _ s h in
      (swarm, built, sym (some_inj made))

  -- If startup reaches the supervision, the configuration that it read passes the checks, the peer
  -- id is that of the key, and the event loop is the one built with the loaded peerstore, the
  -- configured settings and the bootstrap peers, after it took the command to listen on the
  -- configured port and then one subscription for each configured topic, repetitions left out, in
  -- their order, with whatever it took before each of them.
  pub boot-IsReady : (service : Service d) → boot d host ≡ reached service → IsReady service
  unfolding boot boot_inputs run
  boot-IsReady service h =
      let (app_config, read, h1) = bind_reached (read_config d host host.args.config) _ service h in
      let (checked, accept, h2) =
        bind_reached (accepted d (validate_config d app_config.p2p)) _ service h1 in
      let (id_keys, keys, h3) =
        bind_reached (load_p2p_private_key d host host.args.private_key_file) _ service h2 in
      let (s, built, h4) =
        bind_reached
          (required
            (new_network d host.cargo_pkg_version host.build_swarm id_keys
              (network_settings d app_config.p2p) (bootstrap_peer_ids d.net app_config.p2p.peers)
              Metrics.new (Subscriptions.new d.broadcast 1024)
              (load host.to_json host.from_json host.files app_config.p2p.peerstore_path))
            no_network)
          _ service h3 in
      let (listening, listen, h5) =
        bind_reached (listen_on_port d host s app_config.p2p.port.number) _ service h4 in
      let (joined, join, h6) =
        bind_reached
          (subscribe_to_topics d host.before_subscribing listening
            (dedup_topics app_config.p2p.topics))
          _ service h5 in
      let (any_host, parsed, at) =
        listen_on_port_reached s listening app_config.p2p.port.number listen in
      let (x, grpc, h7) = bind_reached (serve_grpc d host app_config) _ service h6 in
      let (y, http, h8) = bind_reached (serve_http d host app_config) _ service h7 in
      let (swarm, given, initial) =
        built_reached id_keys app_config s (required_reached _ no_network s built) in
      subst IsReady (reached_inj _ service h8) (
        unfold ready in
        record {
          config = accepted_reached d (validate_config d app_config.p2p) checked accept;
          id_keys = id_keys;
          swarm = swarm;
          any_host = any_host;
          read = read;
          identity = refl;
          built = given;
          parsed = parsed;
          event_loop =
              subscribe_to_topics_reached d host.before_subscribing listening joined
                (dedup_topics app_config.p2p.topics) join
              ∙ ap
                  (λ x.
                    (run d x (
                      subscription_inputs d host.before_subscribing
                        (dedup_topics app_config.p2p.topics))).0)
                  (at
                    ∙ ap
                        (λ x.
                          (step d (run d x host.before_listening).0 (
                            command (
                              start_listening (d.push any_host (tcp app_config.p2p.port.number))
                                0))).0)
                        initial)
              ∙ sym (run-append d (initial_loop swarm app_config) host.before_listening _);
        })
