-- ===== src/Startup/Boot/Limits.antt =====
-- The bound on protected peers for a service that src/main.rs has started, whatever happens then.
use p2p_service.Prelude.{◌+◌, ◌^◌, ◌≤◌, ◌≡◌, sym, ap, ◌∙◌, List, length, ◌++◌}
use mathlib.Core.Path.{subst}
use p2p_service.Net.{tcp}
use p2p_service.Deps.{Deps}
use p2p_service.Metrics
use p2p_service.Subscriptions
use p2p_service.Peerstore.File.{load}
use p2p_service.Network.{EventLoop}
use p2p_service.Network.Loop.{Input, run}
use p2p_service.Startup.{bootstrap_peer_ids, dedup_topics}
use p2p_service.Startup.Slots.{IsShare, protected_slots}
use p2p_service.Startup.Boot.{Host, Service, reached, boot}
use p2p_service.Startup.Boot.Steps.{run-append}
use p2p_service.Startup.Boot.Reached.{boot_inputs, initial_loop, boot-IsReady}

module _ (d : Deps) (host : Host d) where
  -- If startup reaches the supervision, high_water is at most 2^24, and a share between 0 and 1 of
  -- such a number is no more than it, then whatever the event loop takes from then on, no more
  -- than high_water peers are protected besides the bootstrap peers.
  pub boot_slots :
      (service : Service d) (is : List (Input d))
      → IsShare d
      → boot d host ≡ reached service
      → service.app_config.p2p.high_water ≤ 2 ^ 24
      → length (run d service.event_loop is).0.protected
        ≤ length (bootstrap_peer_ids d.net service.app_config.p2p.peers)
          + service.app_config.p2p.high_water
  unfolding initial_loop
  boot_slots service is share up small =
      let ready = boot-IsReady d host service up in
      let c = service.app_config in
      let start = initial_loop d host ready.swarm c in
      let taken =
        boot_inputs d host (d.push ready.any_host (tcp c.p2p.port.number))
          (dedup_topics c.p2p.topics) in
      subst
        (λ (s : EventLoop d).
          length s.protected ≤ length (bootstrap_peer_ids d.net c.p2p.peers) + c.p2p.high_water)
        (run-append d start taken is ∙ ap (λ s. (run d s is).0) (sym ready.event_loop))
        (protected_slots d c.p2p c.p2p.peers ready.swarm (Subscriptions.new d.broadcast 1024)
          Metrics.new (load host.to_json host.from_json host.files c.p2p.peerstore_path)
          (taken ++ is) share ready.config small)
