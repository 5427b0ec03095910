-- ===== src/Network/Connections/Cap.antt =====
-- The cap per subnet in every state of the event loop.
use mathlib.Core.List.{map-append}
use mathlib.Core.Path.{subst}
use p2p_service.Prelude.{
  ℕ, ◌+◌, ◌≤◌, ◌≡◌, refl, ap, ◌∙◌, Bool, true, false, not, ◌&&◌, ◌||◌, Option, none, some, List, [],
  ◌∷◌, ◌++◌, length, ltb, leb, Each, inl, inr, arith, if◌then◌else◌,
}
use p2p_service.HashSet.{HashSet, contains}
use p2p_service.Deps.{Deps}
use p2p_service.Metrics.{Metrics}
use p2p_service.Peerstore.{PeerStore}
use p2p_service.Subscriptions.{Subscriptions}
use p2p_service.Subnet
use p2p_service.Subnet.{Octets, allow, reject, subnet, on_connection, on_disconnection}
use p2p_service.Subnet.Counts.{Reach, open_in, hits}
use p2p_service.Subnet.Cap.{admitted_in, admitted_in-le-limit, verdict_lem}
use p2p_service.Network.{EventLoop, NetworkSettings, Endpoint, new, connection_established}
use p2p_service.Network.Events.{Clock, handle_event, on_connection_closed}
use p2p_service.Network.Frames.Events.{established_lem, handle_event-roles}
use p2p_service.Network.Frames.Commands.{handle_command-keeps}
use p2p_service.Network.Connections.{
  History, begins, opens, closes, handles, obeys, Link, opened, conns, quiet-connections,
  command-connections,
}
use p2p_service.Network.Connections.Orders.{
  Recorder, is_reject, Verdict-cases, told_to_close, told_opened,
}

module _ (d : Deps) where
  -- The subnet limits of the event loop are those of the history of its connections.
  History-Reach :
      (s₀ : EventLoop d) (limit : ℕ) {s : EventLoop d} {ls : List (Link d)}
      → s₀.subnet_limits ≡ Subnet.new limit
      → History d s₀ s ls
      → Reach d.net limit s.subnet_limits (conns d ls)
  unfolding handle_event on_connection_closed
  History-Reach s₀ limit start begins = rw start Reach.start
  History-Reach s₀ limit start (opens {s} {ls} clock p c endpoint h) =
      rw (established_lem d clock s p c endpoint).subnet_limits (
        Reach.opens endpoint.remote_address (contains d.peer_eq p s.protected)
          (History-Reach s₀ limit start h))
  History-Reach s₀ limit start (closes {s} {ls} clock xs l ys is_dialer e h) =
      rw (map-append (λ (l : Link d). l.conn) xs) (
        Reach.closes (conns d xs) l.conn (conns d ys)
          (ap (conns d) e ∙ map-append (λ (l : Link d). l.conn) xs (l ∷ ys))
          (History-Reach s₀ limit start h))
  History-Reach s₀ limit start (handles {s} clock e q h) =
      rw (quiet-connections d clock s e q).subnet_limits (History-Reach s₀ limit start h)
  History-Reach s₀ limit start (obeys {s} c h) =
      rw (command-connections d s c).subnet_limits (History-Reach s₀ limit start h)

  History-settings :
      (s₀ : EventLoop d) {s : EventLoop d} {ls : List (Link d)}
      → History d s₀ s ls
      → s.settings ≡ s₀.settings
  History-settings s₀ begins = refl
  History-settings s₀ (opens {s} clock p c endpoint h) =
      (handle_event-roles d s clock (connection_established p c endpoint)).settings
      ∙ History-settings s₀ h
  History-settings s₀ (closes {s} clock xs l ys is_dialer e h) =
      (handle_event-roles d s clock _).settings ∙ History-settings s₀ h
  History-settings s₀ (handles {s} clock e q h) =
      (handle_event-roles d s clock e).settings ∙ History-settings s₀ h
  History-settings s₀ (obeys {s} c h) = (handle_command-keeps d s c).1 ∙ History-settings s₀ h

  module _ (r : Recorder d) where
    -- A rejected connection is told to close.
    abbrev IsObeyed : Link d → Type 0
    IsObeyed l = is_reject l.conn.verdict ≡ true → told_to_close r l ≡ true

    Each-remove :
        (P : Link d → Type 0) (xs : List (Link d)) (l : Link d) (ys : List (Link d))
        → Each P (xs ++ l ∷ ys)
        → Each P (xs ++ ys)
    unfolding Each
    Each-remove P [] l ys h = h.1
    Each-remove P (x ∷ xs) l ys h = (h.0, Each-remove P xs l ys h.1)

    History-IsObeyed :
        (s₀ : EventLoop d) {s : EventLoop d} {ls : List (Link d)}
        → History d s₀ s ls
        → Each IsObeyed ls
    unfolding Each
    History-IsObeyed s₀ begins = tt
    History-IsObeyed s₀ (opens {s} clock p c endpoint h) =
        (λ refused. told_opened r clock s p c endpoint ∙ or_true _ _ refused, History-IsObeyed s₀ h)
      where
        or_true : (a b : Bool) → b ≡ true → (a || b) ≡ true
        or_true a b h = ground arith
    History-IsObeyed s₀ (closes clock xs l ys is_dialer e h) =
        Each-remove IsObeyed xs l ys (subst (Each IsObeyed) e (History-IsObeyed s₀ h))
    History-IsObeyed s₀ (handles clock e q h) = History-IsObeyed s₀ h
    History-IsObeyed s₀ (obeys c h) = History-IsObeyed s₀ h

    -- The open connections of the subnet that are not exempt and were not told to close.
    unfoldable pub left_open : Octets → List (Link d) → ℕ
    left_open n [] = 0
    left_open n (l ∷ ls) =
        (if not l.conn.exempt && not (told_to_close r l)
          then hits n (subnet d.net l.conn.addr)
          else 0)
        + left_open n ls

    left_open-le-admitted :
        (n : Octets) (ls : List (Link d))
        → Each IsObeyed ls
        → left_open n ls ≤ admitted_in d.net n (conns d ls)
    unfolding left_open admitted_in Each
    left_open-le-admitted n [] h = omega arith
    left_open-le-admitted n (l ∷ ls) h = elim (Verdict-cases l.conn.verdict) [
      | inl let_in ↦ ground (arith, let_in, left_open-le-admitted n ls h.1)
      | inr refused ↦
          ground (arith, refused, h.0 (ap is_reject refused), left_open-le-admitted n ls h.1)
    ]

  -- In every state that the event loop reaches from its start while only open connections close,
  -- at most per_subnet_cap open connections of one subnet were not exempt and not told to close
  -- when they opened, that is, the handler of the event that opened them called neither
  -- close_connection for them nor disconnect_peer_id for their peer; what the swarm was told is
  -- observed in a list to which these two calls, and not a change of a score, add.
  pub run_capped :
      (r : Recorder d) (swarm : d.Swarm) (subscriptions : Subscriptions d.broadcast)
      (metrics : Metrics) (peerstore : PeerStore) (settings : NetworkSettings d)
      (bootstrap_peers : HashSet d.PeerId) {s : EventLoop d} {ls : List (Link d)} (n : Octets)
      → History d (new d swarm subscriptions metrics peerstore settings bootstrap_peers) s ls
      → left_open r n ls ≤ settings.per_subnet_cap
  unfolding new
  run_capped r swarm subscriptions metrics peerstore settings bootstrap_peers {s} {ls} n h = omega (
    arith,
    left_open-le-admitted r n ls (History-IsObeyed r _ h),
    admitted_in-le-limit d.net settings.per_subnet_cap n
        (History-Reach _ settings.per_subnet_cap refl h),
  )

  -- In every state that the event loop reaches from its start while only open connections close,
  -- the handler of a connection that opens tells the swarm to close it, or to disconnect its peer,
  -- exactly if the peer is not protected and either more than high_water peers are connected then,
  -- this one included, or the IPv4 subnet of the address has per_subnet_cap open connections
  -- already; what the swarm was told is observed as in run_capped.
  pub told_lem :
      (r : Recorder d) (swarm : d.Swarm) (subscriptions : Subscriptions d.broadcast)
      (metrics : Metrics) (peerstore : PeerStore) (settings : NetworkSettings d)
      (bootstrap_peers : HashSet d.PeerId) {s : EventLoop d} {ls : List (Link d)} (clock : Clock)
      (p : d.PeerId) (c : d.ConnectionId) (endpoint : Endpoint d)
      → History d (new d swarm subscriptions metrics peerstore settings bootstrap_peers) s ls
      → let s' = (handle_event d clock s (connection_established p c endpoint)).0 in
        told_to_close r (opened d clock s p c endpoint) ≡ (
          not (contains d.peer_eq p s.protected)
          && (ltb settings.high_water (length s'.connected)
              || elim (subnet d.net endpoint.remote_address) [
                | none ↦ false
                | some n ↦ leb settings.per_subnet_cap (open_in d.net n (conns d ls))
              ]))
  unfolding new
  told_lem r swarm subscriptions metrics peerstore settings bootstrap_peers {s} {ls} clock p c
        endpoint h =
      let exempt = contains d.peer_eq p s.protected in
      let verdict =
        verdict_lem d.net settings.per_subnet_cap endpoint.remote_address exempt
          (History-Reach _ settings.per_subnet_cap refl h) in
      told_opened r clock s p c endpoint
      ∙ rw (verdict, History-settings _ h)
          (by_subnet (subnet d.net endpoint.remote_address) exempt _)
    where
      by_subnet :
          (o : Option Octets) (exempt over : Bool)
          → ((over && not exempt)
              || is_reject (elim o [
                | none ↦ allow
                | some n ↦
                    if not exempt && leb settings.per_subnet_cap (open_in d.net n (conns d ls))
                    then reject
                    else allow
              ]))
            ≡ (not exempt
                && (over || elim o [
                  | none ↦ false
                  | some n ↦ leb settings.per_subnet_cap (open_in d.net n (conns d ls))
                ]))
      by_subnet none exempt over = ground arith
      by_subnet (some n) exempt over = ground arith
