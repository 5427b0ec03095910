-- ===== src/Network/Connections/Orders.antt =====
-- Which connections the event loop of src/p2p/network.rs tells its swarm to close.
use mathlib.Core.List.{append-nil}
use p2p_service.Prelude.{
  ◌⊎◌, ◌≡◌, refl, sym, ap, ◌∙◌, Bool, true, false, not, ◌&&◌, ◌||◌, List, [], ◌∷◌, ◌++◌, ite,
  length, drop, ltb, arith, if◌then◌else◌, Bool-cases, inl, inr,
}
use p2p_service.HashSet.{contains}
use p2p_service.Deps.{Deps}
use p2p_service.Subnet.{Verdict, allow, reject, on_connection}
use p2p_service.Network.{EventLoop, Endpoint, connection_established}
use p2p_service.Network.Events.{
  Clock, preferred_peer_app_score, handle_event, enforce_connection_limits, on_dialed,
  count_connected, grant_score, track_address, resolve_dials,
}
use p2p_service.Network.Frames.Events.{granted, granted_lem, enforce-connections}
use p2p_service.Network.Connections.{Link, opened}

-- `close_connection` and `disconnect_peer_id`
pub data Order (d : Deps) : Type 0 where
  one_connection : d.ConnectionId → Order d
  whole_peer : d.PeerId → Order d

-- What a swarm was told to close, as its owner can observe it.
pub record Recorder (d : Deps) : Type 1 where
  pub id_eq : Discrete d.ConnectionId
  pub orders : d.Swarm → List (Order d)
  pub orders-close_connection :
      (w : d.Swarm) (c : d.ConnectionId)
      → orders (d.close_connection w c) ≡ orders w ++ one_connection c ∷ []
  pub orders-disconnect_peer_id :
      (w : d.Swarm) (p : d.PeerId)
      → orders (d.disconnect_peer_id w p) ≡ orders w ++ whole_peer p ∷ []
  pub orders-set_application_score :
      (w : d.Swarm) (p : d.PeerId) (x : d.Score) → orders (d.set_application_score w p x) ≡ orders w

abbrev pub is_reject : Verdict → Bool
is_reject allow = false
is_reject reject = true

pub Verdict-cases : (v : Verdict) → (v ≡ allow) ⊎ (v ≡ reject)
Verdict-cases allow = inl refl
Verdict-cases reject = inr refl

drop-length {ℓ} : {A : Type ℓ} (xs ys : List A) → drop (length xs) (xs ++ ys) ≡ ys
drop-length [] ys = refl
drop-length (x ∷ xs) ys = drop-length xs ys

module _ {d : Deps} (r : Recorder d) where
  -- One of the orders closes the connection.
  unfoldable pub any_for : d.PeerId → d.ConnectionId → List (Order d) → Bool
  any_for p c [] = false
  any_for p c (one_connection k ∷ rest) = ite (r.id_eq c k) true (any_for p c rest)
  any_for p c (whole_peer q ∷ rest) = ite (d.peer_eq p q) true (any_for p c rest)

  -- The orders that came of the event that opened the connection.
  abbrev pub told_to_close : Link d → Bool
  told_to_close l = any_for l.peer l.id (drop (length (r.orders l.before)) (r.orders l.after))

  -- What the limits add to the orders.
  abbrev added : EventLoop d → d.PeerId → d.ConnectionId → d.Multiaddr → List (Order d)
  added s p c addr =
      let exempt = contains d.peer_eq p s.protected in
      if ltb s.settings.high_water (length s.connected) && not exempt
      then whole_peer p ∷ []
      else if is_reject (on_connection d.net s.subnet_limits addr exempt).1
      then one_connection c ∷ []
      else []

  enforce-orders :
      (s : EventLoop d) (p : d.PeerId) (c : d.ConnectionId) (addr : d.Multiaddr)
      → r.orders (enforce_connection_limits d s p c addr).swarm
        ≡ r.orders s.swarm ++ added s p c addr
  unfolding enforce_connection_limits
  enforce-orders s p c addr =
      let exempt = contains d.peer_eq p s.protected in
      let over = ltb s.settings.high_water (length s.connected) && not exempt in
      elim (Bool-cases over) [
        | inl full ↦ rw (full) (r.orders-disconnect_peer_id s.swarm p)
        | inr room ↦ elim (Verdict-cases (on_connection d.net s.subnet_limits addr exempt).1) [
          | inl let_in ↦ rw (room, let_in) (sym (append-nil (r.orders s.swarm)))
          | inr refused ↦ rw (room, refused) (r.orders-close_connection s.swarm c)
        ]
      ]

  any_for-added :
      (s : EventLoop d) (p : d.PeerId) (c : d.ConnectionId) (addr : d.Multiaddr)
      → let exempt = contains d.peer_eq p s.protected in
        any_for p c (added s p c addr) ≡ (
          (ltb s.settings.high_water (length s.connected) && not exempt)
          || is_reject (on_connection d.net s.subnet_limits addr exempt).1)
  unfolding any_for
  any_for-added s p c addr = ground arith

  grant_score-orders :
      (s : EventLoop d) (p : d.PeerId) → r.orders (grant_score d s p).swarm ≡ r.orders s.swarm
  unfolding grant_score
  grant_score-orders s p =
      ground (arith, r.orders-set_application_score s.swarm p (preferred_peer_app_score d))

  on_dialed-swarm :
      (clock : Clock) (s : EventLoop d) (p : d.PeerId) (endpoint : Endpoint d)
      → (on_dialed d clock s p endpoint).0.swarm ≡ s.swarm
  unfolding on_dialed resolve_dials
  on_dialed-swarm clock s p endpoint = ground arith

  -- What an opened connection is told.
  pub told_opened :
      (clock : Clock) (s : EventLoop d) (p : d.PeerId) (c : d.ConnectionId) (endpoint : Endpoint d)
      → let s' = (handle_event d clock s (connection_established p c endpoint)).0 in
        let exempt = contains d.peer_eq p s.protected in
        told_to_close (opened d clock s p c endpoint) ≡ (
          (ltb s.settings.high_water (length s'.connected) && not exempt)
          || is_reject (on_connection d.net s.subnet_limits endpoint.remote_address exempt).1)
  unfolding handle_event track_address count_connected
  told_opened clock s p c endpoint =
      let addr = endpoint.remote_address in
      let g = granted d clock s p c endpoint in
      let (enforced, roles, limits) = granted_lem d clock s p c endpoint in
      let scored : r.orders g.swarm ≡ r.orders s.swarm =
        grant_score-orders _ p
        ∙ ap r.orders (on_dialed-swarm clock (count_connected d s) p endpoint) in
      let grown =
        ap (λ (x : EventLoop d). r.orders x.swarm) enforced
        ∙ enforce-orders g p c addr
        ∙ ap (λ l. l ++ added g p c addr) scored in
      let same = (enforce-connections d clock g p c addr).0 in
      ap (λ l. any_for p c (drop (length (r.orders s.swarm)) l)) grown
      ∙ ap (any_for p c) (drop-length (r.orders s.swarm) (added g p c addr))
      ∙ any_for-added g p c addr
      ∙ rw (enforced, same, roles.protected, roles.settings, limits) refl
