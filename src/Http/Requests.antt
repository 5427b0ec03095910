-- ===== src/Http/Requests.antt =====
-- Sequences of requests to the metrics server of src/http.
use text.Mathlib.Text.{◌==◌ as str_eq}
use mathlib.Core.Path.{subst}
use p2p_service.Prelude.{
  ℕ, ◌+◌, ◌<◌, ◌%◌, ◌^◌, ◌≡◌, refl, Bool, true, false, ◌&&◌, ◌||◌, String, List, [], ◌∷◌, arith,
  if◌then◌else◌, Bool-cases, inl, inr, ◌∙◌, ◌⊎◌, ap,
}
use p2p_service.Deps.{Deps}
use p2p_service.Metrics.{Metrics, inc_counter}
use p2p_service.Metrics.Memory.{update_memory_usage}
use p2p_service.Http.{AppState, Surroundings, count_request, metrics, health, route}

pub record Request : Type 0 where
  pub surroundings : Surroundings
  pub method : String
  pub path : String

-- Whether a request has a route.
unfoldable pub is_routed : Request → Bool
is_routed r = str_eq r.method "GET" && (str_eq r.path "/metrics" || str_eq r.path "/health")

unfoldable pub routed : List Request → ℕ
routed [] = 0
routed (r ∷ rs) = (if is_routed r then 1 else 0) + routed rs

-- The two metrics agree on what the rest of the program counts.
pub record SameCounts (m m' : Metrics) : Type 0 where
  pub connected_peers : m'.connected_peers ≡ m.connected_peers
  pub total_messages_sent : m'.total_messages_sent ≡ m.total_messages_sent
  pub total_messages_received : m'.total_messages_received ≡ m.total_messages_received
  pub p2p_events : m'.p2p_events ≡ m.p2p_events

module _ (d : Deps) where
  unfoldable pub serve_all : AppState d → List Request → AppState d
  serve_all state [] = state
  serve_all state (r ∷ rs) = serve_all (route d r.surroundings r.method r.path state).0 rs

  update-SameCounts :
      (m : Metrics) (contents : _)
      → SameCounts m (update_memory_usage m contents)
        × ((update_memory_usage m contents).http_requests_total ≡ m.http_requests_total)
  unfolding update_memory_usage
  update-SameCounts m contents = ground arith

  -- One request more, and nothing else that is counted.
  abbrev IsCounted : AppState d → AppState d → Type 0
  IsCounted state after =
      (after.metrics.http_requests_total ≡ inc_counter state.metrics.http_requests_total)
      × SameCounts state.metrics after.metrics
      × (after.peer_id ≡ state.peer_id)

  metrics-IsCounted :
      (w : Surroundings) (state : AppState d) → IsCounted state (metrics d w state).0
  unfolding metrics count_request
  metrics-IsCounted w state =
      let kept = update-SameCounts (count_request d state).metrics w.status_file in
      (
        kept.1,
        record {
          connected_peers = kept.0.connected_peers;
          total_messages_sent = kept.0.total_messages_sent;
          total_messages_received = kept.0.total_messages_received;
          p2p_events = kept.0.p2p_events;
        },
        refl,
      )

  health-IsCounted : (w : Surroundings) (state : AppState d) → IsCounted state (health d w state).0
  unfolding health count_request
  health-IsCounted w state = ground arith

  -- A request with a route is counted, another changes nothing.
  route_lem :
      (r : Request) (state : AppState d)
      → let after = (route d r.surroundings r.method r.path state).0 in
        ((is_routed r ≡ true) × IsCounted state after) ⊎ ((is_routed r ≡ false) × (after ≡ state))
  unfolding route is_routed
  route_lem r state = elim (Bool-cases (str_eq r.path "/metrics")) [
    | inl at_metrics ↦ elim (Bool-cases (str_eq r.method "GET")) [
      | inl get ↦ rw (get, at_metrics) (inl (refl, metrics-IsCounted r.surroundings state))
      | inr other ↦ rw (other, at_metrics) (inr (refl, refl))
    ]
    | inr not_metrics ↦ elim (Bool-cases (str_eq r.path "/health")) [
      | inl at_health ↦ elim (Bool-cases (str_eq r.method "GET")) [
        | inl get ↦
            rw (get, not_metrics, at_health) (inl (refl, health-IsCounted r.surroundings state))
        | inr other ↦ rw (other, not_metrics, at_health) (inr (refl, refl))
      ]
      | inr not_health ↦
          rw (not_metrics, not_health) (inr (and_false (str_eq r.method "GET"), refl))
    ]
  ]
    where
      and_false : (b : Bool) → (b && false) ≡ false
      and_false true = refl
      and_false false = refl

  SameCounts-trans : (a b c : Metrics) → SameCounts a b → SameCounts b c → SameCounts a c
  SameCounts-trans a b c h k = ground arith

  -- Over any sequence of requests to the metrics server, from a counter below 2^64,
  -- http_requests_total grows by the number of requests that have a route, modulo 2^64, so that
  -- requests of other paths are not counted, and the counters and the gauge of the P2P part stay
  -- as they were.
  pub serve_all_lem :
      (state : AppState d) (rs : List Request)
      → state.metrics.http_requests_total < 2 ^ 64
      → ((serve_all state rs).metrics.http_requests_total
          ≡ (state.metrics.http_requests_total + routed rs) % 2 ^ 64)
        × SameCounts state.metrics (serve_all state rs).metrics
        × ((serve_all state rs).peer_id ≡ state.peer_id)
  unfolding serve_all routed
  serve_all_lem state [] h = (omega (arith, h), ground arith, refl)
  serve_all_lem state (r ∷ rs) h =
      let after = (route d r.surroundings r.method r.path state).0 in
      elim (route_lem r state) [
        | inl (known, (counted, same, peer)) ↦
            let (total, kept, id) = serve_all_lem after rs (omega (arith, counted)) in
            (
              rw known (omega (arith, total, counted)),
              SameCounts-trans _ after.metrics _ same kept,
              id ∙ peer,
            )
        | inr (unknown, e) ↦
            let (total, kept, id) = serve_all_lem after rs (rw e h) in
            (
              rw unknown
                  (omega (arith, total, ap (λ (x : AppState d). x.metrics.http_requests_total) e)),
              subst (λ (x : AppState d). SameCounts x.metrics (serve_all after rs).metrics) e kept,
              id ∙ ap (λ (x : AppState d). x.peer_id) e,
            )
      ]
