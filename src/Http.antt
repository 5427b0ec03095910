-- ===== src/Http.antt =====
-- src/http: the state of the metrics server, its routes and its two handlers. The encoder of
-- prometheus and the clock are arguments; `none` is the encoder's error.
pub mod Requests
mod Examples
use text.Mathlib.Text.{◌==◌ as str_eq}
use p2p_service.Prelude.{ℕ, Bool, ◌&&◌, String, List, [], ◌∷◌, Option, none, some, if◌then◌else◌}
use p2p_service.Deps.{Deps}
use p2p_service.Metrics.{Metrics, inc_counter}
use p2p_service.Metrics.Memory.{update_memory_usage}

-- `AppState`
pub record AppState (d : Deps) : Type 0 where
  pub peer_id : d.PeerId
  pub metrics : Metrics

-- The body of `/health`.
pub record HealthStatus : Type 0 where
  pub status : String
  pub peer_id : String
  pub timestamp : String

pub data Body : Type 0 where
  plain : String → Body
  json : HealthStatus → Body
  encode_failed : Body
  no_route : Body

pub record HttpResponse : Type 0 where
  pub status_code : ℕ
  pub content_type : Option String
  pub body : Body

-- What one request finds: the file /proc/self/status, the encoder and the time.
pub record Surroundings : Type 0 where
  pub status_file : Option (List ℕ)
  pub encode : Metrics → Option String
  pub now : String

module _ (d : Deps) where
  unfoldable pub count_request : AppState d → AppState d
  count_request state = record state {
    metrics = record state.metrics {
      http_requests_total = inc_counter state.metrics.http_requests_total;
    };
  }

  encoded : Option String → HttpResponse
  encoded none = record { status_code = 500; content_type = none; body = encode_failed }
  encoded (some buffer) = record {
    status_code = 200;
    content_type = some "text/plain; version=0.0.4; charset=utf-8";
    body = plain buffer;
  }

  unfoldable pub metrics : Surroundings → AppState d → AppState d × HttpResponse
  unfolding count_request encoded
  metrics w state =
      let counted = count_request state in
      let updated = record counted {
        metrics = update_memory_usage counted.metrics w.status_file;
      } in
      (updated, encoded (w.encode updated.metrics))

  unfoldable pub health : Surroundings → AppState d → AppState d × HttpResponse
  unfolding count_request
  health w state = (
    count_request state,
    record {
      status_code = 200;
      content_type = some "application/json";
      body =
          json
            (record { status = "healthy"; peer_id = d.show_peer state.peer_id; timestamp = w.now });
    },
  )

  -- What the server itself answers, with its status.
  abbrev unrouted : ℕ → HttpResponse
  unrouted code = record { status_code = code; content_type = none; body = no_route }

  -- The routes of `config`. The server itself answers 405 to another method on a path that has a
  -- route, and 404 on any other path.
  unfoldable pub route :
      Surroundings → (method path : String) → AppState d → AppState d × HttpResponse
  route w method path state =
      if str_eq path "/metrics"
      then if str_eq method "GET" then metrics w state else (state, unrouted 405)
      else if str_eq path "/health"
      then if str_eq method "GET" then health w state else (state, unrouted 405)
      else (state, unrouted 404)
