-- ===== src/Http/Examples.antt =====
-- Requests at concrete inputs.
use p2p_service.Prelude.{◌+◌, ◌%◌, ◌^◌, ◌≡◌, arith, List, [], ◌∷◌, none, some}
use p2p_service.Metrics
use p2p_service.Network.Sample.{sample_deps}
use p2p_service.Http.{AppState, Surroundings}
use p2p_service.Http.Requests.{Request, SameCounts, serve_all, routed, serve_all_lem}

abbrev state : AppState sample_deps
state = record { peer_id = "self"; metrics = Metrics.new }

abbrev surroundings : Surroundings
surroundings = record { status_file = none; encode = λ m. some "# EOF"; now = "now" }

abbrev requests : List Request
requests =
    record { surroundings = surroundings; method = "GET"; path = "/metrics" }
    ∷ record { surroundings = surroundings; method = "GET"; path = "/other" }
    ∷ record { surroundings = surroundings; method = "GET"; path = "/health" }
    ∷ []

serve_all_lem_example :
    ((serve_all sample_deps state requests).metrics.http_requests_total
      ≡ (state.metrics.http_requests_total + routed requests) % 2 ^ 64)
    × SameCounts state.metrics (serve_all sample_deps state requests).metrics
    × ((serve_all sample_deps state requests).peer_id ≡ state.peer_id)
unfolding Metrics.new
serve_all_lem_example = serve_all_lem sample_deps state requests (omega arith)
