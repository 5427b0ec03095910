-- ===== src/Grpc/Handlers.antt =====
-- The handlers of src/grpc.rs from the request to the response, over the client of the event loop.
-- `channel` is the number of the one-shot channel that the client's call makes.
use p2p_service.Prelude.{
  ℕ, Bool, Option, none, some, String, List, [], ◌∷◌, map, ite, String_discrete,
}
use p2p_service.Deps.{Deps, Outcome, ok, failed}
use p2p_service.Subscriptions
use p2p_service.Subscriptions.{Subscriptions}
use p2p_service.Network.{BoxError, NodeInfo, PeerSnapshot}
use p2p_service.Network.Client.{
  Result, returned, raised, Link, client_identify, dial_and_wait, client_publish, client_subscribe,
  client_set_preferred_peers, client_get_peers,
}
use p2p_service.Grpc.{
  StatusCode, invalid_argument, internal_error, map_dial_error_to_status, Shared, PublishRequest,
  PreferredPeer, publish, parse_peers,
}

-- `Result<Response<A>, Status>`
pub data Reply (A : Type 0) : Type 0 where
  replied : A → Reply A
  refused : StatusCode → Reply A

-- `GrpcService`; the client is what its calls meet.
pub record GrpcService (d : Deps) : Type 0 where
  pub client : Link d
  pub shared : Shared d.broadcast
  pub local_peer_id : d.PeerId

pub record IdentifyResponse : Type 0 where
  pub peer_id : String
  pub listen_multiaddrs : List String
  pub external_multiaddrs : List String

pub record PeerInfo (d : Deps) : Type 0 where
  pub peer_id : String
  pub multiaddrs : List String
  pub preferred : Bool
  pub score : d.Score

-- `SetPreferredPeersResponse`
pub record Counts : Type 0 where
  pub accepted : ℕ
  pub truncated : ℕ

abbrev pub counts_response : ℕ × ℕ → Counts
counts_response n = record { accepted = n.0; truncated = n.1 }

-- `map_err(|e| Status::internal(..))?`, then a response.
unfoldable pub or_internal : {A B : Type 0} → (A → B) → Result A → Reply B
or_internal respond (returned a) = replied (respond a)
or_internal respond (raised e) = refused internal_error

-- The answer to a publish.
unfoldable pub publish_outcome : Result Unit → Outcome BoxError
publish_outcome (returned x) = ok
publish_outcome (raised e) = failed e

parsed_or_invalid : {A : Type 0} → Option A → Reply A
parsed_or_invalid none = refused invalid_argument
parsed_or_invalid (some a) = replied a

infixl 5 ◌>>=◌
abbrev ◌>>=◌ : {A B : Type 0} → Reply A → (A → Reply B) → Reply B
replied a >>= f = f a
refused code >>= f = refused code

module _ (d : Deps) where
  unfoldable pub parse_peer_id : String → Reply d.PeerId
  unfolding parsed_or_invalid
  parse_peer_id value = parsed_or_invalid (d.read_peer value)

  unfoldable pub parse_multiaddr : String → Reply d.Multiaddr
  unfolding parsed_or_invalid
  parse_multiaddr value = parsed_or_invalid (d.read_addr value)

  unfoldable pub identify_response : NodeInfo d → IdentifyResponse
  identify_response info = record {
    peer_id = d.show_peer info.peer_id;
    listen_multiaddrs = map d.show_addr info.listen_multiaddrs;
    external_multiaddrs = map d.show_addr info.external_multiaddrs;
  }

  unfoldable pub peer_info : PeerSnapshot d → PeerInfo d
  peer_info p = record {
    peer_id = d.show_peer p.peer_id;
    multiaddrs = map d.show_addr p.multiaddrs;
    preferred = p.preferred;
    score = p.score;
  }

  unfoldable pub dialed : Result Unit → Reply Unit
  dialed (returned x) = replied x
  dialed (raised e) = refused (map_dial_error_to_status e)

  module _ (service : GrpcService d) (channel : ℕ) where
    unfoldable pub handle_identify : Reply IdentifyResponse
    unfolding or_internal identify_response
    handle_identify = or_internal identify_response (client_identify d service.client channel)

    unfoldable pub handle_dial : (peer_id multiaddr : String) → Reply Unit
    unfolding dialed
    handle_dial peer_id multiaddr = do
      id ← parse_peer_id peer_id
      addr ← parse_multiaddr multiaddr
      dialed (dial_and_wait d service.client channel id (addr ∷ []))

    -- The service's shared state afterwards comes with the outcome.
    unfoldable pub handle_publish :
        (now_millis : ℕ) → PublishRequest → Shared d.broadcast × Outcome StatusCode
    unfolding publish_outcome
    handle_publish now_millis request =
        publish d.broadcast (d.show_peer service.local_peer_id) now_millis
          (publish_outcome (client_publish d service.client channel request.topic request.payload))
          service.shared request

    unfoldable pub handle_set_preferred_peers : List PreferredPeer → Reply Counts
    unfolding or_internal
    handle_set_preferred_peers peers =
        or_internal counts_response
          (client_set_preferred_peers d service.client channel (parse_peers d.net [] peers))

    unfoldable pub handle_get_peers : Reply (List (PeerInfo d))
    unfolding or_internal peer_info
    handle_get_peers = or_internal (map peer_info) (client_get_peers d service.client channel)

    -- Subscribe up to its stream. The receiver is made first: `meets` is the event loop that the
    -- client's call finds once the registry holds it.
    unfoldable pub handle_subscribe :
        (meets : Subscriptions d.broadcast → Link d)
        → (topic : String) → Subscriptions d.broadcast × Reply d.broadcast.Receiver
    unfolding or_internal
    handle_subscribe meets topic =
        let (subs, receiver) =
          Subscriptions.subscribe d.broadcast service.shared.subscriptions topic in
        ite (String_discrete topic "") (service.shared.subscriptions, refused invalid_argument)
          (subs, or_internal (λ _. receiver) (client_subscribe d (meets subs) channel topic))
