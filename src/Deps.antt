-- ===== src/Deps.antt =====
-- Everything that the service calls outside the repository, as one parameter: libp2p's addresses,
-- the broadcast channel, floating point, and the swarm with its gossipsub behaviour.
use p2p_service.Prelude.{ℕ, Bool, true, false, String, List, Option}
use p2p_service.Net.{Net, Protocol}
use p2p_service.Subscriptions.Channel.{Broadcast}

-- `libp2p::swarm::DialError`, as far as the service tells it apart.
pub data DialError : Type 0 where
  wrong_peer_id dial_peer_condition_false : DialError
  other_dial_error : String → DialError

-- `libp2p::gossipsub::PublishError`
pub data PublishError : Type 0 where
  no_peers_subscribed_to_topic : PublishError
  other_publish_error : String → PublishError

-- What a call of the library returns that may fail.
pub data Outcome (E : Type 0) : Type 0 where
  ok : Outcome E
  failed : E → Outcome E

abbrev pub is_ok : {E : Type 0} → Outcome E → Bool
is_ok ok = true
is_ok (failed e) = false

pub record Deps : Type 1 where
  pub net : Net
  pub open net use *
  pub broadcast : Broadcast
  -- `f32`: the literal 0.5, a `usize` as a float, the product, the truncation to `usize`, and membership in 0.0..=1.0
  pub F32 : Type 0
  pub f32_half : F32
  pub f32_of_usize : ℕ → F32
  pub f32_mul : F32 → F32 → F32
  pub usize_of_f32 : F32 → ℕ
  pub in_unit_range : F32 → Bool
  -- `f64` scores; `score n` is the literal `n.0`.
  pub Score : Type 0
  pub score : ℕ → Score
  -- `identity::Keypair`, and `push` of an address
  pub Keypair : Type 0
  pub peer_id_of : Keypair → PeerId
  pub push : Multiaddr → Protocol PeerId → Multiaddr
  -- `DefaultHasher` on bytes, and `to_string` of a `u64`
  pub hash_bytes : List ℕ → ℕ
  pub show_u64 : ℕ → String
  -- `Swarm<Behaviour>`: each call gives the swarm afterwards.
  pub ConnectionId : Type 0
  pub Swarm : Type 0
  pub local_peer_id : Swarm → PeerId
  pub listeners : Swarm → List Multiaddr
  pub external_addresses : Swarm → List Multiaddr
  pub listen_on : Swarm → Multiaddr → Swarm × Outcome String
  pub dial : Swarm → PeerId → List Multiaddr → Swarm × Outcome DialError
  pub disconnect_peer_id : Swarm → PeerId → Swarm
  pub close_connection : Swarm → ConnectionId → Swarm
  pub set_application_score : Swarm → PeerId → Score → Swarm
  pub peer_score : Swarm → PeerId → Option Score
  pub gossipsub_subscribe : Swarm → String → Swarm × Outcome String
  pub gossipsub_publish : Swarm → String → List ℕ → Swarm × Outcome PublishError
