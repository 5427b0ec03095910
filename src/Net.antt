-- ===== src/Net.antt =====
-- What the service uses of libp2p's addresses and peer identities. The library is not part of the
-- repository, so its types and functions are parameters.
use p2p_service.Prelude.{ℕ, String, List, Option}

-- The components of a multiaddr that the service tells apart.
pub data Protocol (P : Type 0) : Type 0 where
  ip4 : ℕ → ℕ → ℕ → ℕ → Protocol P
  ip6 : ℕ → Protocol P
  tcp : ℕ → Protocol P
  p2p : P → Protocol P
  other : Protocol P

pub record Net : Type 1 where
  pub PeerId : Type 0
  pub peer_eq : Discrete PeerId
  pub Multiaddr : Type 0
  pub addr_eq : Discrete Multiaddr
  -- `Multiaddr::iter` and `Multiaddr::pop`
  pub iter : Multiaddr → List (Protocol PeerId)
  pub pop : Multiaddr → Option (Protocol PeerId) × Multiaddr
  -- `to_string` and `from_str`
  pub show_peer : PeerId → String
  pub read_peer : String → Option PeerId
  pub show_addr : Multiaddr → String
  pub read_addr : String → Option Multiaddr
