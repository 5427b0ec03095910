-- ===== src/Network/Sample.antt =====
-- An instance of the parameters, for the examples: the swarm is the log of what was asked of it, a
-- share is a percentage, a dial of "down" fails at once, and a dial of "up" finds a connection.
use text.Mathlib.Text.{◌==◌ as str_eq}
use mathlib.Core.List.{append-nil}
use p2p_service.Network.Connections.Orders.{Order, one_connection, whole_peer, Recorder}
use p2p_service.Prelude.{
  ◌≡◌, ap, ◌∙◌, refl, ℕ_discrete, ℕ, ◌*◌, ◌/◌, String, List, [], ◌∷◌, ◌++◌, none, if◌then◌else◌,
  leb, ◌==◌,
}
use p2p_service.Deps.{
  Deps, DialError, Outcome, ok, failed, dial_peer_condition_false, wrong_peer_id,
  no_peers_subscribed_to_topic,
}
use p2p_service.Samples.{sample_net}
use p2p_service.Metrics
use p2p_service.Peerstore
use p2p_service.Subscriptions
use p2p_service.Network.{EventLoop, new}
use p2p_service.Subscriptions.Sample.{queue_broadcast}

pub data Request : Type 0 where
  listened : String → Request
  dialed : String → Request
  disconnected : String → Request
  closed : ℕ → Request
  scored : String → ℕ → Request
  joined : String → Request
  sent : String → Request

abbrev dial_outcome : String → Outcome DialError
dial_outcome p =
    if str_eq p "down"
    then failed wrong_peer_id
    else if str_eq p "up"
    then failed dial_peer_condition_false
    else ok

abbrev pub sample_deps : Deps
sample_deps = record {
  net = sample_net;
  broadcast = queue_broadcast;
  F32 = ℕ;
  f32_half = 50;
  f32_of_usize = λ n. n;
  f32_mul = λ a b. a * b / 100;
  usize_of_f32 = λ n. n;
  in_unit_range = λ n. leb n 100;
  Score = ℕ;
  score = λ n. n;
  Keypair = String;
  peer_id_of = λ k. k;
  push = λ a c. if str_eq a "ip4/0.0.0.0" then "any" else a;
  hash_bytes = λ bytes. 7;
  show_u64 = λ n. if n == 7 then "7" else "?";
  ConnectionId = ℕ;
  Swarm = List Request;
  local_peer_id = λ s. "self";
  listeners = λ s. "lan1" ∷ [];
  external_addresses = λ s. [];
  listen_on = λ s addr. (s ++ listened addr ∷ [], ok);
  dial = λ s p addrs. (s ++ dialed p ∷ [], dial_outcome p);
  disconnect_peer_id = λ s p. s ++ disconnected p ∷ [];
  close_connection = λ s c. s ++ closed c ∷ [];
  set_application_score = λ s p x. s ++ scored p x ∷ [];
  peer_score = λ s p. none;
  gossipsub_subscribe = λ s topic. (s ++ joined topic ∷ [], ok);
  gossipsub_publish =
      λ s topic payload. (s ++ sent topic ∷ [], failed no_peers_subscribed_to_topic);
}

-- The event loop at the start, with one bootstrap peer.
abbrev pub sample_loop : EventLoop sample_deps
sample_loop =
    new sample_deps [] (Subscriptions.new queue_broadcast 16) Metrics.new Peerstore.default
      (record { low_water = 2; high_water = 4; per_subnet_cap = 1; max_protected_share = 50 })
      ("boot" ∷ [])

-- What the swarm of the examples was told to close.
unfoldable pub orders_of : List Request → List (Order sample_deps)
orders_of [] = []
orders_of (disconnected p ∷ rest) = whole_peer p ∷ orders_of rest
orders_of (closed c ∷ rest) = one_connection c ∷ orders_of rest
orders_of (_ ∷ rest) = orders_of rest

orders_of-append : (xs ys : List Request) → orders_of (xs ++ ys) ≡ orders_of xs ++ orders_of ys
unfolding orders_of
orders_of-append [] ys = refl
orders_of-append (listened a ∷ xs) ys = orders_of-append xs ys
orders_of-append (dialed p ∷ xs) ys = orders_of-append xs ys
orders_of-append (disconnected p ∷ xs) ys = ap (λ l. whole_peer p ∷ l) (orders_of-append xs ys)
orders_of-append (closed c ∷ xs) ys = ap (λ l. one_connection c ∷ l) (orders_of-append xs ys)
orders_of-append (scored p x ∷ xs) ys = orders_of-append xs ys
orders_of-append (joined t ∷ xs) ys = orders_of-append xs ys
orders_of-append (sent t ∷ xs) ys = orders_of-append xs ys

pub scored_none :
    (xs : List Request) (p : String) (x : ℕ) → orders_of (xs ++ scored p x ∷ []) ≡ orders_of xs
unfolding orders_of
scored_none xs p x = orders_of-append xs (scored p x ∷ []) ∙ append-nil (orders_of xs)

pub closed_one :
    (xs : List Request) (c : ℕ)
    → orders_of (xs ++ closed c ∷ []) ≡ orders_of xs ++ one_connection c ∷ []
unfolding orders_of
closed_one xs c = orders_of-append xs (closed c ∷ [])

pub closed_peer :
    (xs : List Request) (p : String)
    → orders_of (xs ++ disconnected p ∷ []) ≡ orders_of xs ++ whole_peer p ∷ []
unfolding orders_of
closed_peer xs p = orders_of-append xs (disconnected p ∷ [])

abbrev pub sample_recorder : Recorder sample_deps
sample_recorder = record {
  id_eq = ℕ_discrete;
  orders = orders_of;
  orders-close_connection = closed_one;
  orders-disconnect_peer_id = closed_peer;
  orders-set_application_score = scored_none;
}
