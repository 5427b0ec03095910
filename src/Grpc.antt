-- ===== src/Grpc.antt =====
-- src/grpc.rs: the handlers' own logic. A status is its code; its text is not modelled. What the
-- event loop answered to a command is an argument, since other events are handled in between.
pub mod Publish
pub mod Peers
pub mod Handlers
pub mod Stream
pub mod Preferred
pub mod Dialing
pub mod Delivery
pub mod Echo
pub mod Counting
mod Examples
use mathlib.Core.List.{filter_map}
use p2p_service.Prelude.{
  ℕ, Bool, true, false, Option, none, some, String, List, [], ◌∷◌, if◌then◌else◌, ite,
  String_discrete,
}
use p2p_service.HashSet
use p2p_service.HashSet.{HashSet, contains}
use p2p_service.Net.{Net}
use p2p_service.Deps.{Outcome, ok, failed, PublishError, no_peers_subscribed_to_topic}
use p2p_service.Metrics.{Metrics, inc_counter, increment_event}
use p2p_service.Subscriptions
use p2p_service.Subscriptions.{Subscriptions}
use p2p_service.Subscriptions.Channel.{Envelope, Broadcast}
use p2p_service.Network.{BoxError, publish_error}
use p2p_service.Network.Errors.{
  DialErrorKind, wrong_peer, unreachable, internal, classify_dial_error,
}

pub data StatusCode : Type 0 where
  invalid_argument failed_precondition not_found internal_error : StatusCode

unfoldable pub status_of : DialErrorKind → StatusCode
status_of wrong_peer = failed_precondition
status_of unreachable = not_found
status_of internal = internal_error

unfoldable pub map_dial_error_to_status : BoxError → StatusCode
unfolding status_of
map_dial_error_to_status e = status_of (classify_dial_error e)

-- `PublishRequest`
pub record PublishRequest : Type 0 where
  pub topic : String
  pub payload : List ℕ
  pub echo : Bool

-- The part of the service's state that Publish changes: it is shared with the event loop.
pub record Shared (b : Broadcast) : Type 0 where
  pub metrics : Metrics
  pub subscriptions : Subscriptions b

unfoldable pub is_no_peers : BoxError → Bool
is_no_peers (publish_error no_peers_subscribed_to_topic) = true
is_no_peers _ = false

-- The metrics after the event loop's answer.
unfoldable pub count_publish : Metrics → Outcome BoxError → Metrics
unfolding is_no_peers
count_publish m ok =
    increment_event (record m { total_messages_sent = inc_counter m.total_messages_sent })
      "message_published"
count_publish m (failed e) =
    if is_no_peers e
    then increment_event m "publish_no_peers"
    else increment_event m "publish_error"

-- Whether the handler goes on after the event loop's answer.
unfoldable pub goes_on : Outcome BoxError → Bool
unfolding is_no_peers
goes_on ok = true
goes_on (failed e) = is_no_peers e

module _ (b : Broadcast) where
  unfoldable pub publish :
      (local_peer_id : String)
      → (now_millis : ℕ) → (answer : Outcome BoxError) → Shared b
      → PublishRequest
      → Shared b × Outcome StatusCode
  publish local_peer_id now_millis answer s request =
      let counted = record s { metrics = count_publish s.metrics answer } in
      ite (String_discrete request.topic "") (s, failed invalid_argument)
        (if goes_on answer
          then (
            if request.echo
                then record counted {
                  subscriptions =
                      (Subscriptions.publish b s.subscriptions (record {
                        topic = request.topic;
                        source_peer_id = local_peer_id;
                        payload = request.payload;
                        received_at_millis = now_millis;
                      })).0;
                }
                else counted,
            ok,
          )
          else (counted, failed internal_error))

-- A `PreferredPeer` of the request: a peer id and its multiaddrs, as texts.
abbrev pub PreferredPeer : Type 0
PreferredPeer = String × List String

module _ (net : Net) where
  unfoldable pub keep_addrs : List String → List net.Multiaddr
  keep_addrs = filter_map net.read_addr

  -- The loop of SetPreferredPeers over the entries; `seen.insert` puts the id in either way.
  unfoldable pub parse_peers :
      (seen : HashSet net.PeerId) → List PreferredPeer → List (net.PeerId × List net.Multiaddr)
  unfolding keep_addrs
  parse_peers seen [] = []
  parse_peers seen ((text, multiaddrs) ∷ rest) = elim (net.read_peer text) [
    | none ↦ parse_peers seen rest
    | some peer_id ↦
        let parsed = parse_peers (HashSet.insert net.peer_eq peer_id seen) rest in
        if contains net.peer_eq peer_id seen
        then parsed
        else (peer_id, keep_addrs multiaddrs) ∷ parsed
  ]
