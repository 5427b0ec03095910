-- ===== src/Subscriptions/Examples.antt =====
-- Delivery at concrete inputs, and tests of the source.
use p2p_service.Prelude.{
  ℕ, ◌≤◌, ◌≡◌, refl, some, List, [], ◌∷◌, keep_last, String, String_discrete, ◌++◌, ◌+◌, ◌-◌, ◌<◌,
  map, length, arith,
}
use p2p_service.HashMap
use p2p_service.Subscriptions.{new, subscribe, publish}
use p2p_service.Subscriptions.Channel.{Envelope}
use p2p_service.Subscriptions.Reading
use p2p_service.Subscriptions.Receive.{got, polls, report}
use p2p_service.Subscriptions.Calls.{Call, subscribes, publishes, run, sent_on}
use p2p_service.Subscriptions.Sample.{Chan, queue_broadcast, queue_laws, queue_receive}

program : Unit {0}
unfolding new subscribe publish run sent_on keep_last HashMap.get HashMap.insert String_discrete
program = tt

abbrev envelope : String → ℕ → Envelope
envelope topic n = record {
  topic = topic;
  source_peer_id = "QmPeer";
  payload = n ∷ [];
  received_at_millis = 0;
}

abbrev calls : List Call
calls =
    publishes (envelope "a" 0)
    ∷ publishes (envelope "b" 1)
    ∷ subscribes "a"
    ∷ publishes (envelope "a" 2)
    ∷ publishes (envelope "a" 3)
    ∷ []

-- `publish_without_subscriber_is_dropped` and `subscriber_receives_published_message`.
nobody : (publish queue_broadcast (new queue_broadcast 16) (envelope "a" 0)).1 ≡ 0
unfolding program
nobody = refl

one_receiver :
    (publish queue_broadcast
      (subscribe queue_broadcast (new queue_broadcast 16) "a").0
      (envelope "a" 0)).1
    ≡ 1
unfolding program
one_receiver = refl

few : length (sent_on "a" calls) + 1 < 5
unfolding program
few = omega arith

-- Three messages for a channel of two: the oldest is lost, as in `slow_subscriber_drops_oldest`.
lagging : keep_last 2 (sent_on "a" calls) ≡ envelope "a" 2 ∷ envelope "a" 3 ∷ []
unfolding program
lagging = refl

reading_example :
    let (subs, r) =
      subscribe queue_broadcast (run queue_broadcast (new queue_broadcast 2) []) "a" in
    (s : Chan) × (HashMap.get String_discrete "a" (run queue_broadcast subs calls).senders ≡ some s)
    × (polls queue_receive 5 s r
        ≡ report (length (sent_on "a" calls) - queue_laws.capacity s)
          ++ map got (keep_last (queue_laws.capacity s) (sent_on "a" calls)))
    × (2 ≤ queue_laws.capacity s)
reading_example = Reading.reading queue_broadcast queue_laws queue_receive 2 [] calls "a" 5 few
