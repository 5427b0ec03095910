-- ===== src/Subscriptions/Tests.antt =====
-- The unit tests of src/subscriptions.rs, over any channel that behaves as tokio's is documented to.
-- `next` is `rx.recv().await`, where a call that waits gives nothing.
use p2p_service.Prelude.{
  ℕ, ◌+◌, ◌-◌, length, ◌≤◌, ◌≡◌, refl, ◌∙◌, Bool, true, false, ◌&&◌, Option, none, some, String,
  String_discrete, List, [], ◌∷◌, ◌++◌, ◌==◌, keep_last, arith,
}
use p2p_service.HashMap
use p2p_service.Subscriptions.{Subscriptions, new, subscribe, publish, received_or_zero}
use p2p_service.Subscriptions.Channel.{Envelope, Broadcast, BroadcastLaws}
use p2p_service.Subscriptions.Receive.{Receive, Recv, got, lagged, closed}

abbrev envelope : String → List ℕ → Envelope
envelope topic bytes = record {
  topic = topic;
  source_peer_id = "QmPeer";
  payload = bytes;
  received_at_millis = 0;
}

-- The bytes of "hello", "for-a" and "for-b".
abbrev hello : List ℕ
hello = 104 ∷ 101 ∷ 108 ∷ 108 ∷ 111 ∷ []

abbrev for_a : List ℕ
for_a = 102 ∷ 111 ∷ 114 ∷ 45 ∷ 97 ∷ []

abbrev for_b : List ℕ
for_b = 102 ∷ 111 ∷ 114 ∷ 45 ∷ 98 ∷ []

same_bytes : List ℕ → List ℕ → Bool
same_bytes [] [] = true
same_bytes (x ∷ xs) (y ∷ ys) = (x == y) && same_bytes xs ys
same_bytes _ _ = false

has_data : Option Recv → List ℕ → Bool
unfolding same_bytes
has_data (some (got e)) bytes = same_bytes e.payload bytes
has_data _ bytes = false

has_lag : Option Recv → ℕ → Bool
has_lag (some (lagged n)) k = n == k
has_lag _ k = false

module _ (b : Broadcast) (laws : BroadcastLaws b) (c : Receive b laws) where
  -- One read of the receiver of a topic, whose sender the registry holds.
  next : Subscriptions b → String → b.Receiver → Subscriptions b × Option Recv
  next subs topic rx = elim (HashMap.get String_discrete topic subs.senders) [
    | none ↦ (subs, some closed)
    | some sender ↦
        let (sender', result) = c.recv sender rx in
        (
          record subs { senders = HashMap.insert String_discrete topic sender' subs.senders },
          result,
        )
  ]

  unfoldable pub subscriber_receives_published_message : Bool
  unfolding next has_data
  subscriber_receives_published_message =
      let (subs, rx) = subscribe b (new b 16) "topic-a" in
      let (subs, count) = publish b subs (envelope "topic-a" hello) in
      let (subs, received) = next subs "topic-a" rx in (count == 1) && has_data received hello

  unfoldable pub publish_without_subscriber_is_dropped : Bool
  publish_without_subscriber_is_dropped =
      let (subs, count) = publish b (new b 16) (envelope "topic-a" hello) in count == 0

  unfoldable pub topics_are_isolated : Bool
  unfolding next has_data
  topics_are_isolated =
      let (subs, rx_a) = subscribe b (new b 16) "topic-a" in
      let (subs, rx_b) = subscribe b subs "topic-b" in
      let subs = (publish b subs (envelope "topic-b" for_b)).0 in
      let subs = (publish b subs (envelope "topic-a" for_a)).0 in
      has_data (next subs "topic-a" rx_a).1 for_a

  unfoldable pub slow_subscriber_drops_oldest : Bool
  unfolding next has_data has_lag
  slow_subscriber_drops_oldest =
      let (subs, rx) = subscribe b (new b 2) "topic-a" in
      let subs = (publish b subs (envelope "topic-a" (0 ∷ []))).0 in
      let subs = (publish b subs (envelope "topic-a" (1 ∷ []))).0 in
      let subs = (publish b subs (envelope "topic-a" (2 ∷ []))).0 in
      let subs = (publish b subs (envelope "topic-a" (3 ∷ []))).0 in
      let (subs, first) = next subs "topic-a" rx in
      let (subs, second) = next subs "topic-a" rx in
      let (subs, third) = next subs "topic-a" rx in
      has_lag first 2 && has_data second (2 ∷ []) && has_data third (3 ∷ [])

  -- A receiver, with what waits for it and what it lost.
  record At (s : b.Sender) (rx : b.Receiver) (size : ℕ) (kept : List Envelope) (k : ℕ)
      : Type 0 where
    live : laws.IsLive s rx
    sized : laws.capacity s ≡ size
    waits : laws.waiting s rx ≡ kept
    lost : c.missed s rx ≡ k

  joined : (s : b.Sender) → At (b.subscribe s).0 (b.subscribe s).1 (laws.capacity s) [] 0
  joined s = record {
    live = laws.live_new s;
    sized = laws.capacity-subscribe s;
    waits = laws.waiting_new s;
    lost = c.missed_new s;
  }

  sent :
      (s : b.Sender) (rx : b.Receiver) (size : ℕ) (kept : List Envelope) (k : ℕ) (e : Envelope)
      → At s rx size kept k
      → At
          (b.send s e).0
          rx
          size
          (keep_last size (kept ++ e ∷ []))
          (k + (length (kept ++ e ∷ []) - size))
  sent s rx size kept k e at = record {
    live = laws.live-send s e rx at.live;
    sized = laws.capacity-send s e ∙ at.sized;
    waits = laws.waiting-send s e rx at.live ∙ rw (at.sized, at.waits) refl;
    lost = c.missed-send s e rx at.live ∙ rw (at.sized, at.waits, at.lost) refl;
  }

  program : Unit {0}
  unfolding next has_data has_lag same_bytes new subscribe publish HashMap.get HashMap.insert
      String_discrete
  program = tt

  publish_without_subscriber_is_dropped_lem : publish_without_subscriber_is_dropped ≡ true
  unfolding publish_without_subscriber_is_dropped program
  publish_without_subscriber_is_dropped_lem = refl

  -- The channel holds exactly two messages.
  module _ (two : laws.capacity (b.channel 2) ≡ 2) where
    abbrev rx : b.Receiver
    rx = (b.subscribe (b.channel 2)).1

    abbrev s0 : b.Sender
    s0 = (b.subscribe (b.channel 2)).0

    abbrev numbered : ℕ → Envelope
    numbered n = envelope "topic-a" (n ∷ [])

    abbrev s4 : b.Sender
    s4 =
        (b.send (b.send (b.send (b.send s0 (numbered 0)).0 (numbered 1)).0 (numbered 2)).0
          (numbered 3)).0

    two_left : At s4 rx 2 (numbered 2 ∷ numbered 3 ∷ []) 2
    unfolding keep_last
    two_left = sent _ rx 2 _ _ (numbered 3) (
        sent _ rx 2 _ _ (numbered 2) (
          sent _ rx 2 _ _ (numbered 1)
            (sent s0 rx 2 [] 0 (numbered 0) (rw two at (joined (b.channel 2))))))

    slow_subscriber_drops_oldest_lem : slow_subscriber_drops_oldest ≡ true
    unfolding slow_subscriber_drops_oldest program
    slow_subscriber_drops_oldest_lem =
        let first = c.recv_missed s4 rx 1 two_left.live two_left.lost in
        let live1 = c.live-recv s4 rx two_left.live in
        let second =
          c.recv_ready (c.recv s4 rx).0 rx (numbered 2) (numbered 3 ∷ []) live1 first.1
            (first.2 ∙ two_left.waits) in
        let third =
          c.recv_ready (c.recv (c.recv s4 rx).0 rx).0 rx (numbered 3) []
            (c.live-recv (c.recv s4 rx).0 rx live1) second.1 second.2 in
        rw (first.0, second.0, third.0) refl

  keep_last_one : (size : ℕ) (e : Envelope) → 1 ≤ size → keep_last size (e ∷ []) ≡ e ∷ []
  unfolding keep_last
  keep_last_one size e h = rw (none_lost size h) refl
    where
      none_lost : (n : ℕ) → 1 ≤ n → 1 - n ≡ 0
      none_lost n k = omega arith

  -- One message in a channel of sixteen is read as it was sent.
  one_read :
      (e : Envelope)
      → let s = (b.send (b.subscribe (b.channel 16)).0 e).0 in
        (c.recv s (b.subscribe (b.channel 16)).1).1 ≡ some (got e)
  one_read e =
      let size = laws.capacity (b.channel 16) in
      let wide = laws.capacity-channel 16 in
      let at = sent _ _ size [] 0 e (joined (b.channel 16)) in
      (c.recv_ready _ _ e [] at.live (at.lost ∙ none_lost size wide)
        (at.waits ∙ keep_last_one size e (omega (arith, wide)))).0
    where
      none_lost : (n : ℕ) → 16 ≤ n → 0 + (1 - n) ≡ 0
      none_lost n k = omega arith

  subscriber_receives_published_message_lem :
      (b.send (b.subscribe (b.channel 16)).0 (envelope "topic-a" hello)).1 ≡ some 1
      → subscriber_receives_published_message ≡ true
  unfolding subscriber_receives_published_message program received_or_zero
  subscriber_receives_published_message_lem one = rw (one, one_read (envelope "topic-a" hello)) refl

  topics_are_isolated_lem : topics_are_isolated ≡ true
  unfolding topics_are_isolated program
  topics_are_isolated_lem = rw (one_read (envelope "topic-a" for_a)) refl
