-- ===== src/Subscriptions.antt =====
-- src/subscriptions.rs: per-topic fanout to the local consumers. The broadcast channel is tokio's,
-- so it is a parameter; the lock makes each call one step.
pub mod Channel
pub mod Receive
pub mod Calls
pub mod Sizes
pub mod Delivery
pub mod Reading
pub mod Tests
pub mod Sample
mod Examples
use p2p_service.Prelude.{ℕ, Option, none, some, String, List, [], String_discrete}
use p2p_service.HashMap
use p2p_service.HashMap.{HashMap}
use Channel.{Envelope, Broadcast}

pub record Subscriptions (b : Broadcast) : Type 0 where
  pub capacity : ℕ
  pub senders : HashMap String b.Sender

-- `or_insert_with(|| broadcast::channel(self.capacity).0)`
unfoldable pub sender_or_new : (b : Broadcast) → ℕ → Option b.Sender → b.Sender
sender_or_new b capacity none = b.channel capacity
sender_or_new b capacity (some s) = s

-- `unwrap_or(0)` on what `send` returns.
unfoldable pub received_or_zero : Option ℕ → ℕ
received_or_zero none = 0
received_or_zero (some n) = n

module _ (b : Broadcast) where
  unfoldable pub new : ℕ → Subscriptions b
  new capacity = record { capacity = capacity; senders = [] }

  unfoldable pub subscribe : Subscriptions b → String → Subscriptions b × b.Receiver
  unfolding sender_or_new
  subscribe subs topic =
      let sender = sender_or_new b subs.capacity (HashMap.get String_discrete topic subs.senders) in
      let (sender', receiver) = b.subscribe sender in
      (
        record subs { senders = HashMap.insert String_discrete topic sender' subs.senders },
        receiver,
      )

  -- The number of receivers that got the message comes back with the registry.
  unfoldable pub publish : Subscriptions b → Envelope → Subscriptions b × ℕ
  unfolding received_or_zero
  publish subs envelope = elim (HashMap.get String_discrete envelope.topic subs.senders) [
    | none ↦ (subs, 0)
    | some sender ↦
        let (sender', sent) = b.send sender envelope in
        (
          record subs {
            senders = HashMap.insert String_discrete envelope.topic sender' subs.senders;
          },
          received_or_zero sent,
        )
  ]
