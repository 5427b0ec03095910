-- ===== src/Subscriptions/Channel.antt =====
-- What the service uses of `tokio::sync::broadcast`, and what it relies on.
use p2p_service.Prelude.{ℕ, ◌≤◌, ◌≡◌, Option, String, List, [], ◌∷◌, ◌++◌, keep_last}

-- `Envelope` of src/subscriptions.rs; `payload` is its field `data`.
pub record Envelope : Type 0 where
  pub topic : String
  pub source_peer_id : String
  pub payload : List ℕ
  pub received_at_millis : ℕ

-- A `Sender` stands for its channel with everything that the channel holds for its receivers.
pub record Broadcast : Type 1 where
  pub Sender : Type 0
  pub Receiver : Type 0
  pub channel : ℕ → Sender
  pub subscribe : Sender → Sender × Receiver
  -- `none` is the error: no receiver is left.
  pub send : Sender → Envelope → Sender × Option ℕ

-- The documented behaviour. `waiting s r` is what the receiver `r` has yet to read; a receiver that
-- lags keeps the newest `capacity s` messages.
pub record BroadcastLaws (b : Broadcast) : Type 1 where
  pub IsLive : b.Sender → b.Receiver → Type 0
  pub waiting : b.Sender → b.Receiver → List Envelope
  pub capacity : b.Sender → ℕ
  pub capacity-channel : (n : ℕ) → n ≤ capacity (b.channel n)
  pub capacity-subscribe : (s : b.Sender) → capacity (b.subscribe s).0 ≡ capacity s
  pub capacity-send : (s : b.Sender) (e : Envelope) → capacity (b.send s e).0 ≡ capacity s
  pub live_new : (s : b.Sender) → IsLive (b.subscribe s).0 (b.subscribe s).1
  pub live-subscribe : (s : b.Sender) (r : b.Receiver) → IsLive s r → IsLive (b.subscribe s).0 r
  pub live-send :
      (s : b.Sender) (e : Envelope) (r : b.Receiver) → IsLive s r → IsLive (b.send s e).0 r
  pub waiting_new : (s : b.Sender) → waiting (b.subscribe s).0 (b.subscribe s).1 ≡ []
  pub waiting-subscribe :
      (s : b.Sender) (r : b.Receiver) → IsLive s r → waiting (b.subscribe s).0 r ≡ waiting s r
  pub waiting-send :
      (s : b.Sender) (e : Envelope) (r : b.Receiver)
      → IsLive s r
      → waiting (b.send s e).0 r ≡ keep_last (capacity s) (waiting s r ++ e ∷ [])
