-- ===== src/Subscriptions/Receive.antt =====
-- `recv` of tokio's broadcast channel, which the streams of src/grpc.rs call, and what is relied on.
use p2p_service.Prelude.{
  ℕ, zero, suc, ◌+◌, ◌-◌, ◌<◌, ◌≡◌, refl, ap, Option, none, some, List, [], ◌∷◌, ◌++◌, map, length,
  arith,
}
use p2p_service.Subscriptions.Channel.{Envelope, Broadcast, BroadcastLaws}

-- What one call of `recv` returns; `lagged n` says that `n` messages were skipped.
pub data Recv : Type 0 where
  got : Envelope → Recv
  lagged : ℕ → Recv
  closed : Recv

-- The documented behaviour while the channel has its sender. `missed s r` is the number of messages
-- that `r` lost and has not been told of.
pub record Receive (b : Broadcast) (laws : BroadcastLaws b) : Type 1 where
  -- `none`: there is nothing to read, and the call waits.
  pub recv : b.Sender → b.Receiver → b.Sender × Option Recv
  pub missed : b.Sender → b.Receiver → ℕ
  pub missed_new : (s : b.Sender) → missed (b.subscribe s).0 (b.subscribe s).1 ≡ 0
  pub missed-subscribe :
      (s : b.Sender) (r : b.Receiver) → laws.IsLive s r → missed (b.subscribe s).0 r ≡ missed s r
  pub missed-send :
      (s : b.Sender) (e : Envelope) (r : b.Receiver)
      → laws.IsLive s r
      → missed (b.send s e).0 r
        ≡ missed s r + (length (laws.waiting s r ++ e ∷ []) - laws.capacity s)
  pub live-recv : (s : b.Sender) (r : b.Receiver) → laws.IsLive s r → laws.IsLive (recv s r).0 r
  -- The loss is reported once, before anything else is read.
  pub recv_missed :
      (s : b.Sender) (r : b.Receiver) (n : ℕ)
      → laws.IsLive s r
      → missed s r ≡ suc n
      → ((recv s r).1 ≡ some (lagged (suc n)))
        × (missed (recv s r).0 r ≡ 0)
        × (laws.waiting (recv s r).0 r ≡ laws.waiting s r)
  pub recv_ready :
      (s : b.Sender) (r : b.Receiver) (e : Envelope) (es : List Envelope)
      → laws.IsLive s r
      → missed s r ≡ 0
      → laws.waiting s r ≡ e ∷ es
      → ((recv s r).1 ≡ some (got e))
        × (missed (recv s r).0 r ≡ 0)
        × (laws.waiting (recv s r).0 r ≡ es)
  pub recv_idle :
      (s : b.Sender) (r : b.Receiver)
      → laws.IsLive s r
      → missed s r ≡ 0
      → laws.waiting s r ≡ []
      → (recv s r).1 ≡ none

-- The report of a loss, if there is one.
abbrev pub report : ℕ → List Recv
report zero = []
report (suc n) = lagged (suc n) ∷ []

module _ {b : Broadcast} {laws : BroadcastLaws b} (c : Receive b laws) where
  -- What the next calls return while nothing is sent, at most so many of them: up to the one that
  -- waits.
  unfoldable pub polls : ℕ → b.Sender → b.Receiver → List Recv
  polls zero s r = []
  polls (suc n) s r =
      let rest = polls n (c.recv s r).0 r in elim (c.recv s r).1 [ none ↦ [] | some x ↦ x ∷ rest ]

  -- The messages that wait are read in their order.
  pub polls_ready :
      (es : List Envelope) (n : ℕ) (s : b.Sender) (r : b.Receiver)
      → length es < n
      → laws.IsLive s r
      → c.missed s r ≡ 0
      → laws.waiting s r ≡ es
      → polls n s r ≡ map got es
  unfolding polls
  polls_ready es zero s r h live up waits = absurd (omega arith)
  polls_ready [] (suc n) s r h live up waits = ground (arith, c.recv_idle s r live up waits)
  polls_ready (e ∷ es) (suc n) s r h live up waits =
      let step = c.recv_ready s r e es live up waits in
      rw (step.0, polls)
        (ap (λ l. got e ∷ l)
          (polls_ready es n (c.recv s r).0 r (omega arith) (c.live-recv s r live) step.1 step.2))

  polls_after :
      (k n : ℕ) (s : b.Sender) (r : b.Receiver)
      → length (laws.waiting s r) + 1 < n
      → laws.IsLive s r
      → c.missed s r ≡ k
      → polls n s r ≡ report k ++ map got (laws.waiting s r)
  unfolding polls
  polls_after zero n s r h live lost =
      polls_ready (laws.waiting s r) n s r (omega arith) live lost refl
  polls_after (suc k) zero s r h live lost = absurd (omega arith)
  polls_after (suc k) (suc n) s r h live lost =
      let step = c.recv_missed s r k live lost in
      rw (step.0, polls)
        (ap (λ l. lagged (suc k) ∷ l)
          (polls_ready (laws.waiting s r) n (c.recv s r).0 r (omega arith) (c.live-recv s r live)
            step.1 step.2))

  -- A consumer that reads until it has to wait is first told of the loss, if there was one, and
  -- then gets the messages that wait.
  pub polls_lem :
      (n : ℕ) (s : b.Sender) (r : b.Receiver)
      → length (laws.waiting s r) + 1 < n
      → laws.IsLive s r
      → polls n s r ≡ report (c.missed s r) ++ map got (laws.waiting s r)
  polls_lem n s r h live = polls_after (c.missed s r) n s r h live refl
