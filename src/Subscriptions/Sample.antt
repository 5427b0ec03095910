-- ===== src/Subscriptions/Sample.antt =====
-- A channel that meets the laws: a queue for each receiver, receivers numbered from 0. For the
-- examples.
use p2p_service.Prelude.{
  ℕ, zero, suc, ◌+◌, ◌-◌, ◌≤◌, ◌<◌, ◌≡◌, refl, ap, ◌∙◌, Option, none, some, List, [], ◌∷◌, ◌++◌,
  map, length, length-map, length-append, keep_last, arith,
}
use p2p_service.Subscriptions.Channel.{Envelope, Broadcast, BroadcastLaws}
use p2p_service.Subscriptions.Receive.{Recv, got, lagged, Receive}

-- How many messages were lost without a report, and those that wait.
abbrev Queue : Type 0
Queue = ℕ × List Envelope

pub record Chan : Type 0 where
  pub size : ℕ
  pub queues : List Queue

-- The queue of a receiver.
abbrev nth : List Queue → ℕ → Queue
nth [] i = (0, [])
nth (q ∷ qs) zero = q
nth (q ∷ qs) (suc i) = nth qs i

abbrev put_at : List Queue → ℕ → Queue → List Queue
put_at [] i p = []
put_at (q ∷ qs) zero p = p ∷ qs
put_at (q ∷ qs) (suc i) p = q ∷ put_at qs i p

abbrev deliver : ℕ → Envelope → Queue → Queue
deliver size e q = (q.0 + (length (q.1 ++ e ∷ []) - size), keep_last size (q.1 ++ e ∷ []))

abbrev answer : List Queue → Option ℕ
answer [] = none
answer (q ∷ qs) = some (suc (length qs))

abbrev take_one : Queue → Queue × Option Recv
take_one (suc n, q) = ((0, q), some (lagged (suc n)))
take_one (zero, []) = ((0, []), none)
take_one (zero, e ∷ q) = ((0, q), some (got e))

abbrev pub queue_broadcast : Broadcast
queue_broadcast = record {
  Sender = Chan;
  Receiver = ℕ;
  channel = λ n. record { size = n; queues = [] };
  subscribe = λ s. (record s { queues = s.queues ++ (0, []) ∷ [] }, length s.queues);
  send = λ s e. (record s { queues = map (deliver s.size e) s.queues }, answer s.queues);
}

pub nth_last : (qs : List Queue) (q : Queue) → nth (qs ++ q ∷ []) (length qs) ≡ q
nth_last [] q = refl
nth_last (x ∷ qs) q = nth_last qs q

pub nth-append :
    (qs : List Queue) (q : Queue) (i : ℕ) → i < length qs → nth (qs ++ q ∷ []) i ≡ nth qs i
nth-append [] q i h = elim h [ ]
nth-append (x ∷ qs) q zero h = refl
nth-append (x ∷ qs) q (suc i) h = nth-append qs q i (omega arith)

pub nth-map :
    (f : Queue → Queue) (qs : List Queue) (i : ℕ) → i < length qs → nth (map f qs) i ≡ f (nth qs i)
nth-map f [] i h = elim h [ ]
nth-map f (x ∷ qs) zero h = refl
nth-map f (x ∷ qs) (suc i) h = nth-map f qs i (omega arith)

pub nth-put_at : (qs : List Queue) (p : Queue) (i : ℕ) → i < length qs → nth (put_at qs i p) i ≡ p
nth-put_at [] p i h = elim h [ ]
nth-put_at (x ∷ qs) p zero h = refl
nth-put_at (x ∷ qs) p (suc i) h = nth-put_at qs p i (omega arith)

length-put_at : (qs : List Queue) (p : Queue) (i : ℕ) → length (put_at qs i p) ≡ length qs
length-put_at [] p i = refl
length-put_at (x ∷ qs) p zero = refl
length-put_at (x ∷ qs) p (suc i) = omega (arith, length-put_at qs p i)

pub longer : (qs : List Queue) (q : Queue) (i : ℕ) → i ≤ length qs → i < length (qs ++ q ∷ [])
longer qs q i h = omega (arith, length-append qs (q ∷ []))

pub mapped : (f : Queue → Queue) (qs : List Queue) (i : ℕ) → i < length qs → i < length (map f qs)
mapped f qs i h = omega (arith, length-map f qs)

pub replaced : (qs : List Queue) (p : Queue) (i : ℕ) → i < length qs → i < length (put_at qs i p)
replaced qs p i h = omega (arith, length-put_at qs p i)

pub self_le : (n : ℕ) → n ≤ n
self_le n = omega arith

pub lt_le : (m n : ℕ) → m < n → m ≤ n
lt_le m n h = omega arith

abbrev pub queue_laws : BroadcastLaws queue_broadcast
queue_laws = record {
  IsLive = λ s r. r < length s.queues;
  waiting = λ s r. (nth s.queues r).1;
  capacity = λ s. s.size;
  capacity-channel = self_le;
  capacity-subscribe = λ s. refl;
  capacity-send = λ s e. refl;
  live_new = λ s. longer s.queues (0, []) (length s.queues) (self_le (length s.queues));
  live-subscribe = λ s r h. longer s.queues (0, []) r (lt_le r (length s.queues) h);
  live-send = λ s e r h. mapped (deliver s.size e) s.queues r h;
  waiting_new = λ s. ap (λ q. q.1) (nth_last s.queues (0, []));
  waiting-subscribe = λ s r h. ap (λ q. q.1) (nth-append s.queues (0, []) r h);
  waiting-send = λ s e r h. ap (λ q. q.1) (nth-map (deliver s.size e) s.queues r h);
}

abbrev read_one : Chan → ℕ → Chan × Option Recv
read_one s r =
    let (q, out) = take_one (nth s.queues r) in (record s { queues = put_at s.queues r q }, out)

-- What `take_one` leaves and gives, in its three cases.
pub take_missed :
    (q : Queue) (n : ℕ)
    → q.0 ≡ suc n
    → ((take_one q).1 ≡ some (lagged (suc n))) × ((take_one q).0.0 ≡ 0) × ((take_one q).0.1 ≡ q.1)
take_missed (zero, es) n h = absurd (omega (arith, h))
take_missed (suc m, es) n h = (ap (λ k. some (lagged k)) h, refl, refl)

pub take_ready :
    (q : Queue) (e : Envelope) (es : List Envelope)
    → q.0 ≡ 0
    → q.1 ≡ e ∷ es
    → ((take_one q).1 ≡ some (got e)) × ((take_one q).0.0 ≡ 0) × ((take_one q).0.1 ≡ es)
take_ready (suc m, xs) e es h k = absurd (omega (arith, h))
take_ready (zero, []) e es h k = absurd (cc)
take_ready (zero, x ∷ xs) e es h k = (cc, refl, cc)

pub take_idle : (q : Queue) → q.0 ≡ 0 → q.1 ≡ [] → (take_one q).1 ≡ none
take_idle (suc m, xs) h k = absurd (omega (arith, h))
take_idle (zero, []) h k = refl
take_idle (zero, x ∷ xs) h k = absurd (cc)

abbrev pub queue_receive : Receive queue_broadcast queue_laws
queue_receive = record {
  recv = read_one;
  missed = λ s r. (nth s.queues r).0;
  missed_new = λ s. ap (λ q. q.0) (nth_last s.queues (0, []));
  missed-subscribe = λ s r h. ap (λ q. q.0) (nth-append s.queues (0, []) r h);
  missed-send = λ s e r h. ap (λ q. q.0) (nth-map (deliver s.size e) s.queues r h);
  live-recv = λ s r h. replaced s.queues (take_one (nth s.queues r)).0 r h;
  recv_missed = λ s r n h m.
      let t = take_missed (nth s.queues r) n m in
      let p = nth-put_at s.queues (take_one (nth s.queues r)).0 r h in
      (t.0, ap (λ q. q.0) p ∙ t.1, ap (λ q. q.1) p ∙ t.2);
  recv_ready = λ s r e es h m w.
      let t = take_ready (nth s.queues r) e es m w in
      let p = nth-put_at s.queues (take_one (nth s.queues r)).0 r h in
      (t.0, ap (λ q. q.0) p ∙ t.1, ap (λ q. q.1) p ∙ t.2);
  recv_idle = λ s r h m w. take_idle (nth s.queues r) m w;
}
