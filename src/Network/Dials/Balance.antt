-- ===== src/Network/Dials/Balance.antt =====
-- The balance of senders over a step: those that wait or come in, and those that wait or are answered.
use p2p_service.Prelude.{
  ℕ, ◌+◌, ◌≡◌, refl, ap, Option, List, [], ◌∷◌, ◌++◌, ite, ℕ_discrete, arith, Option-cases,
  Bool-cases, inl, inr,
}
use p2p_service.HashMap
use p2p_service.HashMap.{HashMap, IsUnique}
use p2p_service.HashMap.Laws.{remove-IsUnique}
use p2p_service.Deps.{Deps}
use p2p_service.Network.{
  EventLoop, Command, Sent, Response, Endpoint, start_listening, dial, identify, subscribe,
  publish_message, network_snapshot, set_preferred_peers, get_peers, done,
}
use p2p_service.Network.Events.{Clock, answer_all, addrs_or_default, on_dialed, resolve_dials}
use p2p_service.Network.Frames.{SameDials}
use p2p_service.Network.Dials.Table.{count, waits, waits-remove}
use p2p_service.Network.Loop.{Input, event, command}

-- The sender of a command.
abbrev pub sender_of : {d : Deps} → Command d → ℕ
sender_of (start_listening addr n) = n
sender_of (dial peer_id addrs n) = n
sender_of (identify n) = n
sender_of (subscribe topic n) = n
sender_of (publish_message topic payload n) = n
sender_of (network_snapshot n) = n
sender_of (set_preferred_peers new_peers n) = n
sender_of (get_peers n) = n

-- How often an input, or a sequence of them, brings the sender `n`.
abbrev pub brings : {d : Deps} → ℕ → Input d → ℕ
brings n (event clock e) = 0
brings n (command c) = ite (ℕ_discrete n (sender_of c)) 1 0

unfoldable pub submitted : {d : Deps} → ℕ → List (Input d) → ℕ
submitted n [] = 0
submitted n (i ∷ is) = brings n i + submitted n is

module _ (d : Deps) where
  -- How often `n` is answered.
  unfoldable pub answers : ℕ → List (Sent d) → ℕ
  answers n [] = 0
  answers n (x ∷ xs) = ite (ℕ_discrete n x.sender) 1 0 + answers n xs

  pub answers-append :
      (n : ℕ) (xs ys : List (Sent d)) → answers n (xs ++ ys) ≡ answers n xs + answers n ys
  unfolding answers
  answers-append n [] ys = omega arith
  answers-append n (x ∷ xs) ys = omega (arith, answers-append n xs ys)

  pub answers-answer_all :
      (n : ℕ) (senders : List ℕ) (r : Response d)
      → answers n (answer_all d senders r) ≡ count n senders
  unfolding answers count
  answers-answer_all n [] r = refl
  answers-answer_all n (x ∷ senders) r = omega (arith, answers-answer_all n senders r)

  -- The table of dials is a map.
  abbrev pub IsTable : EventLoop d → Type 0
  IsTable s = IsUnique d.peer_eq s.pending_dials

  -- A step of the loop that takes in `new` and answers `sent` loses no sender and answers none twice.
  abbrev pub Balanced : ℕ → EventLoop d → EventLoop d → (new : ℕ) → List (Sent d) → Type 0
  Balanced n s s' new sent =
      waits n s.pending_dials + new ≡ waits n s'.pending_dials + answers n sent

  pub resolve_dials-Balanced :
      (n : ℕ) (s : EventLoop d) (p : d.PeerId) (r : Response d)
      → IsTable s
      → Balanced n s (resolve_dials d s p r).0 0 (resolve_dials d s p r).1
  unfolding resolve_dials answers
  resolve_dials-Balanced n s p r u = elim (Option-cases (HashMap.get d.peer_eq p s.pending_dials)) [
    | inl e ↦ rw (e, resolve_dials) (omega arith)
    | inr (senders, e) ↦
        rw (e, resolve_dials)
          (omega (
            arith,
            answers-answer_all n senders r,
            waits-remove d.peer_eq n p s.pending_dials u,
            ap (λ (o : Option (List ℕ)). count n (addrs_or_default o)) e,
          ))
  ]

  pub resolve_dials-IsTable :
      (s : EventLoop d) (p : d.PeerId) (r : Response d)
      → IsTable s
      → IsTable (resolve_dials d s p r).0
  unfolding resolve_dials
  resolve_dials-IsTable s p r u = elim (Option-cases (HashMap.get d.peer_eq p s.pending_dials)) [
    | inl e ↦ rw (e, resolve_dials) u
    | inr (senders, e) ↦ rw (e, resolve_dials) (remove-IsUnique d.peer_eq p s.pending_dials u)
  ]

  -- A step keeps the balance of every sender, and the table.
  abbrev pub Keeps : ℕ → EventLoop d → EventLoop d × List (Sent d) → ℕ → Type 0
  Keeps n s r new = Balanced n s r.0 new r.1 × IsTable r.0

  pub on_dialed-Keeps :
      (n : ℕ) (clock : Clock) (s : EventLoop d) (p : d.PeerId) (endpoint : Endpoint d)
      → IsTable s
      → Keeps n s (on_dialed d clock s p endpoint) 0
  unfolding on_dialed answers
  on_dialed-Keeps n clock s p endpoint u = elim (Bool-cases endpoint.is_dialer) [
    | inl yes_dialer ↦
        rw (yes_dialer, on_dialed)
          (resolve_dials-Balanced n _ p done u, resolve_dials-IsTable _ p done u)
    | inr no_dialer ↦ rw (no_dialer, on_dialed) (omega arith, u)
  ]

  -- A step that answers nothing and leaves the table alone.
  pub Keeps-same :
      (n : ℕ) (s : EventLoop d) (r : EventLoop d × List (Sent d))
      → IsTable s
      → r.1 ≡ []
      → SameDials d s r.0
      → Keeps n s r 0
  unfolding answers
  Keeps-same n s r u silent h = rw (h, silent) (omega arith, u)
