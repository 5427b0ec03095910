-- ===== src/Network/Client/Wait.antt =====
-- What a call waits for: the one-shot channel of `send_command_and_wait` in src/p2p/network.rs against
-- the answers of the event loop.
use p2p_service.Prelude.{ℕ, ◌≡◌, refl, none, some, List, [], ◌∷◌, ◌++◌, arith, ◌≤◌}
use p2p_service.Deps.{Deps}
use p2p_service.Network.{EventLoop, Sent, Response, Command}
use p2p_service.Network.Events.{answer_all}
use p2p_service.Network.Commands.{reply}
use p2p_service.Network.Dials.Table.{count}
use p2p_service.Network.Dials.Balance.{answers}
use p2p_service.Network.Loop.{Input, run, step, command}
use p2p_service.Network.Client.{Result, received, send_command_and_wait, wait}

module _ (d : Deps) (n : ℕ) where
  -- A channel on which nothing is sent holds nothing.
  pub received_unanswered : (xs : List (Sent d)) → answers d n xs ≡ 0 → received d n xs ≡ none
  unfolding received answers
  received_unanswered [] h = refl
  received_unanswered (x ∷ xs) h = ground (arith, received_unanswered xs)

  pub received-append :
      (xs ys : List (Sent d))
      → received d n (xs ++ ys)
        ≡ elim (received d n xs) [ none ↦ received d n ys | some r ↦ some r ]
  unfolding received
  received-append [] ys = refl
  received-append (x ∷ xs) ys = ground (arith, received-append xs ys)

  -- A sender in the list of those that are answered alike.
  pub received-answer_all :
      (senders : List ℕ) (r : Response d)
      → 1 ≤ count n senders
      → received d n (answer_all d senders r) ≡ some r
  unfolding received count
  received-answer_all [] r h = absurd (omega arith)
  received-answer_all (m ∷ senders) r h = ground (arith, received-answer_all senders r)

  -- A command that is answered at once.
  pub send_replied :
      {A : Type 0} (read : Response d → Result A) (s : EventLoop d) (later : List (Input d))
      (c : Command d) (answer : Response d)
      → (step d s (command c)).1 ≡ reply d n answer
      → send_command_and_wait d read (record { event_loop = some s; later = later }) c n
        ≡ read answer
  unfolding send_command_and_wait run received wait
  send_replied read s later c answer h = ground (arith, h)
