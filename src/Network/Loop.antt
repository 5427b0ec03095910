-- ===== src/Network/Loop.antt =====
-- `EventLoop::run`: the select loop as a sequence of events and commands, in the order in which they
-- are taken, with everything that was sent on one-shot channels.
use p2p_service.Prelude.{List, [], ◌∷◌, ◌++◌}
use p2p_service.Deps.{Deps}
use p2p_service.Network.{EventLoop, SwarmEvent, Command, Sent}
use p2p_service.Network.Events.{Clock, handle_event}
use p2p_service.Network.Commands.{handle_command}

pub data Input (d : Deps) : Type 0 where
  event : Clock → SwarmEvent d → Input d
  command : Command d → Input d

module _ (d : Deps) where
  unfoldable pub step : EventLoop d → Input d → EventLoop d × List (Sent d)
  step s (event clock e) = handle_event d clock s e
  step s (command c) = handle_command d s c

  unfoldable pub run : EventLoop d → List (Input d) → EventLoop d × List (Sent d)
  run s [] = (s, [])
  run s (i ∷ is) = let (s', sent) = step s i in let (s'', more) = run s' is in (s'', sent ++ more)
