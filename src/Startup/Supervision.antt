-- ===== src/Startup/Supervision.antt =====
-- `main` of src/main.rs from the first flush of the peerstore to the exit of the process: which task
-- ends first, and what is on disk then.
pub mod Persistence
use p2p_service.Prelude.{ℕ, Bool, String, List, [], ◌∷◌, Option}
use p2p_service.Peerstore.{PeerStore}
use p2p_service.Peerstore.File.{Files, Outcomes, save}

-- The branch of the select that completes.
pub data Ended : Type 0 where
  p2p_event_loop grpc_server maintenance peerstore_flusher metrics_http sigint sigterm : Ended

unfoldable pub exit_code : Ended → ℕ
exit_code p2p_event_loop = 1
exit_code grpc_server = 1
exit_code maintenance = 1
exit_code peerstore_flusher = 1
exit_code metrics_http = 1
exit_code sigint = 0
exit_code sigterm = 0

-- A tick of the flush interval: the peerstore as it is then, and what becomes of the save.
pub record Tick : Type 0 where
  pub store : PeerStore
  pub outcomes : Outcomes

module _ (to_json : PeerStore → Option String) (from_json : String → Option PeerStore)
    (tmp_path path : String) where
  -- One save; an error is only logged.
  unfoldable pub flush : Files → Tick → Files
  flush files tick = (save to_json from_json tick.store files tmp_path path tick.outcomes).0

  -- The ticks after the first.
  unfoldable pub flush_ticks : Files → List Tick → Files
  unfolding flush
  flush_ticks files [] = files
  flush_ticks files (tick ∷ ticks) = flush_ticks (flush files tick) ticks

  -- The flusher: its first tick fires at once and is skipped.
  unfoldable pub flush_loop : Files → List Tick → Files
  unfolding flush_ticks
  flush_loop files [] = files
  flush_loop files (first ∷ ticks) = flush_ticks files ticks

  -- The rest of the process: the flusher until a task ends, then the final save and the exit code;
  -- that a poisoned lock of the peerstore would panic at the final save is left out.
  unfoldable pub supervise : Files → List Tick → Ended → (final : Tick) → Files × ℕ
  unfolding flush_loop
  supervise files ticks ended final = (flush (flush_loop files ticks) final, exit_code ended)
