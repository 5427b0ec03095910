-- ===== src/Metrics/Memory/Examples.antt =====
-- A status file at concrete contents.
use p2p_service.Prelude.{◌≡◌, refl, ◌*◌, ◌%◌, ◌^◌, ℕ, List, [], ◌∷◌, ◌++◌, some, arith, Each}
use p2p_service.Metrics.Memory.{starts_with, get_memory_usage}
use p2p_service.Metrics.Memory.Text.{unlines, value}
use p2p_service.Metrics.Memory.Status.{rss_line, get_memory_usage_status}

-- "Name:" and "Threads:"
abbrev name_line : List ℕ
name_line = b'N' ∷ b'a' ∷ b'm' ∷ b'e' ∷ b':' ∷ []

abbrev threads_line : List ℕ
threads_line = b'T' ∷ b'h' ∷ b'r' ∷ []

-- "VmRSS:\t 12 kB"
get_memory_usage_status_example :
    get_memory_usage (
      some (
        unlines
          ((name_line ∷ []) ++ rss_line (9 ∷ 32 ∷ []) (b'1' ∷ b'2' ∷ []) ∷ threads_line ∷ [])))
    ≡ some ((value 0 (b'1' ∷ b'2' ∷ []) * 1024) % 2 ^ 64)
unfolding Each starts_with value
get_memory_usage_status_example =
    get_memory_usage_status (name_line ∷ []) (threads_line ∷ []) 9 (32 ∷ []) b'1' (b'2' ∷ [])
      ((refl, (refl, (refl, (refl, (refl, tt))))), tt) ((refl, (refl, (refl, tt))), tt) (refl, tt)
      (refl, (refl, tt)) (refl, (refl, tt)) (omega arith)

twelve : value 0 (b'1' ∷ b'2' ∷ []) ≡ 12
unfolding value
twelve = refl
