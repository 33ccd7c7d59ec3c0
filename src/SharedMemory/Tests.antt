-- ===== src/SharedMemory/Tests.antt =====
-- The text of UnixSharedMemory.c, where only the child's IPC_RMID is accepted.
use c_basics.Prelude.{ℕ, ◌≡◌, Bool, true, false, some, List, [], ◌∷◌, arith}
use c_basics.SelectServer.Text.{zeros}
use c_basics.SharedMemory.Segment.{Segment, is_gone, Answers, exit_failure, printed, shared_memory}
use c_basics.SharedMemory.Removed.{shared_memory-prints}

-- "The child was here".
abbrev was_here : List ℕ
was_here =
    84 ∷ 104 ∷ 101 ∷ 32 ∷ 99 ∷ 104 ∷ 105 ∷ 108 ∷ 100 ∷ 32 ∷ 119 ∷ 97 ∷ 115 ∷ 32 ∷ 104 ∷ 101 ∷ 114
    ∷ 101 ∷ []

abbrev accepted : Answers
accepted = record { shmctl = true; shmdt = true }

abbrev refused : Answers
refused = record { shmctl = false; shmdt = true }

shared_memory-prints_example :
    ((ok : Bool) × (s : Segment) × (shared_memory was_here true
          (some (zeros 1024))
          true
          true
          accepted
          refused
        ≡ printed was_here ok s)
      × (is_gone s ≡ true))
    × ((s : Segment) × (shared_memory was_here true (some (zeros 1024)) true false accepted refused
          ≡ exit_failure (some s))
        × (is_gone s ≡ false)
        × (s.attached ≡ 0))
shared_memory-prints_example =
    shared_memory-prints was_here (zeros 1024) accepted refused (ground arith) (omega arith)
