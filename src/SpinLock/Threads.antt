-- ===== src/SpinLock/Threads.antt =====
-- The threads of UnixSpinLocks.c: a step is one access of the counter or one call of the lock.
use c_basics.Prelude.{
  ℕ, ◌+◌, ◌%◌, Bool, true, false, Option, none, some, ltb, if◌then◌else◌, replicate,
}
use c_basics.Threads.Schedule.{System}
use c_basics.Threads.Start.{Exit, exit_failure, exit_success, all_succeed}

-- In the order of `pthread_function_example`: before the first test, the lock, the read and the
-- write of `++`, those of `--`, the unlock and the second test; ended; or in exit(3) with a
-- failure.
pub data Thread : Type 0 where
  arriving : Thread
  waiting : Thread
  entered : Thread
  read_up : ℕ → Thread
  raised : Thread
  read_down : ℕ → Thread
  lowered : Thread
  leaving : Thread
  ended : Thread
  failing : Thread

-- `cannot_go_over_2`, a byte, and whether the lock is held.
pub record Shared : Type 0 where
  pub cannot_go_over_2 : ℕ
  pub held : Bool

-- One step. `none`: the thread spins, or has ended.
unfoldable pub thread_step : Thread → Shared → Option (Thread × Shared)
thread_step arriving s = some (if ltb 2 s.cannot_go_over_2 then failing else waiting, s)
thread_step waiting s = if s.held then none else some (entered, record s { held = true })
thread_step entered s = some (read_up s.cannot_go_over_2, s)
thread_step (read_up v) s = some (raised, record s { cannot_go_over_2 = (v + 1) % 256 })
thread_step raised s = some (read_down s.cannot_go_over_2, s)
thread_step (read_down v) s = some (lowered, record s { cannot_go_over_2 = (v + 255) % 256 })
thread_step lowered s = some (leaving, record s { held = false })
thread_step leaving s = some (if ltb 2 s.cannot_go_over_2 then failing else ended, s)
thread_step ended s = none
thread_step failing s = none

abbrev pub initial : ℕ → System Thread Shared
initial n = record {
  threads = replicate n arriving;
  shared = record { cannot_go_over_2 = 0; held = false };
}

-- `main`, with the answers of pthread_create and pthread_join for its two threads.
unfoldable pub spin_locks : (ℕ → Bool) → (ℕ → Bool) → Exit
unfolding all_succeed
spin_locks create join =
    if all_succeed create 2 0
    then (if all_succeed join 2 0 then exit_success else exit_failure)
    else exit_failure
