-- ===== src/Mutex/Threads.antt =====
-- The threads of UnixMutex.c: a step is one access of the counter or one call of the mutex.
use c_basics.Prelude.{ℕ, suc, Bool, true, false, Option, none, some, ltb, if◌then◌else◌, replicate}
use c_basics.Threads.Schedule.{System}
use c_basics.Threads.Start.{Exit, exit_failure, exit_success, all_succeed}

-- Before its lock (or not created yet); at the test of its loop; between the read and the write of
-- `counter++`; ended.
pub data Thread : Type 0 where
  waiting : Thread
  looping : ℕ → Thread
  loaded : ℕ → ℕ → Thread
  ended : Thread

-- `counter`, and whether the mutex is held.
pub record Shared : Type 0 where
  pub counter : ℕ
  pub held : Bool

-- `my_thread_function`, one step: the thread after it and what it shares. `none`: it waits, or has
-- ended.
unfoldable pub thread_step : Thread → Shared → Option (Thread × Shared)
thread_step waiting s = if s.held then none else some (looping 0, record s { held = true })
thread_step (looping i) s =
    if ltb i 10 then some (loaded i s.counter, s) else some (ended, record s { held = false })
thread_step (loaded i v) s = some (looping (suc i), record s { counter = suc v })
thread_step ended s = none

-- The mutex is free and no thread has started.
abbrev pub initial : ℕ → System Thread Shared
initial n = record { threads = replicate n waiting; shared = record { counter = 0; held = false } }

-- `unixMutex`, with the answers of pthread_mutex_init, and of pthread_create and pthread_join for
-- each thread.
unfoldable pub unix_mutex : Bool → (ℕ → Bool) → (ℕ → Bool) → Exit
unfolding all_succeed
unix_mutex init create join =
    if init
    then (if all_succeed create 10 0
        then (if all_succeed join 10 0 then exit_success else exit_failure)
        else exit_failure)
    else exit_failure
