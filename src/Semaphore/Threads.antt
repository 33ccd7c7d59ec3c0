-- ===== src/Semaphore/Threads.antt =====
-- The threads of UnixSemaphores.c: a step is one access of the number or one call of the semaphore.
use c_basics.Prelude.{
  ℕ, suc, ◌-◌, ◌*◌, ◌/◌, Bool, Option, none, some, ltb, ◌==◌, if◌then◌else◌, replicate,
}
use c_basics.Threads.Schedule.{System}
use c_basics.Threads.Start.{Exit, exit_failure, exit_success, all_succeed}

-- In the order of `thread_routine`: before sem_wait, the read and the write of the shift to the
-- left, the test, the read and the write of the shift to the right, and sem_post; ended; or in
-- exit(3) with a failure.
pub data Thread : Type 0 where
  waiting : Thread
  entered : Thread
  read_left : ℕ → Thread
  shifted : Thread
  asleep : Thread
  read_right : ℕ → Thread
  leaving : Thread
  ended : Thread
  failing : Thread

-- The value of the semaphore, and `binary`.
pub record Shared : Type 0 where
  pub semaphore : ℕ
  pub binary : ℕ

-- One step. `none`: the thread waits, or has ended.
unfoldable pub thread_step : Thread → Shared → Option (Thread × Shared)
thread_step waiting s =
    if s.semaphore == 0 then none else some (entered, record s { semaphore = s.semaphore - 1 })
thread_step entered s = some (read_left s.binary, s)
thread_step (read_left v) s = some (shifted, record s { binary = v * 4 })
thread_step shifted s = some (if ltb 256 s.binary then failing else asleep, s)
thread_step asleep s = some (read_right s.binary, s)
thread_step (read_right v) s = some (leaving, record s { binary = v / 4 })
thread_step leaving s = some (ended, record s { semaphore = suc s.semaphore })
thread_step ended s = none
thread_step failing s = none

-- SEMAPHORE_INIT_VAL is 2 and `binary` begins as 7.
abbrev pub initial : ℕ → System Thread Shared
initial n = record { threads = replicate n waiting; shared = record { semaphore = 2; binary = 7 } }

-- `unixSemaphores`, with the answers of sem_init, and of pthread_create and pthread_join for its
-- fifteen threads.
unfoldable pub unix_semaphores : Bool → (ℕ → Bool) → (ℕ → Bool) → Exit
unfolding all_succeed
unix_semaphores init create join =
    if init
    then (if all_succeed create 15 0
        then (if all_succeed join 15 0 then exit_success else exit_failure)
        else exit_failure)
    else exit_failure
