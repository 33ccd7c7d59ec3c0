-- ===== src/Semaphore/Limit.antt =====
-- What the semaphore of UnixSemaphores.c keeps, and what it does not.
use c_basics.Prelude.{ℕ, ◌+◌, ◌≡◌, some, arith}
use c_basics.Threads.Schedule.{System, Reach, created, stepped}
use c_basics.Threads.Totals.{total, total-set, total-replicate}
use c_basics.Semaphore.Threads.{
  Thread, waiting, entered, read_left, shifted, asleep, read_right, leaving, ended, failing, Shared,
  thread_step, initial,
}

-- Whether a thread is between sem_wait and sem_post.
unfoldable pub inside : Thread → ℕ
inside waiting = 0
inside ended = 0
inside _ = 1

step-inside :
    (t t' : Thread) (m m' : Shared)
    → thread_step t m ≡ some (t', m')
    → m'.semaphore + inside t' ≡ m.semaphore + inside t
unfolding thread_step inside
step-inside waiting t' m m' e = ground (arith, e)
step-inside entered t' m m' e = ground (arith, e)
step-inside (read_left v) t' m m' e = ground (arith, e)
step-inside shifted t' m m' e = ground (arith, e)
step-inside asleep t' m m' e = ground (arith, e)
step-inside (read_right v) t' m m' e = ground (arith, e)
step-inside leaving t' m m' e = ground (arith, e)
step-inside ended t' m m' e = cc
step-inside failing t' m m' e = cc

-- Whatever the order of the steps, the value of the semaphore and the threads between sem_wait and
-- sem_post add up to two.
pub semaphore_adds :
    (n : ℕ) {s : System Thread Shared}
    → Reach thread_step (initial n) s
    → s.shared.semaphore + total inside s.threads ≡ 2
unfolding inside
semaphore_adds n created = omega (arith, total-replicate inside n waiting)
semaphore_adds n (stepped {s = s} k {t} {t'} {m} r g e) =
    omega (
      arith,
      semaphore_adds n r,
      step-inside t t' s.shared m e,
      total-set inside s.threads k t t' g,
    )
