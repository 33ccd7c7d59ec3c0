-- ===== src/Semaphore/Race.antt =====
-- A run of UnixSemaphores.c that loses a shift.
use c_basics.Prelude.{ℕ, suc, ◌<◌, ◌≡◌, refl, some, List, [], ◌∷◌, arith, get_elem?}
use c_basics.Threads.Schedule.{System, Reach, created, play, play-Reach}
use c_basics.Semaphore.Threads.{Thread, failing, Shared, thread_step, initial}

-- The first two threads shift to the left, then read the number both before either shifts it back;
-- two more shift what they leave.
abbrev lost_shift : List ℕ
lost_shift =
    0 ∷ 0 ∷ 0 ∷ 0 ∷ 1 ∷ 1 ∷ 1 ∷ 1 ∷ 0 ∷ 1 ∷ 0 ∷ 1 ∷ 0 ∷ 1 ∷ 2 ∷ 2 ∷ 2 ∷ 2 ∷ 3 ∷ 3 ∷ 3 ∷ 3 ∷ []

-- With four threads or more, a run of `thread_routine` in which the semaphore works as it should,
-- and two threads are let in at most, takes the number above 256, and a thread fails its test.
pub semaphore_races :
    (n : ℕ)
    → (s : System Thread Shared) × Reach thread_step (initial (suc (suc (suc (suc n))))) s
      × (256 < s.shared.binary)
      × (get_elem? s.threads 3 ≡ some failing)
unfolding play thread_step
semaphore_races n =
    let first = initial (suc (suc (suc (suc n)))) in
    (play thread_step first lost_shift, play-Reach first lost_shift created, omega arith, refl)
