-- ===== src/Semaphore/Tests.antt =====
-- Two threads of UnixSemaphores.c, the first of which has read the number; and a race of fifteen.
use c_basics.Prelude.{ℕ, ◌≤◌, ◌<◌, ◌≡◌, ◌≢◌, refl, some, [], ◌∷◌, arith, get_elem?}
use c_basics.Threads.Schedule.{System, Reach}
use c_basics.Threads.Totals.{total}
use c_basics.Semaphore.Threads.{
  Thread, waiting, entered, read_left, failing, Shared, thread_step, initial,
}
use c_basics.Semaphore.Limit.{inside}
use c_basics.Semaphore.Calm.{CalmReach, calm_start, calm_step, shifting, up, level, semaphore_holds}
use c_basics.Semaphore.Race.{semaphore_races}

abbrev first_inside : System Thread Shared
first_inside = record {
  threads = read_left 7 ∷ waiting ∷ [];
  shared = record { semaphore = 1; binary = 7 };
}

first_inside-CalmReach : CalmReach 2 first_inside
unfolding thread_step shifting
first_inside-CalmReach =
    calm_step 0 {t = entered} {t' = read_left 7}
      (calm_step 0 {t = waiting} {t' = entered} calm_start refl refl (omega arith)) refl refl
      (omega arith)

semaphore_holds_example :
    (total inside first_inside.threads ≤ 2)
    × (total up first_inside.threads ≤ 2)
    × (first_inside.shared.binary ≡ level (total up first_inside.threads))
    × ((k : ℕ) → get_elem? first_inside.threads k ≢ some failing)
semaphore_holds_example = semaphore_holds 2 first_inside-CalmReach

semaphore_races_example :
    (s : System Thread Shared) × Reach thread_step (initial 15) s
    × (256 < s.shared.binary)
    × (get_elem? s.threads 3 ≡ some failing)
semaphore_races_example = semaphore_races 11
