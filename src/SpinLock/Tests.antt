-- ===== src/SpinLock/Tests.antt =====
-- Two threads of UnixSpinLocks.c, the first of which has the lock and has read the counter.
use c_basics.Prelude.{ℕ, ◌≤◌, ◌≢◌, refl, true, some, [], ◌∷◌, get_elem?}
use c_basics.Threads.Schedule.{System, Reach, created, stepped}
use c_basics.Threads.Totals.{total}
use c_basics.SpinLock.Threads.{
  Thread, arriving, waiting, entered, read_up, failing, Shared, thread_step, initial,
}
use c_basics.SpinLock.Exclusion.{inside, spin_lock_holds}

abbrev first_inside : System Thread Shared
first_inside = record {
  threads = read_up 0 ∷ arriving ∷ [];
  shared = record { cannot_go_over_2 = 0; held = true };
}

first_inside-Reach : Reach thread_step (initial 2) first_inside
unfolding thread_step
first_inside-Reach =
    stepped 0 {t = entered} {t' = read_up 0}
      (stepped 0 {t = waiting} {t' = entered}
        (stepped 0 {t = arriving} {t' = waiting} created refl refl) refl refl)
      refl refl

spin_lock_holds_example :
    (0 ≤ 1)
    × (total inside first_inside.threads ≤ 1)
    × ((k : ℕ) → get_elem? first_inside.threads k ≢ some failing)
spin_lock_holds_example = spin_lock_holds 2 first_inside-Reach
