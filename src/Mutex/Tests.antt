-- ===== src/Mutex/Tests.antt =====
-- Two threads of the mutex program, of which the second has the mutex; and a run of ten to its end.
use c_basics.Prelude.{ℕ, ◌≤◌, ◌<◌, ◌≡◌, refl, true, some, [], ◌∷◌, get_elem?}
use c_basics.Threads.Schedule.{System, Reach, created, stepped, steps}
use c_basics.Mutex.Threads.{
  Thread, waiting, looping, ended, Shared, thread_step, initial, unix_mutex,
}
use c_basics.Threads.Start.{all_succeed}
use c_basics.Mutex.Runs.{unix_mutex_ends, unix_mutex-counts}

abbrev inside_second : System Thread Shared
inside_second = record {
  threads = waiting ∷ looping 0 ∷ [];
  shared = record { counter = 0; held = true };
}

abbrev locked_once : Reach thread_step (initial 2) inside_second
unfolding thread_step
locked_once = stepped 1 {t = waiting} {t' = looping 0} created refl refl

unix_mutex_ends_example :
    (steps locked_once ≤ 44)
    × ((s : System Thread Shared) × Reach thread_step inside_second s
        × ((k : ℕ) → k < 2 → get_elem? s.threads k ≡ some ended))
unix_mutex_ends_example = unix_mutex_ends 2 locked_once

abbrev to_the_end :
    (s : System Thread Shared) × Reach thread_step (initial 10) s
    × ((k : ℕ) → k < 10 → get_elem? s.threads k ≡ some ended)
to_the_end = (unix_mutex_ends 10 created).1

unix_mutex-counts_example : to_the_end.0.shared.counter ≡ 100
unfolding unix_mutex all_succeed
unix_mutex-counts_example =
    unix_mutex-counts true (λ k. true) (λ k. true) to_the_end.0 to_the_end.1
      (λ k lt joined. to_the_end.2 k lt) refl
