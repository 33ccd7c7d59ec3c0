-- ===== src/Threads/Posix.antt =====
-- PosixThreads.c: five threads, each of which prints its number and ends.
use c_basics.Prelude.{ℕ, ◌<◌, ◌≡◌, Bool, true, arith, if◌then◌else◌}
use c_basics.Threads.Start.{Exit, exit_failure, exit_success, all_succeed, all_succeed-each}

-- `posixThreads`, with the answers of pthread_create and pthread_join for its five threads.
unfoldable pub posix_threads : (ℕ → Bool) → (ℕ → Bool) → Exit
unfolding all_succeed
posix_threads create join =
    if all_succeed create 5 0
    then (if all_succeed join 5 0 then exit_success else exit_failure)
    else exit_failure

-- It succeeds only if each thread was created and joined.
posix_threads-joined :
    (create join : ℕ → Bool) (k : ℕ)
    → posix_threads create join ≡ exit_success
    → k < 5
    → (create k ≡ true) × (join k ≡ true)
unfolding posix_threads
posix_threads-joined create join k e lt = (
  all_succeed-each create 5 0 k (ground (arith, e)) (omega arith) (omega arith),
  all_succeed-each join 5 0 k (ground (arith, e)) (omega arith) (omega arith),
)
