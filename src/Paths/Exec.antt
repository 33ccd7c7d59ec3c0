-- ===== src/Paths/Exec.antt =====
-- `exec` of Exec.c.
use c_basics.Prelude.{
  ℕ, ◌≤◌, ◌≡◌, Bool, Option, none, some, List, [], ◌∷◌, ◌++◌, arith, if◌then◌else◌, length,
}
use c_basics.Paths.Build.{snprintf, take-long}

-- "/bin/".
abbrev pub bin : List ℕ
bin = 47 ∷ 98 ∷ 105 ∷ 110 ∷ 47 ∷ []

-- exit(3) with a failure; or, after wait(2), what the child has become: a program with its
-- arguments, or none where execve(2) failed.
pub data Outcome : Type 0 where
  exit_failure : Outcome
  waited : Option (List ℕ × List (List ℕ)) → Outcome

-- `command_path`.
unfoldable pub command_path : List ℕ → List ℕ
unfolding snprintf
command_path command = snprintf 256 (bin ++ command)

-- The child: execve(2) is passed `&argv[2]`.
unfoldable pub run_child :
    (List ℕ → List (List ℕ) → Bool) → List ℕ → List (List ℕ) → Option (List ℕ × List (List ℕ))
run_child execve path args = if execve path args then some (path, args) else none

-- The arguments are the answers of access(2) and fork(2), whether execve(2) succeeds, and argv.
unfoldable pub exec :
    (List ℕ → Bool) → Bool → (List ℕ → List (List ℕ) → Bool) → List (List ℕ) → Outcome
unfolding command_path run_child
exec access fork execve [] = exit_failure
exec access fork execve (program ∷ []) = exit_failure
exec access fork execve (program ∷ command ∷ args) =
    if access (command_path command)
    then (if fork then waited (run_child execve (command_path command) args) else exit_failure)
    else exit_failure

-- A command of at most 250 bytes is not cut.
path-short : (command : List ℕ) → length command ≤ 250 → command_path command ≡ bin ++ command
unfolding command_path snprintf
path-short command fits = ground (arith, take-long 250 command fits)
