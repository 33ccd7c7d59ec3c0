-- ===== src/Children/Handler.antt =====
-- `signalChild_Handler` of UnixStreamSocketServer.c and `signal_child_handler` of
-- UnixRawNetworkLayerSocketServer.c.
use c_basics.Prelude.{
  ℕ, zero, suc, ◌+◌, Bool, Option, none, some, List, [], ◌∷◌, length, if◌then◌else◌,
}

-- A child of the process: until it is waited for, one that has ended is a zombie.
pub record Child : Type 0 where
  pub pid : ℕ
  pub ended : Bool

-- The children of the process, and its `errno`.
pub record Process : Type 0 where
  pub children : List Child
  pub errno : ℕ

-- `waitpid(-1, NULL, WNOHANG)`: a process id, or none for 0 and -1, and what the call leaves.
abbrev pub WaitPid : Type 0
WaitPid = Process → Option ℕ × Process

-- `while (waitpid(-1, NULL, WNOHANG) > 0);`; none is for fuel that has run out.
unfoldable pub reap : WaitPid → ℕ → Process → Option Process
reap waitpid zero p = none
reap waitpid (suc fuel) p =
    let (pid, p') = waitpid p in elim pid [ none ↦ some p' | some n ↦ reap waitpid fuel p' ]

abbrev pub with_errno : ℕ → Option Process → Option Process
with_errno saved none = none
with_errno saved (some p) = some (record p { errno = saved })

-- The fuel is one more than there are children.
unfoldable pub signal_child_handler : WaitPid → Process → Option Process
unfolding reap
signal_child_handler waitpid p =
    let saved_error = p.errno in with_errno saved_error (reap waitpid (suc (length p.children)) p)

-- The children that still run, and how many have ended.
unfoldable pub running : List Child → List Child
running [] = []
running (c ∷ cs) = if c.ended then running cs else c ∷ running cs

unfoldable pub zombies : List Child → ℕ
zombies [] = 0
zombies (c ∷ cs) = (if c.ended then 1 else 0) + zombies cs
