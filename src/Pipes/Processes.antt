-- ===== src/Pipes/Processes.antt =====
-- The two processes of `pipes` of Pipes.c: a step is one system call.
use c_basics.Prelude.{ℕ, ◌-◌, Bool, Option, none, some, List, [], ◌∷◌, ◌++◌, ◌==◌, if◌then◌else◌}
use c_basics.Threads.Pair.{Pair}

-- In the parent: before it closes the read end, before its write(2), before it closes the write
-- end, in wait(2); ended; or killed by SIGPIPE.
pub data Parent : Type 0 where
  beginning writing finishing waiting exited killed : Parent

-- In the child: before it closes the write end, before a read(2), with a byte in `buf`, after the
-- loop, before it closes the read end; ended.
pub data Child : Type 0 where
  arriving : Child
  reading : Child
  printing : ℕ → Child
  breaking : Child
  leaving : Child
  ended : Child

-- The bytes in the pipe, how many descriptors of its two ends are open, and what the child has
-- printed.
pub record Pipe : Type 0 where
  pub content : List ℕ
  pub readers : ℕ
  pub writers : ℕ
  pub printed : List ℕ

-- `none`: read(2) waits for a byte or for the last writer to close, or the child has ended.
unfoldable pub child_step : Child → Pipe → Option (Child × Pipe)
child_step arriving p = some (reading, record p { writers = p.writers - 1 })
child_step reading p = elim p.content [
  | b ∷ bs ↦ some (printing b, record p { content = bs })
  | [] ↦ if p.writers == 0 then some (breaking, p) else none
]
child_step (printing b) p = some (reading, record p { printed = p.printed ++ (b ∷ []) })
child_step breaking p = some (leaving, record p { printed = p.printed ++ (10 ∷ []) })
child_step leaving p = some (ended, record p { readers = p.readers - 1 })
child_step ended p = none

-- What wait(2) needs of the child.
unfoldable pub reaped : Child → Option Parent
reaped ended = some exited
reaped _ = none

-- `none`: the parent waits for its child, or has ended.
unfoldable pub parent_step : List ℕ → Child → Parent → Pipe → Option (Parent × Pipe)
unfolding reaped
parent_step message c beginning p = some (writing, record p { readers = p.readers - 1 })
parent_step message c writing p =
    if p.readers == 0
    then some (killed, record p { writers = p.writers - 1 })
    else some (finishing, record p { content = p.content ++ message })
parent_step message c finishing p = some (waiting, record p { writers = p.writers - 1 })
parent_step message c waiting p = elim (reaped c) [ none ↦ none | some after ↦ some (after, p) ]
parent_step message c exited p = none
parent_step message c killed p = none

-- After fork(2) each end is open in both processes.
abbrev pub forked : Pair Parent Child Pipe
forked = record {
  parent = beginning;
  child = arriving;
  shared = record { content = []; readers = 2; writers = 2; printed = [] };
}

pub data Start : Type 0 where
  exit_failure : Start
  running : Pair Parent Child Pipe → Start

-- `pipes`, with whether pipe(2) and fork(2) succeed.
unfoldable pub pipes : Bool → Bool → Start
pipes pipe fork = if pipe then (if fork then running forked else exit_failure) else exit_failure
