-- ===== src/Children/Tests.antt =====
-- A process with three children, two of which have ended before its SIGCHLD is handled.
use c_basics.Prelude.{
  ℕ, ◌≡◌, ◌≢◌, refl, ap, Bool, true, false, inl, inr, Bool-cases, Option, none, some, List, [], ◌∷◌,
  ◌++◌, arith, if◌then◌else◌,
}
use c_basics.Children.Handler.{Child, Process, WaitPid, signal_child_handler, running, zombies}
use c_basics.Children.Reaped.{IsWaitPid, signal_child_handler-reaps}

-- The first zombie is taken.
abbrev first : List Child → Option ℕ × List Child
first [] = (none, [])
first (c ∷ cs) = let (pid, rest) = first cs in if c.ended then (some c.pid, cs) else (pid, c ∷ rest)

-- ECHILD and success leave different numbers in errno.
abbrev first_zombie : WaitPid
first_zombie p = let (pid, rest) = first p.children in (pid, record { children = rest; errno = 10 })

first_takes :
    (cs : List Child)
    → zombies cs ≢ 0
    → (before : List Child) × (pid : ℕ) × (after : List Child) × (cs
        ≡ before ++ (record { pid = pid; ended = true } ∷ after))
      × ((first cs).0 ≡ some pid)
      × ((first cs).1 ≡ before ++ after)
unfolding zombies
first_takes [] h = absurd (h refl)
first_takes (c ∷ cs) h = elim (Bool-cases c.ended) [
  | inl over ↦ (
    [],
    c.pid,
    cs,
    ap (λ b. record { pid = c.pid; ended = b } ∷ cs) over,
    ground (arith, over),
    ground (arith, over),
  )
  | inr runs ↦
      let some_left : zombies cs ≢ 0 = λ e. h (ground (arith, runs, e)) in
      let (before, pid, after, e, answer, left) = first_takes cs some_left in
      (
        c ∷ before,
        pid,
        after,
        ap (λ xs. c ∷ xs) e,
        ground (arith, runs, answer),
        ground (arith, runs, left),
      )
]

first_leaves : (cs : List Child) → zombies cs ≡ 0 → ((first cs).0 ≡ none) × ((first cs).1 ≡ cs)
unfolding zombies
first_leaves [] h = (refl, refl)
first_leaves (c ∷ cs) h = ground (arith, first_leaves cs)

first_zombie-IsWaitPid : IsWaitPid first_zombie
first_zombie-IsWaitPid = record {
  takes = λ p h. first_takes p.children h;
  leaves = λ p h. first_leaves p.children h;
}

abbrev child : ℕ → Bool → Child
child n e = record { pid = n; ended = e }

abbrev family : Process
family = record { children = child 7 true ∷ child 8 false ∷ child 9 true ∷ []; errno = 4 }

signal_child_handler-reaps_example :
    signal_child_handler first_zombie family
    ≡ some (record { children = running family.children; errno = 4 })
signal_child_handler-reaps_example =
    signal_child_handler-reaps first_zombie family first_zombie-IsWaitPid

one_left : running family.children ≡ child 8 false ∷ []
unfolding running
one_left = refl
