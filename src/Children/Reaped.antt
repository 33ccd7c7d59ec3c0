-- ===== src/Children/Reaped.antt =====
-- One run of the handler of SIGCHLD takes every child away that has ended.
use c_basics.Prelude.{
  ℕ, zero, suc, ◌≡◌, ◌≤◌, ◌<◌, ◌≢◌, refl, sym, ap, ◌∙◌, true, none, some, List, [], ◌∷◌, ◌++◌,
  arith, length,
}
use c_basics.Children.Handler.{
  Child, Process, WaitPid, reap, with_errno, signal_child_handler, running, zombies,
}

-- What waitpid(2) with -1 and WNOHANG does, by its manual: if some child has ended it answers with
-- the process id of one and takes it away; if none has, it answers 0 or -1 and no child is lost. It
-- may set errno.
pub record IsWaitPid (waitpid : WaitPid) : Type 0 where
  pub takes :
      (p : Process)
      → zombies p.children ≢ 0
      → (before : List Child) × (pid : ℕ) × (after : List Child) × (p.children
          ≡ before ++ (record { pid = pid; ended = true } ∷ after))
        × ((waitpid p).0 ≡ some pid)
        × ((waitpid p).1.children ≡ before ++ after)
  pub leaves :
      (p : Process)
      → zombies p.children ≡ 0
      → ((waitpid p).0 ≡ none) × ((waitpid p).1.children ≡ p.children)

taken_away :
    (before after : List Child) (pid : ℕ)
    → let cs = before ++ (record { pid = pid; ended = true } ∷ after) in
      (running cs ≡ running (before ++ after)) × (zombies cs ≡ suc (zombies (before ++ after)))
unfolding running zombies
taken_away [] after pid = (refl, omega arith)
taken_away (c ∷ before) after pid =
    let (same, less) = taken_away before after pid in (ground (arith, same), omega (arith, less))

running_all : (cs : List Child) → zombies cs ≡ 0 → running cs ≡ cs
unfolding running zombies
running_all [] h = refl
running_all (c ∷ cs) h = ground (arith, running_all cs)

zombies-le-length : (cs : List Child) → zombies cs ≤ length cs
unfolding zombies
zombies-le-length [] = omega arith
zombies-le-length (c ∷ cs) = ground (arith, zombies-le-length cs)

reap-none :
    (waitpid : WaitPid) (fuel : ℕ) (p : Process)
    → (waitpid p).0 ≡ none
    → reap waitpid (suc fuel) p ≡ some (waitpid p).1
unfolding reap
reap-none waitpid fuel p e = rw (e, reap) refl

reap-some :
    (waitpid : WaitPid) (fuel : ℕ) (p : Process) (n : ℕ)
    → (waitpid p).0 ≡ some n
    → reap waitpid (suc fuel) p ≡ reap waitpid fuel (waitpid p).1
unfolding reap
reap-some waitpid fuel p n e = rw (e, reap) refl

-- The loop ends within one round more than there are zombies.
reap_lem :
    (waitpid : WaitPid)
    → IsWaitPid waitpid
    → (fuel : ℕ) (p : Process) (n : ℕ) → zombies p.children ≡ n
    → n < fuel
    → (p' : Process) × (reap waitpid fuel p ≡ some p') × (p'.children ≡ running p.children)
reap_lem waitpid w zero p n h enough = absurd (omega arith)
reap_lem waitpid w (suc fuel) p zero h enough =
    let (ends, kept) = w.leaves p h in
    ((waitpid p).1, reap-none waitpid fuel p ends, kept ∙ sym (running_all p.children h))
reap_lem waitpid w (suc fuel) p (suc n) h enough =
    let (before, pid, after, children, answer, left) = w.takes p (omega (arith, h)) in
    let (same, fewer) = taken_away before after pid in
    let counted : zombies (waitpid p).1.children ≡ n =
      omega (arith, ap zombies left, ap zombies children, fewer, h) in
    let (p', reaped, ran) =
      reap_lem waitpid w fuel (waitpid p).1 n counted (omega (arith, enough)) in
    (
      p',
      reap-some waitpid fuel p pid answer ∙ reaped,
      ran ∙ ap running left ∙ sym same ∙ sym (ap running children),
    )

-- With a waitpid(2) that does what its manual says, the handler ends, within one round more than
-- the process has children; afterwards the children are just those that had not ended, in the same
-- order, however many ended before one SIGCHLD, and errno is what it was before.
pub signal_child_handler-reaps :
    (waitpid : WaitPid) (p : Process)
    → IsWaitPid waitpid
    → signal_child_handler waitpid p
      ≡ some (record { children = running p.children; errno = p.errno })
unfolding signal_child_handler
signal_child_handler-reaps waitpid p w =
    let (p', reaped, ran) =
      reap_lem waitpid w (suc (length p.children)) p (zombies p.children) refl
        (omega (arith, zombies-le-length p.children)) in
    ap (with_errno p.errno) reaped ∙ ap (λ cs. some (record { children = cs; errno = p.errno })) ran
