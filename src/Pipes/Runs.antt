-- ===== src/Pipes/Runs.antt =====
-- Every run of the two processes of Pipes.c comes to its end, with the whole message printed.
use c_basics.Prelude.{
  ℕ, zero, suc, ◌+◌, ◌*◌, ◌≤◌, ◌<◌, ◌≡◌, ◌≢◌, ◌⊎◌, refl, sym, ap, ◌∙◌, none, List, [], ◌∷◌, ◌++◌,
  arith, length, append-nil, length-append, subst,
}
use c_basics.Pipes.Processes.{
  Parent, beginning, writing, finishing, waiting, exited, killed, Child, arriving, reading,
  printing, breaking, leaving, ended, Pipe, child_step, reaped, parent_step, forked,
}
use c_basics.Pipes.Invariant.{
  sent, parent_readers, parent_writers, parent_steps, held, break, child_readers, child_writers,
  child_steps, at_end, exits, kills, IsPiping, begun-IsPiping,
}
use c_basics.Pipes.Steps.{parent_step-IsPiping, child_step-IsPiping}
use c_basics.Threads.Pair.{Pair, Runs, CanStep, final-CanStep, Runs-invariant}

le-sent : (message : List ℕ) (p : Parent) → length (sent message p) ≤ length message
unfolding sent
le-sent message beginning = omega arith
le-sent message writing = omega arith
le-sent message finishing = omega arith
le-sent message waiting = omega arith
le-sent message exited = omega arith
le-sent message killed = omega arith

le-parent_steps : (p : Parent) → parent_steps p ≤ 4
unfolding parent_steps
le-parent_steps beginning = omega arith
le-parent_steps writing = omega arith
le-parent_steps finishing = omega arith
le-parent_steps waiting = omega arith
le-parent_steps exited = omega arith
le-parent_steps killed = omega arith

le-child_steps : (c : Child) → child_steps c + 2 * length (break c) ≤ 4 + 2 * length (held c)
unfolding child_steps break held
le-child_steps arriving = omega arith
le-child_steps reading = omega arith
le-child_steps (printing b) = omega arith
le-child_steps breaking = omega arith
le-child_steps leaving = omega arith
le-child_steps ended = omega arith

le-count :
    (message : List ℕ) (n : ℕ) (before : Parent) (c : Child) (p : Pipe)
    → IsPiping message n before c p
    → n ≤ 2 * length message + 8
le-count message n before c p h = omega (
  arith,
  h.count,
  ap length h.bytes,
  length-append p.printed (held c ++ p.content),
  length-append (held c) p.content,
  length-append (sent message before) (break c),
  le-sent message before,
  le-parent_steps before,
  le-child_steps c,
)

-- The end: both have ended, nothing is left in the pipe, and the message is printed as a line.
unfoldable pub finished : List ℕ → Pair Parent Child Pipe
finished message = record {
  parent = exited;
  child = ended;
  shared = record { content = []; readers = 0; writers = 0; printed = message ++ (10 ∷ []) };
}

finished-pipe :
    (message content printed : List ℕ) (readers writers : ℕ)
    → length content ≡ 0
    → readers ≡ 0
    → writers ≡ 0
    → printed ++ content ≡ message ++ (10 ∷ [])
    → (record {
      parent = exited;
      child = ended;
      shared = record {
        content = content;
        readers = readers;
        writers = writers;
        printed = printed;
      };
    })
      ≡ finished message
unfolding finished
finished-pipe message [] printed readers writers c r w h = cc (r, w, sym (append-nil printed) ∙ h)
finished-pipe message (b ∷ bs) printed readers writers c r w h = absurd (omega (arith, c))

-- A read that waits has a writer to wait for.
awaited :
    (content : List ℕ) (readers writers : ℕ) (printed : List ℕ)
    → child_step reading
        (record { content = content; readers = readers; writers = writers; printed = printed })
      ≡ none
    → 0 < writers
unfolding child_step
awaited [] readers zero printed e = ground (arith, e)
awaited [] readers (suc writers) printed e = omega arith
awaited (b ∷ bs) readers writers printed e = ground (arith, e)

-- A child that cannot go on once the parent has closed its write end has ended.
child_ends :
    (c : Child) (p : Pipe) → p.writers ≡ child_writers c → child_step c p ≡ none → ended ≡ c
unfolding child_step child_writers
child_ends arriving p h e = ground (arith, e)
child_ends reading p h e =
    absurd (omega (arith, h, awaited p.content p.readers p.writers p.printed e))
child_ends (printing b) p h e = ground (arith, e)
child_ends breaking p h e = ground (arith, e)
child_ends leaving p h e = ground (arith, e)
child_ends ended p h e = refl

exited-finished :
    (message : List ℕ) (n : ℕ) (p : Pipe)
    → IsPiping message n exited ended p
    → (record { parent = exited; child = ended; shared = p }) ≡ finished message
unfolding sent parent_readers parent_writers held break child_readers child_writers at_end
exited-finished message n p h =
    finished-pipe message p.content p.printed p.readers p.writers (omega (arith, h.emptied))
      (omega (arith, h.readers)) (omega (arith, h.writers)) h.bytes

reaps : (message : List ℕ) (p : Pipe) → parent_step message ended waiting p ≢ none
unfolding parent_step reaped
reaps message p e = ground (arith, e)

stuck :
    (message : List ℕ) (n : ℕ) (before : Parent) (c : Child) (p : Pipe)
    → IsPiping message n before c p
    → child_step c p ≡ none
    → parent_step message c before p ≡ none
    → (record { parent = before; child = c; shared = p }) ≡ finished message
unfolding parent_step reaped parent_writers exits kills
stuck message n beginning c p h e f = ground (arith, f)
stuck message n writing c p h e f = ground (arith, f)
stuck message n finishing c p h e f = ground (arith, f)
stuck message n waiting c p h e f =
    let a = child_ends c p (omega (arith, h.writers)) e in
    absurd (reaps message p (subst (λ c. parent_step message c waiting p ≡ none) (sym a) f))
stuck message n exited c p h e f =
    subst
      (λ c.
        IsPiping message n exited c p
        → (record { parent = exited; child = c; shared = p }) ≡ finished message)
      (child_ends c p (omega (arith, h.writers)) e) (exited-finished message n p) h
stuck message n killed c p h e f = absurd (omega (arith, h.unkilled))

-- Whatever the order of their steps, the two processes make at most two for each byte of the
-- message and eight more, and as long as one can go on they have not ended; when none can, both
-- have ended, the pipe is empty with all its ends closed, and the child has printed the message and
-- a line break.
pub pipes_prints :
    (message : List ℕ) (n : ℕ) (s : Pair Parent Child Pipe)
    → Runs (parent_step message) child_step forked n s
    → (n ≤ 2 * length message + 8)
      × ((s ≡ finished message) ⊎ CanStep (parent_step message) child_step s)
pipes_prints message n s r =
    let h =
      Runs-invariant (parent_step message) child_step (IsPiping message) forked
        (begun-IsPiping message) (λ n p c m r h e. parent_step-IsPiping message n p c m r h e)
        (λ n p c m r h e. child_step-IsPiping message n p c m r h e) r in
    (
      le-count message n s.parent s.child s.shared h,
      final-CanStep (parent_step message) child_step s (finished message)
          (stuck message n s.parent s.child s.shared h),
    )
