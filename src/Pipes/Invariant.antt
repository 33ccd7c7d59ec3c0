-- ===== src/Pipes/Invariant.antt =====
-- What holds of the two processes of Pipes.c and their pipe after every step.
use c_basics.Prelude.{
  ℕ, ◌+◌, ◌*◌, ◌≡◌, refl, some, List, [], ◌∷◌, ◌++◌, arith, length, subst, some-injective,
}
use c_basics.Pipes.Processes.{
  Parent, beginning, writing, finishing, waiting, exited, killed, Child, arriving, reading,
  printing, breaking, leaving, ended, Pipe, forked,
}

-- What the parent has written, and how many ends it has open.
unfoldable pub sent : List ℕ → Parent → List ℕ
sent message beginning = []
sent message writing = []
sent message _ = message

unfoldable pub parent_readers : Parent → ℕ
parent_readers beginning = 1
parent_readers _ = 0

unfoldable pub parent_writers : Parent → ℕ
parent_writers beginning = 1
parent_writers writing = 1
parent_writers finishing = 1
parent_writers _ = 0

unfoldable pub parent_steps : Parent → ℕ
parent_steps beginning = 0
parent_steps writing = 1
parent_steps finishing = 2
parent_steps waiting = 3
parent_steps exited = 4
parent_steps killed = 2

-- The byte in the child's buffer, the line break, and the ends the child has open.
unfoldable pub held : Child → List ℕ
held (printing b) = b ∷ []
held _ = []

unfoldable pub break : Child → List ℕ
break leaving = 10 ∷ []
break ended = 10 ∷ []
break _ = []

unfoldable pub child_readers : Child → ℕ
child_readers ended = 0
child_readers _ = 1

unfoldable pub child_writers : Child → ℕ
child_writers arriving = 1
child_writers _ = 0

-- The steps besides two for each byte printed.
unfoldable pub child_steps : Child → ℕ
child_steps arriving = 0
child_steps reading = 1
child_steps (printing b) = 2
child_steps breaking = 2
child_steps leaving = 1
child_steps ended = 2

-- 1 once read(2) has answered the end of the pipe.
unfoldable pub at_end : Child → ℕ
at_end breaking = 1
at_end leaving = 1
at_end ended = 1
at_end _ = 0

unfoldable pub exits : Parent → ℕ
exits exited = 1
exits _ = 0

unfoldable pub kills : Parent → ℕ
kills killed = 1
kills _ = 0

-- The bytes of the message are printed, in the buffer, or in the pipe, in this order; the ends that
-- are open are those that the two have; the child is past its loop only when all has been read and
-- no writer is left; the parent ends after the child, and not by a signal.
pub record IsPiping (message : List ℕ) (n : ℕ) (parent : Parent) (child : Child) (p : Pipe)
    : Type 0 where
  pub bytes : p.printed ++ (held child ++ p.content) ≡ sent message parent ++ break child
  pub readers : p.readers ≡ parent_readers parent + child_readers child
  pub writers : p.writers ≡ parent_writers parent + child_writers child
  pub count : n ≡ parent_steps parent + (child_steps child + 2 * length p.printed)
  pub emptied : at_end child * (length p.content + parent_writers parent) ≡ 0
  pub reaping : exits parent * child_readers child ≡ 0
  pub unkilled : kills parent ≡ 0

pub begun-IsPiping : (message : List ℕ) → IsPiping message 0 beginning arriving forked.shared
unfolding sent parent_readers parent_writers parent_steps held break child_readers child_writers
    child_steps at_end exits kills
begun-IsPiping message = record {
  bytes = refl;
  readers = refl;
  writers = refl;
  count = refl;
  emptied = refl;
  reaping = refl;
  unkilled = refl;
}

-- Before the end the child has its read end open and no line break is printed.
pub not_at_end : (c : Child) (k : ℕ) → at_end c * (k + 1) ≡ 0 → at_end c ≡ 0
unfolding at_end
not_at_end arriving k h = refl
not_at_end reading k h = refl
not_at_end (printing b) k h = refl
not_at_end breaking k h = absurd (omega (arith, h))
not_at_end leaving k h = absurd (omega (arith, h))
not_at_end ended k h = absurd (omega (arith, h))

pub before_end : (c : Child) → at_end c ≡ 0 → (break c ≡ []) × (child_readers c ≡ 1)
unfolding at_end break child_readers
before_end arriving h = (refl, refl)
before_end reading h = (refl, refl)
before_end (printing b) h = (refl, refl)
before_end breaking h = absurd (omega (arith, h))
before_end leaving h = absurd (omega (arith, h))
before_end ended h = absurd (omega (arith, h))

pub to_parent :
    (message : List ℕ) (n : ℕ) (c : Child) (r r' : Parent × Pipe)
    → some r ≡ some r'
    → IsPiping message n r.0 c r.1
    → IsPiping message n r'.0 c r'.1
to_parent message n c r r' e h = subst (λ r. IsPiping message n r.0 c r.1) (some-injective _ _ e) h

pub to_child :
    (message : List ℕ) (n : ℕ) (before : Parent) (r r' : Child × Pipe)
    → some r ≡ some r'
    → IsPiping message n before r.0 r.1
    → IsPiping message n before r'.0 r'.1
to_child message n before r r' e h =
    subst (λ r. IsPiping message n before r.0 r.1) (some-injective _ _ e) h
