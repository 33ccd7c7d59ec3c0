-- ===== src/RecordLock/Kept.antt =====
-- The lock of UnixRecordLocking.c keeps its child from writing, not from reading, and is not
-- released.
use c_basics.Prelude.{
  ℕ, zero, suc, ◌+◌, ◌-◌, ◌≤◌, ◌<◌, ◌≡◌, refl, ap, ◌∙◌, Bool, true, false, none, some, List, [],
  arith, length,
}
use c_basics.SelectServer.Memory.{NulFree, c_string-NulFree}
use c_basics.RecordLock.Processes.{
  Table, set_lock, Kernel, IsKernel, parent_pid, child_pid, record_size, Child, child_failure,
  child_faulted, lock_end, try_write_lock, child, waited, unlock, record_locking,
}

-- The parent has a read lock on the last sixteen bytes of a file of `size` bytes.
abbrev pub IsLocked : ℕ → Table → Type 0
IsLocked size t = (b : ℕ) → size ≤ b + record_size → b < size → t parent_pid b ≡ some false

lock_end-IsLocked :
    (k : Kernel) (size : ℕ) (t locked : Table)
    → IsKernel k
    → lock_end k parent_pid false size t ≡ some locked
    → IsLocked size locked
unfolding lock_end
lock_end-IsLocked k size t locked h e b low high =
    let given : k.fcntl parent_pid (set_lock false (size - record_size) record_size) t
        ≡ some locked =
      ground (arith, e) in
    h.gives parent_pid (size - record_size) record_size b false t locked given (omega (arith, low))
      (omega (arith, low, high))

lock_end-none :
    (k : Kernel) (size : ℕ) (t : Table)
    → IsKernel k
    → record_size ≤ size
    → IsLocked size t
    → lock_end k child_pid true size t ≡ none
unfolding lock_end
lock_end-none k size t h long locked =
    let refused =
      h.refuses (size - record_size) record_size (size - 1) false t (omega (arith, long))
        (omega (arith, long)) (locked (size - 1) (omega (arith, long)) (omega (arith, long))) in
    ground (arith, refused)

close-IsLocked :
    (k : Kernel) (size : ℕ) (t : Table)
    → IsKernel k
    → IsLocked size t
    → IsLocked size (k.close child_pid t)
close-IsLocked k size t h locked b low high =
    h.spares child_pid parent_pid b t (λ e. omega (arith, e)) ∙ locked b low high

unlock_lem : (k : Kernel) (c : Child) (t : Table) → IsKernel k → unlock k c t ≡ waited c true t
unfolding unlock
unlock_lem k c t h = rw (h.flags parent_pid t, unlock) refl

refused_lock :
    (k : Kernel) (size : ℕ) (text : List ℕ) (t : Table)
    → lock_end k child_pid true size t ≡ none
    → try_write_lock k size text t ≡ (child_failure text, t)
unfolding try_write_lock
refused_lock k zero text t e = refl
refused_lock k (suc size) text t e = rw (e, try_write_lock) refl

child_lem :
    (k : Kernel) (file : List ℕ) (t : Table)
    → IsKernel k
    → NulFree file
    → record_size ≤ length file
    → length file < 1024
    → IsLocked (length file) t
    → child k true file t ≡ (child_failure file, k.close child_pid t)
unfolding child
child_lem k file t h free long short locked =
    let refused = refused_lock k (length file) file (k.close child_pid t) (
      lock_end-none k (length file) (k.close child_pid t) h long
        (close-IsLocked k (length file) t h locked)) in
    ground (arith, c_string-NulFree file [] free, refused, short)

forked :
    (k : Kernel) (reopens : Bool) (file : List ℕ) (t locked : Table)
    → lock_end k parent_pid false (length file) t ≡ some locked
    → record_locking k true true reopens file t
      ≡ unlock k (child k reopens file locked).0 (k.close child_pid (child k reopens file locked).1)
unfolding record_locking
forked k reopens file t locked e = rw (e, record_locking) refl

-- Where the parent gets its lock on the last sixteen bytes, the child prints the whole file, is
-- refused its write lock there and exits with a failure; then the parent prints that the file is
-- unlocked, with its lock still in the table. Where the child cannot open the file it writes before
-- its buffer, and the parent goes on in the same way. Assumed: a text without NUL of 16 to 1023
-- bytes.
pub record_locking-keeps :
    (k : Kernel) (file : List ℕ) (t locked : Table)
    → IsKernel k
    → NulFree file
    → record_size ≤ length file
    → length file < 1024
    → lock_end k parent_pid false (length file) t ≡ some locked
    → ((t' : Table) × (record_locking k true true true file t ≡ waited (child_failure file) true t')
        × IsLocked (length file) t')
      × ((t' : Table) × (record_locking k true true false file t ≡ waited child_faulted true t')
          × IsLocked (length file) t')
unfolding child
record_locking-keeps k file t locked h free long short e =
    let mine = lock_end-IsLocked k (length file) t locked h e in
    let once = close-IsLocked k (length file) locked h mine in
    let twice = close-IsLocked k (length file) (k.close child_pid locked) h once in
    let left = k.close child_pid (k.close child_pid locked) in
    (
      (
        left,
        forked k true file t locked e
            ∙ ap (λ r. unlock k r.0 (k.close child_pid r.1))
                (child_lem k file locked h free long short mine)
            ∙ unlock_lem k (child_failure file) left h,
        twice,
      ),
      (left, forked k false file t locked e ∙ unlock_lem k child_faulted left h, twice),
    )
