-- ===== src/RecordLock/Tests.antt =====
-- The file of UnixRecordLocking.c under a kernel that knows of two processes.
use c_basics.Prelude.{
  ℕ, zero, suc, ◌-◌, ◌≤◌, ◌<◌, ◌≡◌, refl, sym, ap, ◌∙◌, Bool, true, false, ◌&&◌, Option, none, some,
  List, [], ◌∷◌, arith, ltb, leb, ◌==◌, if◌then◌else◌,
}
use c_basics.RecordLock.Processes.{
  Table, Command, set_lock, set_descriptor_flags, Kernel, IsKernel, parent_pid, child_pid,
  child_failure, child_faulted, lock_end, waited, record_locking,
}
use c_basics.RecordLock.Kept.{IsLocked, record_locking-keeps}

-- Whether the parent has a lock on one of the `left` bytes from `b` on.
conflicts : Table → ℕ → ℕ → Bool
conflicts t b zero = false
conflicts t b (suc left) = elim (t parent_pid b) [ some w ↦ true | none ↦ conflicts t (suc b) left ]

conflicts-found :
    (t : Table) (b start left : ℕ) (other : Bool)
    → start ≤ b
    → b - start < left
    → t parent_pid b ≡ some other
    → conflicts t start left ≡ true
unfolding conflicts
conflicts-found t b start zero other low high e = absurd (omega (arith, high))
conflicts-found t b start (suc left) other low high e =
    grind (arith, conflicts-found t b (suc start) left other)

abbrev give : ℕ → Bool → ℕ → ℕ → Table → Table
give p writes start len t q b =
    if q == p && (leb start b && ltb (b - start) len) then some writes else t q b

small_fcntl : ℕ → Command → Table → Option Table
small_fcntl p set_descriptor_flags t = some t
small_fcntl p (set_lock writes start len) t =
    if p == child_pid && conflicts t start len then none else some (give p writes start len t)

abbrev small : Kernel
small = record { fcntl = small_fcntl; close = λ p t q b. if q == p then none else t q b }

given :
    (p start len b : ℕ) (writes : Bool) (t : Table)
    → start ≤ b
    → b - start < len
    → give p writes start len t p b ≡ some writes
given p start len b writes t low high = ground (arith, low, high)

gives-small :
    (p start len b : ℕ) (writes : Bool) (t t' : Table)
    → small_fcntl p (set_lock writes start len) t ≡ some t'
    → start ≤ b
    → b - start < len
    → t' p b ≡ some writes
unfolding small_fcntl
gives-small p start len b writes t t' e low high =
    let same : give p writes start len t ≡ t' = ground (arith, e) in
    sym (ap (λ (x : Table). x p b) same) ∙ given p start len b writes t low high

small-IsKernel : IsKernel small
unfolding small_fcntl
small-IsKernel = record {
  gives = gives-small;
  refuses = λ start len b other t low high e.
      ground (arith, conflicts-found t b start len other low high e);
  flags = λ p t. refl;
  spares = λ p q b t ne. ground (arith, ne);
}

abbrev last_record : List ℕ
last_record =
    82 ∷ 101 ∷ 99 ∷ 111 ∷ 114 ∷ 100 ∷ 32 ∷ 52 ∷ 58 ∷ 32 ∷ 80 ∷ 82 ∷ 79 ∷ 84 ∷ 69 ∷ 67 ∷ 84 ∷ 69 ∷ 68
    ∷ 10 ∷ []

record_locking-keeps_example :
    ((t' : Table) × (record_locking small true true true last_record (λ p b. none)
        ≡ waited (child_failure last_record) true t')
      × IsLocked 20 t')
    × ((t' : Table) × (record_locking small true true false last_record (λ p b. none)
          ≡ waited child_faulted true t')
        × IsLocked 20 t')
unfolding lock_end small_fcntl
record_locking-keeps_example =
    record_locking-keeps small last_record (λ p b. none) (give parent_pid false 4 16 (λ p b. none))
      small-IsKernel (ground arith) (omega arith) (omega arith) refl
