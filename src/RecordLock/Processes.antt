-- ===== src/RecordLock/Processes.antt =====
-- `record_locking` of UnixRecordLocking.c, over fcntl(2).
use c_basics.Prelude.{
  ℕ, zero, ◌-◌, ◌≤◌, ◌<◌, ◌≡◌, ◌≢◌, Bool, true, false, Option, none, some, List, [], ◌∷◌, ◌++◌, ltb,
  if◌then◌else◌, length,
}
use c_basics.SelectServer.Text.{c_string}

-- The lock that a process has on a byte of the file: none, or some with true for a write lock.
abbrev pub Table : Type 0
Table = ℕ → ℕ → Option Bool

-- F_SETLK with a read or a write lock (true) on `l_len` bytes from the offset `start` on, and
-- F_SETFD.
pub data Command : Type 0 where
  set_lock : Bool → ℕ → ℕ → Command
  set_descriptor_flags : Command

-- fcntl(2) of a process, where none is -1, and what close(2) or the end of a process leaves of the
-- table.
pub record Kernel : Type 0 where
  pub fcntl : ℕ → Command → Table → Option Table
  pub close : ℕ → Table → Table

abbrev pub parent_pid : ℕ
parent_pid = 1

abbrev pub child_pid : ℕ
child_pid = 2

-- What the manual says: a lock that is given is in the table, a write lock of the child is refused
-- where the parent has a lock, flags change no lock, and close(2) changes none of another process.
pub record IsKernel (k : Kernel) : Type 0 where
  pub gives :
      (p start len b : ℕ) (writes : Bool) (t t' : Table)
      → k.fcntl p (set_lock writes start len) t ≡ some t'
      → start ≤ b
      → b - start < len
      → t' p b ≡ some writes
  pub refuses :
      (start len b : ℕ) (other : Bool) (t : Table)
      → start ≤ b
      → b - start < len
      → t parent_pid b ≡ some other
      → k.fcntl child_pid (set_lock true start len) t ≡ none
  pub flags : (p : ℕ) (t : Table) → k.fcntl p set_descriptor_flags t ≡ some t
  pub spares : (p q b : ℕ) (t : Table) → q ≢ p → k.close p t q b ≡ t q b

-- `sizeof "Record 4: data1\n" - 1`.
abbrev pub record_size : ℕ
record_size = 16

-- How the child ends: with what it has printed, or by an access outside of `contents`.
pub data Child : Type 0 where
  child_failure : List ℕ → Child
  child_success : List ℕ → Child
  child_faulted : Child

-- `l_start` counts back from the end of a file of `size` bytes; a range before its beginning is
-- refused.
unfoldable pub lock_end : Kernel → ℕ → Bool → ℕ → Table → Option Table
lock_end k p writes size t =
    if ltb size record_size
    then none
    else k.fcntl p (set_lock writes (size - record_size) record_size) t

-- After the NUL is written behind what was read.
unfoldable pub try_write_lock : Kernel → ℕ → List ℕ → Table → Child × Table
unfolding lock_end
try_write_lock k zero text t = (child_failure text, t)
try_write_lock k size text t = elim (lock_end k child_pid true size t) [
  | none ↦ (child_failure text, t)
  | some t' ↦ (child_success text, t')
]

-- The child from its close(2) on, with whether open(2) gives it a descriptor. It reads the file of
-- these bytes, as no lock keeps a read(2) from it.
unfoldable pub child : Kernel → Bool → List ℕ → Table → Child × Table
unfolding try_write_lock
child k false file t = (child_faulted, k.close child_pid t)
child k true file t =
    if ltb (length file) 1024
    then (elim (c_string (file ++ (0 ∷ []))) [
      | none ↦ (child_faulted, k.close child_pid t)
      | some text ↦ try_write_lock k (length file) text (k.close child_pid t)
    ])
    else (child_faulted, k.close child_pid t)

-- The parent's exit: with a failure; or after its child, with whether "file unlocked" was printed,
-- and the table when it was.
pub data Outcome : Type 0 where
  exit_failure : Outcome
  waited : Child → Bool → Table → Outcome

-- The parent after wait(2), with F_UNLCK in the place of the command, which is the number of
-- F_SETFD.
unfoldable pub unlock : Kernel → Child → Table → Outcome
unlock k c t = elim (k.fcntl parent_pid set_descriptor_flags t) [
  | none ↦ waited c false t
  | some t' ↦ waited c true t'
]

-- The arguments: whether open(2) and fork(2) succeed and the child's open(2) does, the bytes that
-- write(2) wrote, and the table.
unfoldable pub record_locking : Kernel → Bool → Bool → Bool → List ℕ → Table → Outcome
unfolding lock_end child unlock
record_locking k opens forks reopens file t = elim opens [
  | false ↦ exit_failure
  | true ↦ elim (lock_end k parent_pid false (length file) t) [
    | none ↦ exit_failure
    | some locked ↦ elim forks [
      | false ↦ exit_failure
      | true ↦ let (c, t') = child k reopens file locked in unlock k c (k.close child_pid t')
    ]
  ]
]
