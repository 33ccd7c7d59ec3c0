-- ===== src/Files/Position.antt =====
-- `lseek_demo` of GettingAndModifyingLocationInFile.c.
use c_basics.Prelude.{ℕ, Bool, true, false, Option, none, some, if◌then◌else◌}

-- `exit(EXIT_FAILURE)`, or the two offsets that are printed; the second is none where lseek(2)
-- answered -1, which is printed too.
pub data Offsets : Type 0 where
  exit_failure : Offsets
  offsets : ℕ → Option ℕ → Offsets

-- Where the offset stands after write(2): what it took of the six bytes of "hello", or 0 after -1.
abbrev pub written : Option ℕ → ℕ
written none = 0
written (some n) = n

-- The answers are those of open(2), of write(2), which is not tested, and of both calls of
-- lseek(2), with true for success. 0L is SEEK_SET.
unfoldable pub lseek_demo : Bool → Option ℕ → Bool → Bool → Offsets
lseek_demo false write current start = exit_failure
lseek_demo true write false start = exit_failure
lseek_demo true write true start = offsets (written write) (if start then some 0 else none)
