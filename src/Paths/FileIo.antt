-- ===== src/Paths/FileIo.antt =====
-- `fileio` of FileIO.c.
use c_basics.Prelude.{
  ℕ, ◌≤◌, ◌≡◌, ap, ap₂, ◌∙◌, Bool, true, Option, none, some, List, [], ◌∷◌, ◌++◌, arith,
  if◌then◌else◌, length, take, length-append,
}
use c_basics.Paths.Build.{snprintf, take-long, take-take-append}

-- "/example.txt".
abbrev pub example : List ℕ
example = 47 ∷ 101 ∷ 120 ∷ 97 ∷ 109 ∷ 112 ∷ 108 ∷ 101 ∷ 46 ∷ 116 ∷ 120 ∷ 116 ∷ []

-- "This is a test\n" and "12345\n".
abbrev pub test_line : List ℕ
test_line = 84 ∷ 104 ∷ 105 ∷ 115 ∷ 32 ∷ 105 ∷ 115 ∷ 32 ∷ 97 ∷ 32 ∷ 116 ∷ 101 ∷ 115 ∷ 116 ∷ 10 ∷ []

abbrev pub digits_line : List ℕ
digits_line = 49 ∷ 50 ∷ 51 ∷ 52 ∷ 53 ∷ 10 ∷ []

-- The return with a failure; or with success after a path was opened and bytes were printed.
pub data Outcome : Type 0 where
  returned_failure : Outcome
  returned_success : List ℕ → List ℕ → Outcome

-- `file_path`, with PATH_MAX of the file: strncpy(3) of the home directory and a NUL, then
-- snprintf(3).
unfoldable pub file_path : List ℕ → List ℕ
unfolding snprintf
file_path home = snprintf 150 (take 149 home ++ example)

-- From the second open(2) on: read(2) of the file into 1024 bytes, which fails or gives them all.
unfoldable pub print_file : List ℕ → List ℕ → Bool → Bool → Outcome
print_file path file reopens reads =
    if reopens
    then (if reads then returned_success path (take 1024 file) else returned_failure)
    else returned_failure

-- The arguments: getenv(3) of HOME, whether open(2) for writing succeeds, how many bytes each
-- write(2) writes, which is not tested, and whether open(2) and read(2) of the file succeed.
unfoldable pub fileio : Option (List ℕ) → (List ℕ → Bool) → ℕ → ℕ → Bool → Bool → Outcome
unfolding file_path print_file
fileio none opens first second reopens reads = returned_failure
fileio (some home) opens first second reopens reads =
    if opens (file_path home)
    then print_file (file_path home) (take first test_line ++ take second digits_line) reopens reads
    else returned_failure

path-cut : (home : List ℕ) → file_path home ≡ take 149 (home ++ example)
unfolding file_path snprintf
path-cut home = take-take-append 149 home example

-- What fileio opens and empties is the first 149 bytes of the home directory and "/example.txt",
-- which is all of it for a home directory of at most 137 bytes and another file for a longer one;
-- and it prints what was written there: both lines, if no write(2) was short.
pub fileio-prints :
    (home short : List ℕ) (opens : List ℕ → Bool) (first second : ℕ) (reopens reads : Bool)
    (path printed : List ℕ)
    → fileio (some home) opens first second reopens reads ≡ returned_success path printed
    → length short ≤ 137
    → 15 ≤ first
    → 6 ≤ second
    → (path ≡ take 149 (home ++ example))
      × (printed ≡ test_line ++ digits_line)
      × (opens path ≡ true)
      × (file_path short ≡ short ++ example)
unfolding fileio print_file
fileio-prints home short opens first second reopens reads path printed e fits whole whole' =
    let long : length (short ++ example) ≤ 149 = omega (arith, length-append short example, fits) in
    let lines : take first test_line ++ take second digits_line ≡ test_line ++ digits_line =
      ap₂ (λ xs ys. xs ++ ys) (take-long first test_line whole)
        (take-long second digits_line whole') in
    ground (
      arith,
      e,
      ap (take 1024) lines,
      path-cut home,
      path-cut short ∙ take-long 149 (short ++ example) long,
    )
