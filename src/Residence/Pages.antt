-- ===== src/Residence/Pages.antt =====
-- The pages of MemoryResidence.c and its loop of mlock(2).
use c_basics.Prelude.{
  ℕ, zero, suc, ◌+◌, ◌-◌, ◌*◌, ◌/◌, ◌%◌, ◌^◌, ◌≤◌, ◌<◌, ◌≡◌, ap, Bool, true, false, not, ◌||◌,
  Option, none, some, List, [], ◌∷◌, arith, leb, ◌==◌, if◌then◌else◌, length, take, some-injective,
  ℕ_discrete, length-take,
}

-- The pages of a range. `page_size` is sysconf(3)'s.
unfoldable pub num_pages : ℕ → ℕ → ℕ
num_pages length page_size = (length + page_size - 1) / page_size

-- What the loop over `vec` prints, from page `j` on: one page in 64, with its residence bit.
unfoldable pub show_pages : List ℕ → ℕ → List (ℕ × Bool)
show_pages [] j = []
show_pages (v ∷ vec) j =
    let rest = show_pages vec (suc j) in if j % 64 == 0 then (j, v % 2 == 1) ∷ rest else rest

-- `displayMincore`, with the answers of malloc(3) and mincore(2); `none` is an exit.
unfoldable pub display_mincore : Bool → Option (List ℕ) → ℕ → ℕ → Option (List (ℕ × Bool))
unfolding show_pages
display_mincore false vec length page_size = none
display_mincore true none length page_size = none
display_mincore true (some vec) length page_size =
    some (show_pages (take (num_pages length page_size) vec) 0)

pub data Locking : Type 0 where
  failed_at : ℕ → Locking
  locked : List (ℕ × ℕ) → Locking
  no_fuel : Locking

unfoldable pub then_locked : ℕ × ℕ → Locking → Locking
then_locked range (locked ranges) = locked (range ∷ ranges)
then_locked range (failed_at j) = failed_at j
then_locked range no_fuel = no_fuel

-- The loop of mlock(2) from `j` on: the ranges that are locked, or the place where mlock(2) fails.
unfoldable pub lock_pages : (ℕ → ℕ → Bool) → ℕ → ℕ → ℕ → ℕ → ℕ → Locking
unfolding then_locked
lock_pages mlock zero len lock_len step j = no_fuel
lock_pages mlock (suc fuel) len lock_len step j =
    let rest = lock_pages mlock fuel len lock_len step (j + step) in
    if leb ((j + lock_len) % 2 ^ 64) len
    then (if mlock j lock_len then then_locked (j, lock_len) rest else failed_at j)
    else locked []

-- The kernel, and getInt of the library of arguments, which exits on a bad one.
pub record Kernel : Type 0 where
  pub page_size : Option ℕ
  pub mmap : ℕ → Bool
  pub malloc : Bool
  pub mincore_before : Option (List ℕ)
  pub mincore_after : Option (List ℕ)
  pub mlock : ℕ → ℕ → Bool

pub data Outcome : Type 0 where
  exited : Outcome
  finished : Locking → Outcome

unfoldable pub lock_then_display : Kernel → ℕ → ℕ → ℕ → ℕ → ℕ → Outcome
unfolding lock_pages display_mincore
lock_then_display k page_size fuel len lock_len step =
    elim (lock_pages k.mlock fuel len lock_len step 0) [
      | failed_at j ↦ exited
      | no_fuel ↦ finished no_fuel
      | locked ranges ↦ elim (display_mincore k.malloc k.mincore_after len page_size) [
        | none ↦ exited
        | some pages ↦ finished (locked ranges)
      ]
    ]

-- `memory_residence` with argc, the test for --help, and the three arguments. Note that the length
-- to lock is read from argv[1].
unfoldable pub memory_residence :
    Kernel → (List ℕ → Option ℕ) → ℕ → Bool → List ℕ → List ℕ → ℕ → Outcome
unfolding lock_then_display
memory_residence k get_int argc help argv_1 argv_2 fuel =
    if not (argc == 4) || help then exited else elim k.page_size [
      | none ↦ exited
      | some page_size ↦ elim (get_int argv_1) [
        | none ↦ exited
        | some pages ↦ elim (get_int argv_2) [
          | none ↦ exited
          | some steps ↦
              if k.mmap (pages * page_size)
              then elim (display_mincore k.malloc k.mincore_before (pages * page_size) page_size) [
                | none ↦ exited
                | some shown ↦
                    lock_then_display k page_size fuel (pages * page_size) (pages * page_size)
                      (steps * page_size)
              ]
              else exited
        ]
      ]
    ]

-- With a page size above 0 the pages cover the range, and one page fewer does not.
pub num_pages-covers :
    (length page_size : ℕ)
    → 0 < page_size
    → (length ≤ num_pages length page_size * page_size)
      × (num_pages length page_size * page_size < length + page_size)
unfolding num_pages
num_pages-covers length page_size h = omega arith

length-show_pages :
    (vec : List ℕ) (j : ℕ) → length (show_pages vec j) + (j + 63) / 64 ≡ (length vec + j + 63) / 64
unfolding show_pages
length-show_pages [] j = omega arith
length-show_pages (v ∷ vec) j = elim (ℕ_discrete (j % 64) 0) [
  | yes e ↦ ground (arith, length-show_pages vec (suc j), e)
  | no ne ↦ ground (arith, length-show_pages vec (suc j), ne)
]

-- Of the pages of a range, as many as mincore(2) answered for, only one in 64, rounded up, is
-- shown.
pub display_mincore-shows :
    (vec : List ℕ) (len page_size : ℕ) {shown : List (ℕ × Bool)}
    → length vec ≡ num_pages len page_size
    → display_mincore true (some vec) len page_size ≡ some shown
    → length shown ≡ (num_pages len page_size + 63) / 64
unfolding display_mincore
display_mincore-shows vec len page_size {shown} e h = omega (
  arith,
  ap length (some-injective _ _ h),
  length-show_pages (take (num_pages len page_size) vec) 0,
  length-take (num_pages len page_size) vec,
)

-- Whatever the step, the loop locks the whole range in one call and stops.
lock_pages-whole :
    (mlock : ℕ → ℕ → Bool) (fuel len step : ℕ)
    → 0 < step
    → len + step < 2 ^ 64
    → 1 < fuel
    → lock_pages mlock fuel len len step 0
      ≡ (if mlock 0 len then locked ((0, len) ∷ []) else failed_at 0)
unfolding lock_pages then_locked
lock_pages-whole mlock zero len step h small enough = absurd (omega arith)
lock_pages-whole mlock (suc zero) len step h small enough = absurd (omega arith)
lock_pages-whole mlock (suc (suc fuel)) len step h small enough = ground arith

lock_then_display-whole :
    (k : Kernel) (page_size fuel len step : ℕ) {ranges : Locking}
    → 0 < step
    → len + step < 2 ^ 64
    → 1 < fuel
    → lock_then_display k page_size fuel len len step ≡ finished ranges
    → (ranges ≡ locked ((0, len) ∷ [])) × (k.mlock 0 len ≡ true)
unfolding lock_then_display
lock_then_display-whole k page_size fuel len step h small enough e =
    ground (arith, lock_pages-whole k.mlock fuel len step h small enough, e)

-- If `memory_residence` does not exit early then it has locked the whole range, by one call of
-- mlock(2), whatever step was asked for, and argc was 4. Assumed: a page size and a step above 0,
-- with less than 2 ^ 64 bytes for the range and the step together, and fuel of at least two.
pub memory_residence-locks :
    (k : Kernel) (get_int : List ℕ → Option ℕ) (argc : ℕ) (help : Bool) (argv_1 argv_2 : List ℕ)
    (fuel page_size pages steps : ℕ) {ranges : Locking}
    → k.page_size ≡ some page_size
    → get_int argv_1 ≡ some pages
    → get_int argv_2 ≡ some steps
    → 0 < steps * page_size
    → pages * page_size + steps * page_size < 2 ^ 64
    → 1 < fuel
    → memory_residence k get_int argc help argv_1 argv_2 fuel ≡ finished ranges
    → (argc ≡ 4)
      × (ranges ≡ locked ((0, pages * page_size) ∷ []))
      × (k.mlock 0 (pages * page_size) ≡ true)
unfolding memory_residence
memory_residence-locks k get_int argc help argv_1 argv_2 fuel page_size pages steps {ranges} p a b h
      small enough e =
    ground (
      arith,
      p,
      a,
      b,
      lock_then_display-whole k page_size fuel (pages * page_size) (steps * page_size)
          {ranges = ranges} h small enough,
      e,
    )
