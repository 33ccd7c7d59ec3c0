-- ===== src/Heap/Family.antt =====
-- `morememorymanagement` of MemoryManagement.c: an array of numbers, and a family with pointers.
use c_basics.Prelude.{
  ℕ, zero, suc, ◌*◌, ◌^◌, Option, none, some, List, [], ◌∷◌, ◌++◌, ltb, leb, ◌==◌, if◌then◌else◌,
  ◌>>=◌,
}
use c_basics.Heap.Blocks.{Heap, no_blocks, update, Answer, store_at, load_at, free}

-- A pointer to a person is NULL or the index in the array. The name is the same for all and left
-- out.
pub record Person : Type 0 where
  pub age : ℕ
  pub parent : Option ℕ
  pub child : Option ℕ

-- The memory of the array.
abbrev pub Family : Type 0
Family = ℕ → Person

-- A write to `family[i]` of `size` persons; `none` is a fault.
unfoldable pub assign : ℕ → ℕ → (Person → Person) → Family → Option Family
assign size i f family =
    if ltb i size then some (λ j. if i == j then f (family j) else family j) else none

abbrev pub set_child : Option ℕ → Person → Person
set_child c p = record p { child = c }

abbrev pub set_parent : Option ℕ → Person → Person
set_parent q p = record p { parent = q }

-- The branch for those who have children.
unfoldable pub fill_old : ℕ → ℕ → Family → Option Family
unfolding assign
fill_old size i aged = do
  first ← assign size i (set_child (some 0)) aged
  second ← assign size i (set_child (some 1)) first
  third ← assign size i (set_child (some 2)) second
  orphan ← assign size i (set_parent none) third
  zeroth ← assign size 0 (set_parent (some i)) orphan
  oneth ← assign size 1 (set_parent (some i)) zeroth
  assign size 2 (set_parent (some i)) oneth

-- `i * i` in an int of 32 bits; `none` is its overflow.
unfoldable pub square : ℕ → Option ℕ
square i = if ltb (i * i) (2 ^ 31) then some (i * i) else none

-- The body of the loop that fills the array.
unfoldable pub fill_one : ℕ → ℕ → Family → Option Family
unfolding fill_old assign square
fill_one size i family = do
  i_squared ← square i
  aged ← assign size i (λ p. record p { age = i_squared }) family
  if leb 3 i then fill_old size i aged else assign size i (set_child none) aged

-- The loop, from `i` on for `left` rounds.
unfoldable pub fill : ℕ → ℕ → ℕ → Family → Option Family
unfolding fill_one
fill size zero i family = some family
fill size (suc left) i family = do next ← fill_one size i family; fill size left (suc i) next

-- A line of output: the ages of a person and of its parent, or of a person and of its child.
pub data Line : Type 0 where
  has_parent : ℕ → ℕ → Line
  has_child : ℕ → ℕ → Line

unfoldable pub person_lines : ℕ → Family → Person → Option (List Line)
person_lines size family p = elim p.parent [
  | some q ↦ if ltb q size then some (has_parent p.age (family q).age ∷ []) else none
  | none ↦ elim p.child [
    | some c ↦ if ltb c size then some (has_child p.age (family c).age ∷ []) else none
    | none ↦ some []
  ]
]

-- The loop that prints, from `i` on for `left` rounds.
unfoldable pub traverse : ℕ → Family → ℕ → ℕ → Option (List Line)
unfolding person_lines
traverse size family zero i = some []
traverse size family (suc left) i = do
  lines ← person_lines size family (family i)
  rest ← traverse size family left (suc i)
  some (lines ++ rest)

-- The loop over the array of ints: store, read again and print.
unfoldable pub number : Heap → ℕ → ℕ → ℕ → Option (List ℕ × Heap)
unfolding store_at load_at
number h p zero i = some ([], h)
number h p (suc left) i = do
  h₁ ← store_at h p i i
  v ← load_at h₁ p i
  (rest, h₂) ← number h₁ p left (suc i)
  some (v ∷ rest, h₂)

pub data Result : Type 0 where
  exit_failure : Result
  exit_success : List ℕ → List Line → Result

-- The family, with FAMILY_SIZE and the memory that malloc(3) answers, which is not tested for NULL.
unfoldable pub family_part : ℕ → Option Family → Option (List Line)
unfolding fill traverse
family_part size none = none
family_part size (some memory) = do family ← fill size size 0 memory; traverse size family size 0

-- `morememorymanagement`, with both answers of malloc(3).
unfoldable pub morememorymanagement : ℕ → Answer → Option Family → Option Result
unfolding number free family_part
morememorymanagement size none memory = some exit_failure
morememorymanagement size (some (p, block)) memory = do
  (numbers, h) ← number (update no_blocks p (some block)) p 15 0
  h' ← free h p
  lines ← family_part size memory
  some (exit_success numbers lines)
