-- ===== src/Heap/Blocks.antt =====
-- `memorymanagement` of MemoryManagement.c: blocks of ints that are allocated, written, read and
-- freed.
use c_basics.Prelude.{
  ℕ, zero, suc, Option, none, some, List, [], ◌∷◌, ◌++◌, ltb, ◌==◌, if◌then◌else◌, length,
  get_elem?, set, ◌>>=◌,
}

-- The blocks that are allocated, by address.
abbrev pub Heap : Type 0
Heap = ℕ → Option (List ℕ)

abbrev pub no_blocks : Heap
no_blocks p = none

abbrev pub update : Heap → ℕ → Option (List ℕ) → Heap
update h p block q = if p == q then block else h q

-- What malloc(3), calloc(3) and realloc(3) answer: NULL, or an address with what the new block
-- holds.
abbrev pub Answer : Type 0
Answer = Option (ℕ × List ℕ)

-- `*(p + i) = v`; `none` is a fault: no block, or past its end.
unfoldable pub store_at : Heap → ℕ → ℕ → ℕ → Option Heap
store_at h p i v = do
  block ← h p
  if ltb i (length block) then some (update h p (some (set block i v))) else none

unfoldable pub load_at : Heap → ℕ → ℕ → Option ℕ
load_at h p i = do block ← h p; get_elem? block i

-- free(3) and realloc(3) fault for a block that is not allocated.
unfoldable pub free : Heap → ℕ → Option Heap
free h p = do block ← h p; some (update h p none)

unfoldable pub realloc : Heap → ℕ → Answer → Option (Answer × Heap)
realloc h p none = do block ← h p; some (none, h)
realloc h p (some (q, new)) = do
  block ← h p
  some (some (q, new), update (update h p none) q (some new))

-- Stores from index `i` on.
unfoldable pub store_all : Heap → ℕ → ℕ → List ℕ → Option Heap
unfolding store_at
store_all h p i [] = some h
store_all h p i (v ∷ vs) = do h' ← store_at h p i v; store_all h' p (suc i) vs

-- The loop that prints `left` ints from index `i` on.
unfoldable pub print_all : Heap → ℕ → ℕ → ℕ → Option (List ℕ)
unfolding load_at
print_all h p zero i = some []
print_all h p (suc left) i = do
  v ← load_at h p i
  rest ← print_all h p left (suc i)
  some (v ∷ rest)

-- How `memorymanagement` ends: returned, or in a fault of realloc(3), which is passed a block that
-- is not allocated. With the heap and with what is printed before.
pub data Ending : Type 0 where
  exit_failure : Heap → Ending
  exit_success : Heap → List ℕ → Ending
  bad_realloc : Heap → List ℕ → Ending

-- From `realloc` on. NULL is not tested for.
unfoldable pub after_realloc : Answer → ℕ → Heap → List ℕ → Option Ending
unfolding store_all print_all free
after_realloc none ptr_calloc h printed = none
after_realloc (some (p, block)) ptr_calloc h printed = do
  h₁ ← store_all h p 0 (3 ∷ 2 ∷ 1 ∷ [])
  three ← print_all h₁ p 3 0
  h₂ ← free h₁ ptr_calloc
  h₃ ← free h₂ p
  some (exit_success h₃ (printed ++ three))

-- With what the call of realloc(3) makes of the heap `h`.
unfoldable pub after_free : Option (Answer × Heap) → ℕ → Heap → List ℕ → Option Ending
unfolding after_realloc
after_free none ptr_calloc h printed = some (bad_realloc h printed)
after_free (some (moved, h')) ptr_calloc h printed = after_realloc moved ptr_calloc h' printed

-- From `calloc` on.
unfoldable pub after_calloc : Answer → Answer → ℕ → Heap → List ℕ → Option Ending
unfolding store_all print_all free realloc after_free
after_calloc none again p h printed = do h₁ ← free h p; some (exit_failure h₁)
after_calloc (some (q, block)) again p h printed = do
  h₁ ← store_all (update h q (some block)) q 0 (1 ∷ 2 ∷ 3 ∷ 4 ∷ 5 ∷ [])
  five ← print_all h₁ q 5 0
  h₂ ← free h₁ p
  after_free (realloc h₂ p again) q h₂ (printed ++ five)

-- `memorymanagement`, with the three answers. `none` is any other fault.
unfoldable pub memorymanagement : Answer → Answer → Answer → Option Ending
unfolding store_at load_at free after_calloc
memorymanagement none cleared again = some (exit_failure no_blocks)
memorymanagement (some (p, block)) cleared again = do
  h ← store_at (update no_blocks p (some block)) p 0 10
  v ← load_at h p 0
  after_calloc cleared again p h (v ∷ [])
