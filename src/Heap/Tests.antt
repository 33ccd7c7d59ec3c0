-- ===== src/Heap/Tests.antt =====
-- MemoryManagement.c with its five persons, in memory that held others before.
use c_basics.Prelude.{
  ℕ, ◌≡◌, ◌≢◌, refl, none, some, List, [], ◌∷◌, arith, replicate, ◌==◌, if◌then◌else◌,
}
use c_basics.Heap.Blocks.{Heap, Ending, bad_realloc, memorymanagement, no_blocks}
use c_basics.Heap.Reallocated.{memorymanagement_lem}
use c_basics.Heap.Family.{Family, Result, exit_success, morememorymanagement, has_parent, has_child}
use c_basics.Heap.Printed.{upto, lines_of, morememorymanagement-prints}
use c_basics.Heap.Chain.{Nodes, head_text, dustyn, jim, linkedlist, linkedlist-prints}

abbrev strangers : Family
strangers j = record { age = 99; parent = some 7; child = some j }

abbrev zeroed_ints : List ℕ
zeroed_ints = replicate 15 0

five_persons :
    lines_of 5 5 0
    ≡ has_parent 0 16 ∷ has_parent 1 16 ∷ has_parent 4 16 ∷ has_child 9 4 ∷ has_child 16 4 ∷ []
five_persons = refl

morememorymanagement-prints_example :
    (morememorymanagement 5 (some (64, zeroed_ints)) (some strangers)
      ≡ some (exit_success (upto 15 0) (lines_of 5 5 0)))
    × (morememorymanagement 5 none none ≡ some Result.exit_failure)
    × (morememorymanagement 5 (some (64, zeroed_ints)) none ≡ none)
    × (morememorymanagement 50000 (some (64, zeroed_ints)) (some strangers) ≡ none)
morememorymanagement-prints_example =
    morememorymanagement-prints 5 64 zeroed_ints strangers none 50000 (omega arith) (omega arith)
      (omega arith) refl

memorymanagement_lem_example :
    ((h : Heap) × (memorymanagement (some (64, 0 ∷ [])) (some (96, 0 ∷ 0 ∷ 0 ∷ 0 ∷ 0 ∷ [])) none
        ≡ some (bad_realloc h (10 ∷ 1 ∷ 2 ∷ 3 ∷ 4 ∷ 5 ∷ [])))
      × (h 96 ≡ some (1 ∷ 2 ∷ 3 ∷ 4 ∷ 5 ∷ []))
      × (h 64 ≡ none)
      × ((r : ℕ) → r ≢ 96 → h r ≡ none))
    × ((h : Heap) × (memorymanagement (some (64, 0 ∷ [])) none none ≡ some (Ending.exit_failure h))
        × ((r : ℕ) → h r ≡ none))
    × (memorymanagement none none none ≡ some (Ending.exit_failure no_blocks))
memorymanagement_lem_example =
    memorymanagement_lem 64 96 (0 ∷ []) none none (omega arith) (λ e. omega (arith, e))

-- Three nodes where nothing was allocated.
linkedlist-prints_example :
    ((left : Nodes) × (linkedlist (λ q. none) (some 8) (some 16) (some 24)
        ≡ some (head_text ∷ dustyn ∷ jim ∷ [], left))
      × ((q : ℕ)
          → left q
            ≡ (if q == 8 then none else if q == 16 then none else if q == 24 then none else none)))
    × (linkedlist (λ q. none) none none none ≡ none)
    × (linkedlist (λ q. none) none none none ≡ none)
    × (linkedlist (λ q. none) none none none ≡ none)
linkedlist-prints_example =
    linkedlist-prints (λ q. none) 8 16 24 none none (λ e. omega (arith, e)) (λ e. omega (arith, e))
      (λ e. omega (arith, e))
