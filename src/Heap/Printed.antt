-- ===== src/Heap/Printed.antt =====
-- What `morememorymanagement` prints.
use c_basics.Prelude.{
  ℕ, zero, suc, ◌+◌, ◌-◌, ◌*◌, ◌≤◌, ◌<◌, ◌≡◌, refl, ap, ◌∙◌, Option, none, some, List, [], ◌∷◌,
  arith, ltb, if◌then◌else◌, length, set, ◌>>=◌, dec_lt, length-set, subst, get_elem?-set_self,
  bind-some, bind-none,
}
use c_basics.Heap.Blocks.{Heap, no_blocks, update, store_at, load_at, free}
use c_basics.Heap.Family.{
  Family, fill_one, fill, Line, has_parent, has_child, person_lines, traverse, number, exit_success,
  exit_failure, family_part, morememorymanagement,
}
use c_basics.Heap.Filled.{
  Filled, filled_young, filled_old, fill_one-young, fill_one-old, fill_one-overflow, young-Filled,
  old-Filled,
}

fill-Filled :
    (size left i : ℕ) (family : Family)
    → i + left ≡ size
    → size ≤ 46341
    → Filled i family
    → (filled : Family) × (fill size left i family ≡ some filled) × Filled size filled
unfolding fill
fill-Filled size zero i family e fits h =
    (family, refl, subst (λ k. Filled k family) (omega arith) h)
fill-Filled size (suc left) i family e fits h = elim (dec_lt i 3) [
  | yes young ↦
      let next = filled_young i family in
      let (filled, f, done) =
        fill-Filled size left (suc i) next (omega arith) fits (young-Filled i family young h) in
      (
        filled,
        bind-some (fill_one size i family) next _ _
            (fill_one-young size i family (omega arith) young (omega arith)) f,
        done,
      )
  | no old ↦
      let next = filled_old i family in
      let large : 3 ≤ i = omega (arith, old) in
      let (filled, f, done) =
        fill-Filled size left (suc i) next (omega arith) fits (old-Filled i family large h) in
      (
        filled,
        bind-some (fill_one size i family) next _ _
            (fill_one-old size i family (omega arith) large (omega arith)) f,
        done,
      )
]

-- The line of the `i`th of `size` persons.
abbrev pub line_of : ℕ → ℕ → Line
line_of size i =
    if ltb i 3 then has_parent (i * i) ((size - 1) * (size - 1)) else has_child (i * i) 4

abbrev pub lines_of : ℕ → ℕ → ℕ → List Line
lines_of size zero i = []
lines_of size (suc left) i = line_of size i ∷ lines_of size left (suc i)

person_lines-line :
    (size i : ℕ) (family : Family)
    → 4 ≤ size
    → i < size
    → Filled size family
    → person_lines size family (family i) ≡ some (line_of size i ∷ [])
unfolding person_lines
person_lines-line size i family big lt h = elim (dec_lt i 3) [
  | yes young ↦ ground (arith, h.ages i, h.parents i young big, h.ages (size - 1))
  | no old ↦ ground (arith, h.ages i, h.old i, h.ages 2)
]

traverse-lines :
    (size left i : ℕ) (family : Family)
    → 4 ≤ size
    → i + left ≡ size
    → Filled size family
    → traverse size family left i ≡ some (lines_of size left i)
unfolding traverse
traverse-lines size zero i family big e h = refl
traverse-lines size (suc left) i family big e h =
    bind-some (person_lines size family (family i)) (line_of size i ∷ []) _ _
      (person_lines-line size i family big (omega arith) h)
      (bind-some (traverse size family left (suc i)) (lines_of size left (suc i)) _ _
        (traverse-lines size left (suc i) family big (omega arith) h) refl)

-- With a FAMILY_SIZE of four or more the loops stay within the array, and whatever its memory held
-- before, the first three persons are shown with the last one as their parent and all others with
-- the third as their child.
pub family_part-lines :
    (size : ℕ) (memory : Family)
    → 4 ≤ size
    → size ≤ 46341
    → family_part size (some memory) ≡ some (lines_of size size 0)
unfolding family_part
family_part-lines size memory big fits =
    let none_yet : Filled 0 memory = record {
      ages = λ j below. absurd (omega arith);
      young = λ j small below. absurd (omega arith);
      parents = λ j small large. absurd (omega arith);
      old = λ j large below. absurd (omega arith);
    } in
    let (family, f, h) = fill-Filled size size 0 memory (omega arith) fits none_yet in
    bind-some (fill size size 0 memory) family _ _ f
      (traverse-lines size size 0 family big (omega arith) h)

abbrev pub upto : ℕ → ℕ → List ℕ
upto zero i = []
upto (suc left) i = i ∷ upto left (suc i)

store_at-in :
    (h : Heap) (p : ℕ) (block : List ℕ) (i v : ℕ)
    → h p ≡ some block
    → i < length block
    → store_at h p i v ≡ some (update h p (some (set block i v)))
unfolding store_at
store_at-in h p block i v e lt = ground (arith, e)

load_at-in :
    (h : Heap) (p : ℕ) (block : List ℕ) (i : ℕ)
    → i < length block
    → load_at (update h p (some (set block i i))) p i ≡ some i
unfolding load_at
load_at-in h p block i lt = ground (arith, get_elem?-set_self block i i lt)

number-upto :
    (h : Heap) (p : ℕ) (block : List ℕ) (left i : ℕ)
    → h p ≡ some block
    → i + left ≤ length block
    → (h' : Heap) × (block' : List ℕ) × (number h p left i ≡ some (upto left i, h'))
      × (h' p ≡ some block')
unfolding number
number-upto h p block zero i e le = (h, block, refl, e)
number-upto h p block (suc left) i e le =
    let h₁ = update h p (some (set block i i)) in
    let (h', block', n, e') =
      number-upto h₁ p (set block i i) left (suc i) (ground arith)
        (omega (arith, length-set block i i)) in
    (
      h',
      block',
      bind-some (store_at h p i i) h₁ _ _ (store_at-in h p block i i e (omega arith)) (
          bind-some (load_at h₁ p i) i _ _ (load_at-in h p block i (omega arith))
            (ap (λ o. o >>= (λ (rest, h₂). some (i ∷ rest, h₂))) n)),
      e',
    )

free-in : (h : Heap) (p : ℕ) (block : List ℕ) → h p ≡ some block → free h p ≡ some (update h p none)
unfolding free
free-in h p block e = ground (arith, e)

no_memory :
    (size : ℕ) (numbers : List ℕ)
    → (family_part size none >>= (λ lines. some (exit_success numbers lines))) ≡ none
unfolding family_part
no_memory size numbers = refl

-- A loop that comes to 46341 overflows there.
fill-overflow :
    (size left i : ℕ) (family : Family)
    → i ≤ 46341
    → 46341 < i + left
    → fill size left i family ≡ none
unfolding fill
fill-overflow size zero i family low far = absurd (omega arith)
fill-overflow size (suc left) i family low far = elim (dec_lt i 46341) [
  | yes before ↦
      bind-none (fill_one size i family) _
        (λ next. fill-overflow size left (suc i) next (omega arith) (omega arith))
  | no there ↦
      ap (λ o. o >>= fill size left (suc i))
        (fill_one-overflow size i family (omega (arith, low, there)))
]

family_part-overflow :
    (size : ℕ) (memory : Family) → 46341 < size → family_part size (some memory) ≡ none
unfolding family_part
family_part-overflow size memory large =
    ap (λ o. o >>= (λ family. traverse size family size 0))
      (fill-overflow size size 0 memory (omega arith) (omega arith))

-- `morememorymanagement` with a FAMILY_SIZE from 4 to 46341: with both answers of malloc(3) it
-- succeeds, without a fault, and prints the numbers below 15 and the lines of the family, whatever
-- the memory held before; without the first answer it exits with a failure, and without the second
-- it faults. With a larger FAMILY_SIZE it faults, as the age of a person overflows an int.
pub morememorymanagement-prints :
    (size p : ℕ) (block : List ℕ) (memory : Family) (other : Option Family) (large : ℕ)
    → 4 ≤ size
    → size ≤ 46341
    → 46341 < large
    → length block ≡ 15
    → (morememorymanagement size (some (p, block)) (some memory)
        ≡ some (exit_success (upto 15 0) (lines_of size size 0)))
      × (morememorymanagement size none other ≡ some exit_failure)
      × (morememorymanagement size (some (p, block)) none ≡ none)
      × (morememorymanagement large (some (p, block)) (some memory) ≡ none)
unfolding morememorymanagement
morememorymanagement-prints size p block memory other large big fits over full =
    let start = update no_blocks p (some block) in
    let (h, block', n, e) = number-upto start p block 15 0 (ground arith) (omega (arith, full)) in
    let freed : free h p ≡ some (update h p none) = free-in h p block' e in
    (
      ap
            (λ o. o >>= (λ (numbers, h₁). free h₁ p >>= (λ h₂.
              family_part size (some memory) >>= (λ lines. some (exit_success numbers lines)))))
            n
          ∙ bind-some (free h p) (update h p none) _ _ freed (
              bind-some (family_part size (some memory)) (lines_of size size 0) _ _
                (family_part-lines size memory big fits) refl),
      refl,
      ap
            (λ o. o >>= (λ (numbers, h₁).
              free h₁ p
              >>= (λ h₂. family_part size none >>= (λ lines. some (exit_success numbers lines)))))
            n
          ∙ bind-some (free h p) (update h p none) _ _ freed (no_memory size (upto 15 0)),
      bind-none (number start p 15 0) _ (λ (numbers, h₁). bind-none (free h₁ p) _ (λ h₂.
          ap (λ o. o >>= (λ lines. some (exit_success numbers lines)))
            (family_part-overflow large memory over))),
    )
