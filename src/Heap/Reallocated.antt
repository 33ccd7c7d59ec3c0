-- ===== src/Heap/Reallocated.antt =====
-- What `memorymanagement` of MemoryManagement.c has done where it comes to realloc(3).
use c_basics.Prelude.{
  ℕ, suc, ◌<◌, ◌≡◌, ◌≢◌, refl, ap, ◌∙◌, ℕ_discrete, Option, none, some, List, [], ◌∷◌, ◌++◌, arith,
  length, set, bind-some,
}
use c_basics.Heap.Blocks.{
  Heap, no_blocks, update, Answer, store_at, load_at, free, realloc, store_all, print_all,
  exit_failure, bad_realloc, after_free, after_calloc, memorymanagement,
}

store_at-first :
    (h : Heap) (p b v : ℕ) (block : List ℕ)
    → store_at (update h p (some (b ∷ block))) p 0 v
      ≡ some (update (update h p (some (b ∷ block))) p (some (v ∷ block)))
unfolding store_at
store_at-first h p b v block = ground arith

load_at-first :
    (h : Heap) (p b : ℕ) (block : List ℕ) → load_at (update h p (some (b ∷ block))) p 0 ≡ some b
unfolding load_at
load_at-first h p b block = ground arith

free-own :
    (h : Heap) (p : ℕ) (block : List ℕ)
    → free (update h p (some block)) p ≡ some (update (update h p (some block)) p none)
unfolding free
free-own h p block = ground arith

freed :
    (p : ℕ) (block : List ℕ) (again : Answer)
    → 0 < length block
    → (h : Heap) × (memorymanagement (some (p, block)) none again ≡ some (exit_failure h))
      × ((r : ℕ) → h r ≡ none)
unfolding memorymanagement after_calloc
freed p [] again h = absurd (omega arith)
freed p (b ∷ block) again h =
    let h₁ = update no_blocks p (some (b ∷ block)) in
    let h₂ = update h₁ p (some (10 ∷ block)) in
    (
      update h₂ p none,
      bind-some (store_at h₁ p 0 10) h₂ _ _ (store_at-first no_blocks p b 10 block) (
          bind-some (load_at h₂ p 0) 10 _ _ (load_at-first h₁ p 10 block)
            (bind-some (free h₂ p) (update h₂ p none) _ _ (free-own h₁ p (10 ∷ block)) refl)),
      λ r. ground arith,
    )

store_step :
    (h : Heap) (q i v : ℕ) (vs block : List ℕ)
    → h q ≡ some block
    → i < length block
    → store_all h q i (v ∷ vs) ≡ store_all (update h q (some (set block i v))) q (suc i) vs
unfolding store_all store_at
store_step h q i v vs block e room = rw (e, store_all) (ground (arith, room))

update-own : (h : Heap) (q : ℕ) (block : Option (List ℕ)) → update h q block q ≡ block
update-own h q block = ground arith

abbrev numbers : List ℕ
numbers = 1 ∷ 2 ∷ 3 ∷ 4 ∷ 5 ∷ []

-- The five stores fill a block of five ints and leave the other blocks.
stores_five :
    (h : Heap) (q a b c d e : ℕ)
    → h q ≡ some (a ∷ b ∷ c ∷ d ∷ e ∷ [])
    → (h' : Heap) × (store_all h q 0 numbers ≡ some h')
      × (h' q ≡ some numbers)
      × ((r : ℕ) → r ≢ q → h' r ≡ h r)
unfolding store_all
stores_five h q a b c d e is =
    let h₁ = update h q (some (1 ∷ b ∷ c ∷ d ∷ e ∷ [])) in
    let h₂ = update h₁ q (some (1 ∷ 2 ∷ c ∷ d ∷ e ∷ [])) in
    let h₃ = update h₂ q (some (1 ∷ 2 ∷ 3 ∷ d ∷ e ∷ [])) in
    let h₄ = update h₃ q (some (1 ∷ 2 ∷ 3 ∷ 4 ∷ e ∷ [])) in
    (
      update h₄ q (some numbers),
      store_step h q 0 1 (2 ∷ 3 ∷ 4 ∷ 5 ∷ []) _ is (omega arith)
          ∙ store_step h₁ q 1 2 (3 ∷ 4 ∷ 5 ∷ []) _ (update-own h q _) (omega arith)
          ∙ store_step h₂ q 2 3 (4 ∷ 5 ∷ []) _ (update-own h₁ q _) (omega arith)
          ∙ store_step h₃ q 3 4 (5 ∷ []) _ (update-own h₂ q _) (omega arith)
          ∙ store_step h₄ q 4 5 [] _ (update-own h₃ q _) (omega arith),
      update-own h₄ q _,
      λ r other. ground (arith, other),
    )

prints_five : (h : Heap) (q : ℕ) → h q ≡ some numbers → print_all h q 5 0 ≡ some numbers
unfolding print_all load_at
prints_five h q is = rw (is, print_all) refl

-- What the block from malloc(3) and its first value leave to do.
starts :
    (p b : ℕ) (block : List ℕ) (cleared again : Answer)
    → memorymanagement (some (p, b ∷ block)) cleared again
      ≡ after_calloc cleared again p
          (update (update no_blocks p (some (b ∷ block))) p (some (10 ∷ block)))
          (10 ∷ [])
unfolding memorymanagement
starts p b block cleared again =
    let h₁ = update no_blocks p (some (b ∷ block)) in
    let h₂ = update h₁ p (some (10 ∷ block)) in
    bind-some (store_at h₁ p 0 10) h₂ _ _ (store_at-first no_blocks p b 10 block)
      (bind-some (load_at h₂ p 0) 10 _ _ (load_at-first h₁ p 10 block) refl)

free-there :
    (h : Heap) (p : ℕ) (block : List ℕ) → h p ≡ some block → free h p ≡ some (update h p none)
unfolding free
free-there h p block is = rw (is, free) refl

realloc-gone : (h : Heap) (p : ℕ) (again : Answer) → realloc (update h p none) p again ≡ none
unfolding realloc
realloc-gone h p none = ground arith
realloc-gone h p (some (q, new)) = ground arith

calloc_ends :
    (h : Heap) (p q : ℕ) (block printed : List ℕ) (again : Answer)
    → p ≢ q
    → h p ≡ some block
    → (h' : Heap) × (after_calloc (some (q, 0 ∷ 0 ∷ 0 ∷ 0 ∷ 0 ∷ [])) again p h printed
        ≡ some (bad_realloc h' (printed ++ numbers)))
      × (h' q ≡ some numbers)
      × (h' p ≡ none)
      × ((r : ℕ) → r ≢ p → r ≢ q → h' r ≡ h r)
unfolding after_calloc after_free
calloc_ends h p q block printed again apart is =
    let (h₁, stored, own, others) =
      stores_five (update h q (some (0 ∷ 0 ∷ 0 ∷ 0 ∷ 0 ∷ []))) q 0 0 0 0 0 (update-own h q _) in
    let kept : h₁ p ≡ some block = others p apart ∙ ground (arith, apart, is) in
    (
      update h₁ p none,
      bind-some (store_all (update h q (some (0 ∷ 0 ∷ 0 ∷ 0 ∷ 0 ∷ []))) q 0 numbers) h₁ _ _ stored (
          bind-some (print_all h₁ q 5 0) numbers _ _ (prints_five h₁ q own) (
            bind-some (free h₁ p) (update h₁ p none) _ _ (free-there h₁ p block kept) (
              ap (λ r. after_free r q (update h₁ p none) (printed ++ numbers))
                (realloc-gone h₁ p again)))),
      ground (arith, apart, own),
      update-own h₁ p none,
      λ r not_p not_q. ground (arith, not_p, not_q, others r not_q),
    )

-- With a block from malloc(3) for one int and another, of five zeros, from calloc(3),
-- `memorymanagement` stores and prints 10 and 1 to 5 without a fault, and then passes the first
-- block, which it has freed, to realloc(3), whatever that would answer. At this point the second
-- block holds 1 to 5, and no other block is allocated. Without the second block it exits with a
-- failure and has freed all it had, and without the first it exits with a failure.
pub memorymanagement_lem :
    (p q : ℕ) (block : List ℕ) (again other : Answer)
    → 0 < length block
    → p ≢ q
    → ((h : Heap) × (memorymanagement (some (p, block)) (some (q, 0 ∷ 0 ∷ 0 ∷ 0 ∷ 0 ∷ [])) again
          ≡ some (bad_realloc h (10 ∷ 1 ∷ 2 ∷ 3 ∷ 4 ∷ 5 ∷ [])))
        × (h q ≡ some (1 ∷ 2 ∷ 3 ∷ 4 ∷ 5 ∷ []))
        × (h p ≡ none)
        × ((r : ℕ) → r ≢ q → h r ≡ none))
      × ((h : Heap) × (memorymanagement (some (p, block)) none again ≡ some (exit_failure h))
          × ((r : ℕ) → h r ≡ none))
      × (memorymanagement none other again ≡ some (exit_failure no_blocks))
unfolding memorymanagement
memorymanagement_lem p q [] again other h apart = absurd (omega (arith, h))
memorymanagement_lem p q (b ∷ block) again other h apart =
    let h₀ = update no_blocks p (some (b ∷ block)) in
    let (h₂, ends, own, gone, others) =
      calloc_ends (update h₀ p (some (10 ∷ block))) p q (10 ∷ block) (10 ∷ []) again apart
        (update-own h₀ p (some (10 ∷ block))) in
    (
      (
        h₂,
        starts p b block (some (q, 0 ∷ 0 ∷ 0 ∷ 0 ∷ 0 ∷ [])) again ∙ ends,
        own,
        gone,
        λ r not_q. elim (ℕ_discrete r p) [
          | yes e ↦ ap h₂ e ∙ gone
          | no n ↦ others r n not_q ∙ ground (arith, n)
        ],
      ),
      freed p (b ∷ block) again h,
      refl,
    )
