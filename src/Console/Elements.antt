-- ===== src/Console/Elements.antt =====
-- `pointerArithmetic` of PointerArithmetic.c.
use c_basics.Prelude.{
  ℕ, zero, suc, ◌+◌, ◌≡◌, ◌<◌, ◌≤◌, refl, sym, ap, ◌∙◌, Option, none, some, List, [], ◌∷◌, ◌++◌,
  arith, length, get_elem?, replicate, ◌>>=◌, bind-none, append_assoc, length-append, Option-cases,
  inl, inr,
}

-- The first loop prints `*ptr`, and `ptr` stays where it is; none is a read outside the array.
unfoldable pub print_same : ℕ → List ℕ → ℕ → Option (List ℕ)
print_same zero array ptr = some []
print_same (suc n) array ptr = do
  value ← get_elem? array ptr
  values ← print_same n array ptr
  some (value ∷ values)

-- The second loop prints `*(ptr + i)`, with `n` rounds left.
unfoldable pub print_each : ℕ → List ℕ → ℕ → ℕ → Option (List ℕ)
print_each zero array ptr i = some []
print_each (suc n) array ptr i = do
  value ← get_elem? array (ptr + i)
  values ← print_each n array ptr (suc i)
  some (value ∷ values)

-- The values that are printed for an array; the loops make ten rounds.
unfoldable pub pointer_arithmetic : List ℕ → Option (List ℕ)
pointer_arithmetic array = do
  before ← print_same 10 array 0
  first ← get_elem? array 0
  after ← print_each 10 array 0 0
  some (before ++ (first ∷ after))

print_same_lem :
    (n : ℕ) (a : ℕ) (array : List ℕ) → print_same n (a ∷ array) 0 ≡ some (replicate n a)
unfolding print_same
print_same_lem zero a array = refl
print_same_lem (suc n) a array = rw (print_same_lem n a array) refl

get_elem?-append : (xs ys : List ℕ) (y : ℕ) → get_elem? (xs ++ (y ∷ ys)) (length xs) ≡ some y
get_elem?-append [] ys y = refl
get_elem?-append (x ∷ xs) ys y = get_elem?-append xs ys y

print_each-suc :
    (n : ℕ) (array : List ℕ) (i a : ℕ) (values : List ℕ)
    → get_elem? array i ≡ some a
    → print_each n array 0 (suc i) ≡ some values
    → print_each (suc n) array 0 i ≡ some (a ∷ values)
unfolding print_each
print_each-suc n array i a values e f =
    let at : get_elem? array (0 + i) ≡ some a = ap (get_elem? array) (omega arith) ∙ e in
    rw (at, f, print_each) refl

print_each_lem :
    (done left : List ℕ) (i : ℕ)
    → i ≡ length done
    → print_each (length left) (done ++ left) 0 i ≡ some left
unfolding print_each
print_each_lem done [] i h = refl
print_each_lem done (a ∷ left) i h =
    let same : (done ++ (a ∷ [])) ++ left ≡ done ++ (a ∷ left) = append_assoc done (a ∷ []) left in
    print_each-suc (length left) (done ++ (a ∷ left)) i a left
      (ap (get_elem? (done ++ (a ∷ left))) h ∙ get_elem?-append done left a)
      (ap (λ xs. print_each (length left) xs 0 (suc i)) (sym same)
        ∙ print_each_lem (done ++ (a ∷ [])) left (suc i)
            (omega (arith, length-append done (a ∷ []), h)))

get_elem?-inside : (xs : List ℕ) (i a : ℕ) → get_elem? xs i ≡ some a → i < length xs
get_elem?-inside [] i a e = cc
get_elem?-inside (x ∷ xs) zero a e = omega arith
get_elem?-inside (x ∷ xs) (suc i) a e = omega (arith, get_elem?-inside xs i a e)

print_each_outside :
    (n : ℕ) (array : List ℕ) (i : ℕ)
    → length array < i + n
    → i ≤ length array
    → print_each n array 0 i ≡ none
unfolding print_each
print_each_outside zero array i long h = absurd (omega (arith, long, h))
print_each_outside (suc n) array i long h = elim (Option-cases (get_elem? array (0 + i))) [
  | inl outside ↦ rw (outside, print_each) refl
  | inr (a, at) ↦
      let inside : i < length array =
        get_elem?-inside array i a (ap (get_elem? array) (omega arith) ∙ at) in
      let rest = print_each_outside n array (suc i) (omega (arith, long)) inside in
      rw (at, rest, print_each) refl
]

-- For an array of ten elements the first loop prints the first of them ten times, then it is
-- printed once more, and the second loop prints all ten, in order; with fewer elements something
-- outside the array is read.
pub pointer_arithmetic-prints :
    (a : ℕ) (array short : List ℕ)
    → length array ≡ 9
    → length short < 10
    → (pointer_arithmetic (a ∷ array) ≡ some (replicate 10 a ++ (a ∷ a ∷ array)))
      × (pointer_arithmetic short ≡ none)
unfolding pointer_arithmetic
pointer_arithmetic-prints a array short nine few =
    let each : print_each 10 (a ∷ array) 0 0 ≡ some (a ∷ array) =
      ap (λ n. print_each n (a ∷ array) 0 0) (omega (arith, nine))
      ∙ print_each_lem [] (a ∷ array) 0 refl in
    let outside : print_each 10 short 0 0 ≡ none =
      print_each_outside 10 short 0 (omega (arith, few)) (omega arith) in
    (
      rw (print_same_lem 10 a array, each) refl,
      bind-none (print_same 10 short 0) _
          (λ before. bind-none (get_elem? short 0) _ (λ first. rw outside refl)),
    )
