-- ===== src/Heap/Filled.antt =====
-- The family of MemoryManagement.c, whatever its memory held before.
use c_basics.Prelude.{
  ℕ, suc, ◌-◌, ◌*◌, ◌^◌, ap, leb, ◌>>=◌, ◌≤◌, ◌<◌, ◌≡◌, none, some, arith, ◌==◌, if◌then◌else◌,
  bind-some,
}
use c_basics.Heap.Family.{Person, Family, assign, set_child, set_parent, fill_old, fill_one, square}

-- After `k` rounds: the ages are squares, the first three have the last person written as their
-- parent, and the others have the third person as their child.
pub record Filled (k : ℕ) (family : Family) : Type 0 where
  pub ages : (j : ℕ) → j < k → (family j).age ≡ j * j
  pub young : (j : ℕ) → j < 3 → j < k → (family j).child ≡ none
  pub parents : (j : ℕ) → j < 3 → 4 ≤ k → (family j).parent ≡ some (k - 1)
  pub old : (j : ℕ) → 3 ≤ j → j < k → ((family j).parent ≡ none) × ((family j).child ≡ some 2)

-- What a write leaves.
abbrev pub assigned : ℕ → (Person → Person) → Family → Family
assigned i f family j = if i == j then f (family j) else family j

assign-assigned :
    (size i : ℕ) (f : Person → Person) (family : Family)
    → i < size
    → assign size i f family ≡ some (assigned i f family)
unfolding assign
assign-assigned size i f family lt = ground (arith, lt)

abbrev pub aged : ℕ → Family → Family
aged i = assigned i (λ p. record p { age = i * i })

-- What the two branches leave.
abbrev pub filled_young : ℕ → Family → Family
filled_young i family = assigned i (set_child none) (aged i family)

abbrev pub with_child : ℕ → Family → Family
with_child i family =
    assigned i (set_child (some 2))
      (assigned i (set_child (some 1)) (assigned i (set_child (some 0)) family))

abbrev pub with_parent : ℕ → Family → Family
with_parent i family =
    assigned 2 (set_parent (some i))
      (assigned 1 (set_parent (some i)) (assigned 0 (set_parent (some i)) family))

abbrev pub filled_old : ℕ → Family → Family
filled_old i family = with_parent i (assigned i (set_parent none) (with_child i (aged i family)))

fill_old-eq :
    (size i : ℕ) (family : Family)
    → i < size
    → 3 ≤ i
    → fill_old size i family
      ≡ some (with_parent i (assigned i (set_parent none) (with_child i family)))
unfolding fill_old
fill_old-eq size i family lt h =
    bind-some _ _ _ _ (assign-assigned size i (set_child (some 0)) family lt) (
      bind-some _ _ _ _ (assign-assigned size i (set_child (some 1)) _ lt) (
        bind-some _ _ _ _ (assign-assigned size i (set_child (some 2)) _ lt) (
          bind-some _ _ _ _ (assign-assigned size i (set_parent none) _ lt) (
            bind-some _ _ _ _ (assign-assigned size 0 (set_parent (some i)) _ (omega arith)) (
              bind-some _ _ _ _ (assign-assigned size 1 (set_parent (some i)) _ (omega arith))
                (assign-assigned size 2 (set_parent (some i)) _ (omega arith)))))))

-- 46340 is the last number with a square that fits.
square-small : (i : ℕ) → i < 46341 → square i ≡ some (i * i)
unfolding square
square-small i h = let fits : i * i < 2 ^ 31 = grind arith in ground (arith, fits)

square-large : (i : ℕ) → i ≡ 46341 → square i ≡ none
unfolding square
square-large i h = ap square h

pub fill_one-young :
    (size i : ℕ) (family : Family)
    → i < size
    → i < 3
    → i < 46341
    → fill_one size i family ≡ some (filled_young i family)
unfolding fill_one
fill_one-young size i family lt h fits = bind-some (square i) (i * i) _ _ (square-small i fits) (
    bind-some (assign size i (λ p. record p { age = i * i }) family) (aged i family) _ _
      (assign-assigned size i (λ p. record p { age = i * i }) family lt)
      (ground (arith, assign-assigned size i (set_child none) (aged i family) lt)))

pub fill_one-old :
    (size i : ℕ) (family : Family)
    → i < size
    → 3 ≤ i
    → i < 46341
    → fill_one size i family ≡ some (filled_old i family)
unfolding fill_one
fill_one-old size i family lt h fits = bind-some (square i) (i * i) _ _ (square-small i fits) (
    bind-some (assign size i (λ p. record p { age = i * i }) family) (aged i family) _ _
      (assign-assigned size i (λ p. record p { age = i * i }) family lt)
      (ground (arith, fill_old-eq size i (aged i family) lt h)))

pub fill_one-overflow : (size i : ℕ) (family : Family) → i ≡ 46341 → fill_one size i family ≡ none
unfolding fill_one
fill_one-overflow size i family e =
    ap
      (λ o. o >>= (λ i_squared.
        assign size i (λ p. record p { age = i_squared }) family >>= (λ aged.
          if leb 3 i then fill_old size i aged else assign size i (set_child none) aged)))
      (square-large i e)

pub young-Filled :
    (i : ℕ) (family : Family) → i < 3 → Filled i family → Filled (suc i) (filled_young i family)
young-Filled i family lt h = record {
  ages = λ j below. ground (arith, h.ages j);
  young = λ j small below. ground (arith, h.young j);
  parents = λ j small big. absurd (omega arith);
  old = λ j large below. absurd (omega arith);
}

pub old-Filled :
    (i : ℕ) (family : Family) → 3 ≤ i → Filled i family → Filled (suc i) (filled_old i family)
old-Filled i family le h = record {
  ages = λ j below. ground (arith, h.ages j);
  young = λ j small below. ground (arith, h.young j);
  parents = λ j small big. ground arith;
  old = λ j large below. ground (arith, h.old j);
}
