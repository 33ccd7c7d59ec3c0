-- ===== src/BitOrder/Bytes.antt =====
-- Tests of every byte by evaluation.
use c_basics.Prelude.{
  ℕ, zero, suc, ◌+◌, ◌≤◌, ◌<◌, ◌≡◌, refl, Bool, true, false, if◌then◌else◌, ◌&&◌, List, [], ◌∷◌,
  arith, ◌==◌,
}

-- The bytes from `from` on, `left` of them, that the test turns down: none, or some.
unfoldable pub turned_down : (ℕ → Bool) → (left from : ℕ) → Bool
turned_down test zero from = false
turned_down test (suc left) from = if test from then turned_down test left (suc from) else true

pub none_turned_down :
    (test : ℕ → Bool) (left from byte : ℕ)
    → turned_down test left from ≡ false
    → from ≤ byte
    → byte < from + left
    → test byte ≡ true
unfolding turned_down
none_turned_down test zero from byte none low high = absurd (omega arith)
none_turned_down test (suc left) from byte none low high =
    grind (arith, none_turned_down test left (suc from) byte)

-- Whether two lists of numbers are the same.
unfoldable pub same : List ℕ → List ℕ → Bool
same [] [] = true
same (x ∷ xs) (y ∷ ys) = x == y && same xs ys
same _ _ = false

pub eq_of_same : (xs ys : List ℕ) → same xs ys ≡ true → xs ≡ ys
unfolding same
eq_of_same [] [] h = refl
eq_of_same [] (y ∷ ys) h = cc
eq_of_same (x ∷ xs) [] h = cc
eq_of_same (x ∷ xs) (y ∷ ys) h = ground (arith, h, eq_of_same xs ys)
