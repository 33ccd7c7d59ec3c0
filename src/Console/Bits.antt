-- ===== src/Console/Bits.antt =====
-- `bitwiseoperations` of BitwiseOperations.c.
use c_basics.Prelude.{ℕ, ◌-◌, ◌*◌, ◌/◌, ◌%◌, ◌^◌, List, [], ◌∷◌, bit_and, bit_xor}
use Prim.Native.Nat.{bit_or}

-- The seven values that are printed for `a` and `b`, unsigned ints of 32 bits.
unfoldable pub bitwise : ℕ → ℕ → List ℕ
bitwise a b =
    bit_and a b
    ∷ ((a * 2 ^ b) % 2 ^ 32)
    ∷ (a / 2 ^ b)
    ∷ (a / 2)
    ∷ bit_or a b
    ∷ bit_xor a b
    ∷ (2 ^ 32 - 1 - a)
    ∷ []

unfoldable pub bitwiseoperations : List ℕ
unfolding bitwise
bitwiseoperations = bitwise 10 15
