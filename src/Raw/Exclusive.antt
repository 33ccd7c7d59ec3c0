-- ===== src/Raw/Exclusive.antt =====
-- The XOR checksum of UnixRawNetworkLayerSocketServer.c, over pointers to bytes.
use c_basics.Prelude.{
  ℕ, zero, suc, ◌+◌, ◌≤◌, ◌≡◌, ◌≢◌, refl, ap, Bool, Option, none, some, List, [], ◌∷◌, arith, ltb,
  ◌==◌, if◌then◌else◌, length, get_elem?, ◌>>=◌,
}
use Prim.Native.Nat.{bit_xor}

-- A char, which is signed, as an operand of `^=` with a uint16_t.
unfoldable pub widened : ℕ → ℕ
widened b = if ltb b 128 then b else 65280 + b

-- The memory that a pointer leads to begins with its first byte; `none` is an access out of bounds.
unfoldable pub first_byte : List (List ℕ) → ℕ → Option ℕ
first_byte pointers i = get_elem? pointers i >>= (λ bytes. get_elem? bytes 0)

-- `calculate_checksum`, from `i` on for `left` rounds: `data` is an array of pointers.
unfoldable pub checksum_from : List (List ℕ) → ℕ → ℕ → ℕ → Option ℕ
unfolding first_byte widened
checksum_from pointers zero i checksum = some checksum
checksum_from pointers (suc left) i checksum = do
  byte ← first_byte pointers i
  checksum_from pointers left (suc i) (bit_xor checksum (widened byte))

unfoldable pub calculate_checksum : List (List ℕ) → ℕ → Option ℕ
unfolding checksum_from
calculate_checksum pointers length = checksum_from pointers length 0 0

-- `compare_checksum`, true for CHECKSUM_GOOD. `&data` is the address of the one local pointer.
unfoldable pub compare_checksum : List ℕ → ℕ → ℕ → Option Bool
unfolding calculate_checksum
compare_checksum bytes length received_checksum = do
  new_checksum ← calculate_checksum (bytes ∷ []) length
  some (bit_xor new_checksum received_checksum == 0)

calculate_checksum-long :
    (bytes : List ℕ) (n : ℕ) → calculate_checksum (bytes ∷ []) (suc (suc n)) ≡ none
unfolding calculate_checksum
calculate_checksum-long [] n = refl
calculate_checksum-long (b ∷ bytes) n = refl

compare_checksum-long :
    (bytes : List ℕ) (length received_checksum : ℕ)
    → 2 ≤ length
    → compare_checksum bytes length received_checksum ≡ none
unfolding compare_checksum
compare_checksum-long bytes zero received_checksum h = absurd (omega arith)
compare_checksum-long bytes (suc zero) received_checksum h = absurd (omega arith)
compare_checksum-long bytes (suc (suc n)) received_checksum h =
    ap (λ o. o >>= (λ c. some (bit_xor c received_checksum == 0))) (calculate_checksum-long bytes n)

-- With a length of two or more compare_checksum reads past the one pointer that it has; with a
-- length of one it looks at the first byte alone, so what stands behind it never counts.
pub compare_checksum-first :
    (b : ℕ) (bytes others : List ℕ) (length received_checksum : ℕ)
    → 2 ≤ length
    → (compare_checksum (b ∷ bytes) length received_checksum ≡ none)
      × (compare_checksum (b ∷ bytes) 1 received_checksum ≢ none)
      × (compare_checksum (b ∷ bytes) 1 received_checksum
          ≡ compare_checksum (b ∷ others) 1 received_checksum)
unfolding compare_checksum
compare_checksum-first b bytes others length received_checksum long =
    (compare_checksum-long (b ∷ bytes) length received_checksum long, (λ e. cc), refl)
