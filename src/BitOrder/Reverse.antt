-- ===== src/BitOrder/Reverse.antt =====
-- EndiannessConversion.c: the bits of a byte in the other order.
use c_basics.Prelude.{
  ℕ, zero, suc, ◌+◌, ◌-◌, ◌*◌, ◌/◌, ◌%◌, ◌^◌, ◌<◌, ◌≡◌, refl, Bool, false, ◌&&◌, List, [], ◌∷◌,
  arith, ltb, ◌==◌,
}
use Prim.Native.Nat.{bit_and, bit_or}
use mathlib.Core.List.{reverse}
use c_basics.BitOrder.Bytes.{turned_down, none_turned_down}

-- The loop over `i`, for `left` rounds from `i` on: `bigEndian |= ((littleEndian >> i) & 1) << (7 -
-- i)`.
unfoldable pub convert_from : ℕ → ℕ → ℕ → ℕ → ℕ
convert_from zero i little_endian big_endian = big_endian
convert_from (suc left) i little_endian big_endian =
    convert_from left (suc i) little_endian
      (bit_or big_endian (bit_and (little_endian / 2 ^ i) 1 * 2 ^ (7 - i)))

-- `endiannessConversion`, for any byte in place of 0b11010101.
unfoldable pub endianness_conversion : ℕ → ℕ
unfolding convert_from
endianness_conversion little_endian = convert_from 8 0 little_endian 0

-- The `n` lowest bits of a number, the lowest first, and the number that has given bits.
unfoldable pub bits : ℕ → ℕ → List ℕ
bits zero x = []
bits (suc n) x = x % 2 ∷ bits n (x / 2)

unfoldable pub from_bits : List ℕ → ℕ
from_bits [] = 0
from_bits (b ∷ bs) = b + 2 * from_bits bs

reverses : ℕ → Bool
reverses x =
    endianness_conversion x == from_bits (reverse (bits 8 x))
    && (endianness_conversion (endianness_conversion x) == x && ltb (endianness_conversion x) 256)

reverses_table : turned_down reverses 256 0 ≡ false
unfolding turned_down reverses endianness_conversion from_bits bits
reverses_table = refl

-- For every byte the loop gives the byte whose eight bits are those of the first in reverse order,
-- and done twice it gives the first byte again.
pub endianness_conversion-reverses :
    (x : ℕ)
    → x < 256
    → (endianness_conversion x ≡ from_bits (reverse (bits 8 x)))
      × (endianness_conversion (endianness_conversion x) ≡ x)
      × (endianness_conversion x < 256)
unfolding reverses
endianness_conversion-reverses x h =
    ground (arith, none_turned_down reverses 256 0 x reverses_table (omega arith) (omega arith))
