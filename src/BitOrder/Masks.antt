-- ===== src/BitOrder/Masks.antt =====
-- `bitmasks` of Bitmasks.c.
use c_basics.Prelude.{
  ℕ, ◌+◌, ◌-◌, ◌*◌, ◌/◌, ◌%◌, ◌^◌, ◌<◌, ◌≡◌, refl, Bool, false, List, [], ◌∷◌, arith, bit_and,
}
use Prim.Native.Nat.{bit_or}
use c_basics.BitOrder.Bytes.{turned_down, none_turned_down, same, eq_of_same}

-- The numbers printed, for any byte in place of 0b00100000. `~1` and `~(1 << 2)` keep 0xfe and 0xfb
-- of a byte.
unfoldable pub bitmasks : ℕ → List ℕ
bitmasks binary =
    let with_two = bit_or binary (2 ^ 2) in
    let with_both = bit_or with_two (2 ^ 0) in
    let cleared = bit_and with_both 0xfe in
    let cleared_twice = bit_and cleared 0xfb in
    bit_and binary (2 ^ 5)
    ∷ with_two
    ∷ with_both
    ∷ cleared
    ∷ cleared_twice
    ∷ bit_and cleared_twice (0 * 2 ^ 5)
    ∷ []

-- A byte with one of its bits set, and with one cleared.
abbrev pub bit : ℕ → ℕ → ℕ
bit k x = x / 2 ^ k % 2

abbrev pub set_bit : ℕ → ℕ → ℕ
set_bit k x = x + (1 - bit k x) * 2 ^ k

abbrev pub clear_bit : ℕ → ℕ → ℕ
clear_bit k x = x - bit k x * 2 ^ k

abbrev pub expected : ℕ → List ℕ
expected x =
    bit 5 x * 32
    ∷ set_bit 2 x
    ∷ set_bit 0 (set_bit 2 x)
    ∷ clear_bit 0 (set_bit 2 x)
    ∷ clear_bit 2 (clear_bit 0 x)
    ∷ 0
    ∷ []

as_expected : ℕ → Bool
as_expected x = same (bitmasks x) (expected x)

expected_table : turned_down as_expected 256 0 ≡ false
unfolding turned_down as_expected bitmasks same
expected_table = refl

-- For every byte bitmasks prints 32 or 0 as its bit 5 is set or not; the byte with bit 2 set, with
-- bits 2 and 0 set, with bit 2 set and bit 0 cleared, and with both cleared; and then 0, as the
-- last operation clears the whole byte and not bit 5 alone.
pub bitmasks-prints : (x : ℕ) → x < 256 → bitmasks x ≡ expected x
unfolding as_expected
bitmasks-prints x h =
    eq_of_same (bitmasks x) (expected x)
      (none_turned_down as_expected 256 0 x expected_table (omega arith) (omega (arith, h)))
