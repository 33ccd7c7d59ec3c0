-- ===== src/BitOrder/Tests.antt =====
-- 0b11010101 and 171, as in EndiannessConversion.c.
use c_basics.Prelude.{[], ◌∷◌, ◌≡◌, refl}
use c_basics.BitOrder.Reverse.{endianness_conversion}
use c_basics.BitOrder.Masks.{bitmasks}

converted : endianness_conversion 213 ≡ 171
unfolding endianness_conversion
converted = refl

masked : bitmasks 32 ≡ 32 ∷ 36 ∷ 37 ∷ 36 ∷ 32 ∷ 0 ∷ []
unfolding bitmasks
masked = refl
