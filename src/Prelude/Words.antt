-- ===== src/Prelude/Words.antt =====
-- Values of the fixed C widths, kept as natural numbers with the wrap written out.
use Prim.Native.Nat.{ℕ, ◌-◌, ◌%◌, ◌^◌}

abbrev pub u8 : ℕ → ℕ
u8 n = n % 2 ^ 8

abbrev pub u16 : ℕ → ℕ
u16 n = n % 2 ^ 16

abbrev pub u32 : ℕ → ℕ
u32 n = n % 2 ^ 32

-- `~x` on `unsigned int`.
abbrev pub not32 : ℕ → ℕ
not32 n = 2 ^ 32 - 1 - n
