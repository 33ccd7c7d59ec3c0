-- ===== src/Console.antt =====
-- The programs on the console: putCharAndUnget of Putchar&Ungetc.c, pointerArithmetic of
-- PointerArithmetic.c and bitwiseoperations of BitwiseOperations.c.
pub mod Pushback
pub mod Elements
pub mod Bits
mod Tests
