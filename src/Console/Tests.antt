-- ===== src/Console/Tests.antt =====
-- A byte 255 in the input, the array of the program, and the numbers 10 and 15.
use c_basics.Prelude.{◌≡◌, refl, none, [], ◌∷◌, ◌++◌}
use c_basics.Console.Pushback.{hello, put_char_and_unget}
use c_basics.Console.Elements.{pointer_arithmetic, print_same, print_each}
use c_basics.Console.Bits.{bitwiseoperations}

up_to_255 :
    put_char_and_unget 8 (10 ∷ []) (104 ∷ 255 ∷ 106 ∷ [])
    ≡ hello ++ (10 ∷ b'3' ∷ b'2' ∷ b'1' ∷ 104 ∷ [])
unfolding put_char_and_unget
up_to_255 = refl

outside : pointer_arithmetic (1 ∷ 2 ∷ []) ≡ none
unfolding pointer_arithmetic print_same print_each
outside = refl

bits : bitwiseoperations ≡ 10 ∷ 327680 ∷ 0 ∷ 5 ∷ 15 ∷ 5 ∷ 4294967285 ∷ []
unfolding bitwiseoperations
bits = refl
