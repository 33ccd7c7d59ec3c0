-- ===== src/Residence/Tests.antt =====
-- The residence program at concrete inputs: pages of 4096 bytes.
use c_basics.Prelude.{ℕ, ◌-◌, Bool, true, Option, none, some, List, [], ◌∷◌}
use c_basics.Residence.Pages.{Kernel}

abbrev kernel : Kernel
kernel = record {
  page_size = some 4096;
  mmap = λ n. true;
  malloc = true;
  mincore_before = some (1 ∷ 1 ∷ 0 ∷ []);
  mincore_after = some (1 ∷ 1 ∷ 1 ∷ []);
  mlock = λ j n. true;
}

-- An argument of one digit.
abbrev get_digit : List ℕ → Option ℕ
get_digit (d ∷ []) = some (d - 48)
get_digit _ = none

abbrev four : ℕ
four = 4

abbrev one_page : List (ℕ × Bool)
one_page = (0, true) ∷ []
