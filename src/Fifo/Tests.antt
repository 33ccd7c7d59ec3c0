-- ===== src/Fifo/Tests.antt =====
-- The two processes of FIFO.c with a text of two bytes.
use c_basics.Prelude.{ℕ, ◌≤◌, ◌≡◌, ◌⊎◌, refl, List, [], ◌∷◌, arith}
use c_basics.SelectServer.Text.{c_string}
use c_basics.Threads.Pair.{Runs, begun, by_parent, by_child, CanStep}
use c_basics.Fifo.Processes.{parent_step, child_step, forked, message}
use c_basics.Fifo.Ends.{finished, fifo_prints}

abbrev hi : List ℕ
hi = 104 ∷ 105 ∷ []

-- The parent opens first and reads last.
whole_run : Runs parent_step (child_step (message hi 7)) forked 8 (finished hi)
unfolding parent_step child_step finished c_string
whole_run =
    let opened = by_parent (by_child (by_parent begun refl) refl) refl in
    let written = by_child (by_child (by_child opened refl) refl) refl in
    by_parent (by_parent written refl) refl

fifo_prints_example :
    (8 ≤ 8)
    × ((finished hi ≡ finished hi) ⊎ CanStep parent_step (child_step (message hi 7)) (finished hi))
fifo_prints_example = fifo_prints hi 7 8 (finished hi) (ground arith) (omega arith) whole_run
