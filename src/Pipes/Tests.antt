-- ===== src/Pipes/Tests.antt =====
-- The parent and the child of Pipes.c with a message of one byte.
use c_basics.Prelude.{ℕ, ◌+◌, ◌*◌, ◌≤◌, ◌≡◌, ◌⊎◌, refl, List, [], ◌∷◌, length}
use c_basics.Threads.Pair.{Runs, begun, by_parent, by_child, CanStep}
use c_basics.Pipes.Processes.{child_step, reaped, parent_step, forked}
use c_basics.Pipes.Runs.{finished, pipes_prints}

abbrev one_byte : List ℕ
one_byte = 80 ∷ []

-- The child waits at first; then both go on in turn.
whole_run : Runs (parent_step one_byte) child_step forked 10 (finished one_byte)
unfolding child_step parent_step reaped finished
whole_run =
    let opened = by_child (by_parent begun refl) refl in
    let written = by_parent (by_parent opened refl) refl in
    let read = by_child (by_child (by_child written refl) refl) refl in
    by_parent (by_child (by_child read refl) refl) refl

pipes_prints_example :
    (10 ≤ 2 * length one_byte + 8)
    × ((finished one_byte ≡ finished one_byte)
        ⊎ CanStep (parent_step one_byte) child_step (finished one_byte))
pipes_prints_example = pipes_prints one_byte 10 (finished one_byte) whole_run
