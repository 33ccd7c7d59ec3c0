-- ===== src/SharedMemory/Removed.antt =====
-- What UnixSharedMemory.c prints and leaves.
use c_basics.Prelude.{
  ℕ, ◌<◌, ◌≡◌, refl, ap, ◌∙◌, Bool, true, false, ◌||◌, some, List, [], ◌∷◌, ◌++◌, arith, length,
  append_assoc, length-append,
}
use c_basics.SelectServer.Text.{c_string}
use c_basics.SelectServer.Memory.{NulFree, c_string-NulFree, store-over}
use c_basics.SharedMemory.Segment.{
  Segment, is_gone, Answers, remove, exit_failure, printed, parent, child_then_parent,
  shared_memory,
}

parent-prints :
    (text rest : List ℕ) (a : Answers) (s : Segment)
    → NulFree text
    → s.content ≡ text ++ (0 ∷ rest)
    → parent a s ≡ printed text (remove a s).1 (remove a s).0
unfolding parent
parent-prints text rest a s free e =
    rw (ap c_string e ∙ c_string-NulFree text rest free, parent) refl

remove-content : (a : Answers) (s : Segment) → (remove a s).0.content ≡ s.content
unfolding remove
remove-content a s = ground arith

removed-both :
    (of_child of_parent : Answers) (bytes : List ℕ)
    → let s =
        (remove of_parent
          (remove of_child (record { content = bytes; attached = 2; removed = false })).0).0 in
      is_gone s ≡ (of_child.shmctl || of_parent.shmctl)
unfolding remove
removed-both of_child of_parent bytes = ground arith

child_then_parent-prints :
    (text bytes : List ℕ) (of_child of_parent : Answers)
    → NulFree text
    → length text < length bytes
    → (ok : Bool) × (s : Segment) × (child_then_parent text of_child of_parent
          (record { content = bytes; attached = 2; removed = false })
        ≡ printed text ok s)
      × (is_gone s ≡ (of_child.shmctl || of_parent.shmctl))
unfolding child_then_parent
child_then_parent-prints text bytes of_child of_parent free short =
    let (rest, e, l) =
      store-over bytes (text ++ (0 ∷ [])) (omega (arith, length-append text (0 ∷ []), short)) in
    let written = (text ++ (0 ∷ [])) ++ rest in
    let before : Segment = record { content = written; attached = 2; removed = false } in
    let after = (remove of_child before).0 in
    (
      (remove of_parent after).1,
      (remove of_parent after).0,
      rw (e, child_then_parent)
          (parent-prints text rest of_parent after free
            (remove-content of_child before ∙ append_assoc text (0 ∷ []) rest)),
      removed-both of_child of_parent written,
    )

-- The parent prints the text that its child left in the segment, and after both have ended the
-- segment is gone exactly if one of them had its IPC_RMID accepted. Where fork(2) fails it stays,
-- attached to nobody. Assumed: a text without NUL that is shorter than the segment.
pub shared_memory-prints :
    (text bytes : List ℕ) (of_child of_parent : Answers)
    → NulFree text
    → length text < length bytes
    → ((ok : Bool) × (s : Segment) × (shared_memory text true
            (some bytes)
            true
            true
            of_child
            of_parent
          ≡ printed text ok s)
        × (is_gone s ≡ (of_child.shmctl || of_parent.shmctl)))
      × ((s : Segment) × (shared_memory text true (some bytes) true false of_child of_parent
            ≡ exit_failure (some s))
          × (is_gone s ≡ false)
          × (s.attached ≡ 0))
unfolding shared_memory
shared_memory-prints text bytes of_child of_parent free short = (
  child_then_parent-prints text bytes of_child of_parent free short,
  (record { content = bytes; attached = 0; removed = false }, refl, refl, refl),
)
