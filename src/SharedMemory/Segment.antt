-- ===== src/SharedMemory/Segment.antt =====
-- `shared_memory` of UnixSharedMemory.c. The parent waits for its child before it reads.
use c_basics.Prelude.{
  ℕ, ◌-◌, Bool, true, false, ◌&&◌, Option, none, some, List, [], ◌∷◌, ◌++◌, ◌==◌, if◌then◌else◌,
}
use c_basics.SelectServer.Text.{store, c_string}

-- The segment: its bytes, how many processes have it attached, and whether IPC_RMID was accepted.
-- It is gone once nobody has it attached after that.
pub record Segment : Type 0 where
  pub content : List ℕ
  pub attached : ℕ
  pub removed : Bool

abbrev pub is_gone : Segment → Bool
is_gone s = s.removed && s.attached == 0

-- The answers of shmctl(2) with IPC_RMID and of shmdt(2) in one process.
pub record Answers : Type 0 where
  pub shmctl : Bool
  pub shmdt : Bool

-- The end of both branches. A failure of shmctl(2) or shmdt(2) ends the process, which detaches the
-- segment as shmdt(2) does: the segment, and whether the process succeeds.
unfoldable pub remove : Answers → Segment → Segment × Bool
remove a s =
    if a.shmctl
    then (record s { removed = true; attached = s.attached - 1 }, a.shmdt)
    else (record s { attached = s.attached - 1 }, false)

-- An exit before fork(2) has made a child, with the segment that is left, if there is one; or the
-- text that the parent prints, whether it succeeds, and the segment; or an access outside of it.
pub data Outcome : Type 0 where
  exit_failure : Option Segment → Outcome
  printed : List ℕ → Bool → Segment → Outcome
  faulted : Outcome

-- The parent after wait(2).
unfoldable pub parent : Answers → Segment → Outcome
unfolding remove
parent a s = elim (c_string s.content) [
  | none ↦ faulted
  | some text ↦ let (left, ok) = remove a s in printed text ok left
]

-- After fork(2): sprintf(3) of the child into the segment, its end, and the parent.
unfoldable pub child_then_parent : List ℕ → Answers → Answers → Segment → Outcome
unfolding parent remove
child_then_parent text of_child of_parent s = elim (store s.content (text ++ (0 ∷ []))) [
  | none ↦ faulted
  | some written ↦ parent of_parent (remove of_child (record s { content = written })).0
]

-- The arguments: the text; whether ftok(3) succeeds; the bytes of the segment of shmget(2), or none
-- for its error; whether shmat(2) and fork(2) succeed; and the answers to the child and to the
-- parent.
unfoldable pub shared_memory :
    List ℕ → Bool → Option (List ℕ) → Bool → Bool → Answers → Answers → Outcome
unfolding child_then_parent
shared_memory text ftok none shmat fork of_child of_parent = exit_failure none
shared_memory text ftok (some bytes) shmat fork of_child of_parent =
    if ftok
    then (if shmat
        then (if fork
            then child_then_parent text of_child of_parent
                (record { content = bytes; attached = 2; removed = false })
            else exit_failure (some (record { content = bytes; attached = 0; removed = false })))
        else exit_failure (some (record { content = bytes; attached = 0; removed = false })))
    else exit_failure none
