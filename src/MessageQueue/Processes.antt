-- ===== src/MessageQueue/Processes.antt =====
-- `message_queues` of SystemVMessageQueues.c. The parent waits for its child before it receives, so
-- that the calls have one order.
use c_basics.Prelude.{
  ℕ, Bool, true, false, Option, none, some, List, [], ◌∷◌, ◌++◌, ltb, ◌==◌, if◌then◌else◌, length,
  ◌>>=◌,
}
use c_basics.SelectServer.Text.{store, c_string}

-- A message in the queue: its type and its bytes.
pub record Message : Type 0 where
  pub mtype : ℕ
  pub mtext : List ℕ

abbrev pub Queue : Type 0
Queue = List Message

-- The size that both calls pass, `sizeof message`: the 1024 bytes of mtext and the eight of mtype,
-- though it is to be the size of mtext alone.
abbrev pub message_size : ℕ
message_size = 1032

-- How `message_queues` goes on: after an error of fork(2); in msgrcv(2) for ever, with the queue;
-- ended with what it has printed and the queue removed; a write or a read past the memory.
pub data Outcome : Type 0 where
  exit_failure : Outcome
  blocked : Queue → Outcome
  exit_success : List ℕ → Outcome
  faulted : Outcome

-- msgrcv(2) with the type 1: the first message of this type, and the queue without it.
unfoldable pub msgrcv : Queue → Option (Message × Queue)
msgrcv [] = none
msgrcv (m ∷ queue) = elim (m.mtype == 1) [
  | true ↦ some (m, queue)
  | false ↦ (msgrcv queue >>= λ (found, rest). some (found, m ∷ rest))
]

-- The child: strlcpy(3) into mtext, and msgsnd(2), which sends the eight bytes `beyond` mtext too
-- and is accepted or not.
unfoldable pub child : List ℕ → List ℕ → List ℕ → Bool → Queue → Option Queue
child memory beyond text accepted queue = do
  filled ← store memory (text ++ (0 ∷ []))
  some (if accepted then queue ++ (record { mtype = 1; mtext = filled ++ beyond } ∷ []) else queue)

-- What the parent prints of its memory.
unfoldable pub print : Option (List ℕ) → Outcome
print none = faulted
print (some memory) = elim (c_string memory) [ none ↦ faulted | some text ↦ exit_success text ]

-- The parent after wait(2). A message longer than the size passed stays in the queue, which is
-- removed all the same; one that has this size at most, but more bytes than mtext, is written past
-- the end of the struct.
unfoldable pub parent : List ℕ → Queue → Outcome
unfolding msgrcv print
parent memory queue = elim (msgrcv queue) [
  | none ↦ blocked queue
  | some (m, rest) ↦
      print (if ltb message_size (length m.mtext) then some memory else store memory m.mtext)
]

-- The arguments: the bytes of mtext and those behind it, the text of the child, the queue that
-- msgget(2) finds or makes, or none for its error, and whether fork(2) and msgsnd(2) succeed. With
-- the error all calls on the queue fail, and no answer is tested.
unfoldable pub message_queues : List ℕ → List ℕ → List ℕ → Option Queue → Bool → Bool → Outcome
unfolding child parent print
message_queues memory beyond text found forks accepted = elim forks [
  | false ↦ exit_failure
  | true ↦ elim found [
    | none ↦ print (some memory)
    | some queue ↦ elim (child memory beyond text accepted queue) [
      | none ↦ faulted
      | some sent ↦ parent memory sent
    ]
  ]
]
