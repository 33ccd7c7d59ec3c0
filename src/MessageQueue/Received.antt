-- ===== src/MessageQueue/Received.antt =====
-- What the parent of SystemVMessageQueues.c prints.
use c_basics.Prelude.{
  ℕ, ◌≤◌, ◌<◌, ◌≡◌, ◌≢◌, refl, ap, ◌∙◌, Bool, true, false, none, some, List, [], ◌∷◌, ◌++◌, arith,
  if◌then◌else◌, length, append_assoc, length-append,
}
use c_basics.SelectServer.Text.{c_string, store}
use c_basics.SelectServer.Memory.{NulFree, c_string-NulFree, store-over}
use c_basics.MessageQueue.Processes.{
  Message, Queue, message_size, blocked, exit_success, faulted, msgrcv, child, print, parent,
  message_queues,
}

-- No message of type 1.
abbrev pub HasNone : Queue → Type 0
HasNone [] = Unit
HasNone (m ∷ queue) = (m.mtype ≢ 1) × HasNone queue

msgrcv-none : (queue : Queue) → HasNone queue → msgrcv queue ≡ none
unfolding msgrcv
msgrcv-none [] h = refl
msgrcv-none (m ∷ queue) h = ground (arith, msgrcv-none queue h.1)

msgrcv-first :
    (before after : Queue) (m : Message)
    → HasNone before
    → m.mtype ≡ 1
    → msgrcv (before ++ (m ∷ after)) ≡ some (m, before ++ after)
unfolding msgrcv
msgrcv-first [] after m h one = ground (arith, one)
msgrcv-first (b ∷ before) after m h one = ground (arith, msgrcv-first before after m h.1 one)

-- What the child leaves in the queue: its message has all bytes of mtext and those behind it.
child-sends :
    (memory beyond text : List ℕ) (accepted : Bool) (queue : Queue)
    → length text < length memory
    → (filled : List ℕ) × (child memory beyond text accepted queue
        ≡ some (
            if accepted
            then queue ++ (record { mtype = 1; mtext = filled ++ beyond } ∷ [])
            else queue))
      × (length filled ≡ length memory)
unfolding child
child-sends memory beyond text accepted queue room =
    let (rest, e, l) =
      store-over memory (text ++ (0 ∷ [])) (omega (arith, length-append text (0 ∷ []), room)) in
    ((text ++ (0 ∷ [])) ++ rest, rw e refl, l)

store-past : (memory bytes : List ℕ) → length memory < length bytes → store memory bytes ≡ none
unfolding store
store-past [] [] h = absurd (omega arith)
store-past (m ∷ memory) [] h = absurd (omega arith)
store-past [] (b ∷ bytes) h = refl
store-past (m ∷ memory) (b ∷ bytes) h = rw (store-past memory bytes (omega (arith, h))) refl

-- The oldest message of type 1 is printed up to its first NUL.
parent-prints :
    (memory text rest : List ℕ) (before after : Queue) (m : Message)
    → HasNone before
    → m.mtype ≡ 1
    → m.mtext ≡ text ++ (0 ∷ rest)
    → NulFree text
    → length m.mtext ≤ 1024
    → length memory ≡ 1024
    → parent memory (before ++ (m ∷ after)) ≡ exit_success text
unfolding parent print
parent-prints memory text rest before after m none_before one form free short size =
    let (more, e, l) = store-over memory m.mtext (omega (arith, short, size)) in
    let printed : c_string (m.mtext ++ more) ≡ some text =
      ap c_string (ap (λ t. t ++ more) form ∙ append_assoc text (0 ∷ rest) more)
      ∙ c_string-NulFree text (rest ++ more) free in
    ground (arith, msgrcv-first before after m none_before one, e, printed, short)

-- A message that is longer than mtext and not longer than the size passed.
parent-overruns :
    (memory : List ℕ) (before after : Queue) (m : Message)
    → HasNone before
    → m.mtype ≡ 1
    → 1024 < length m.mtext
    → length m.mtext ≤ message_size
    → length memory ≡ 1024
    → parent memory (before ++ (m ∷ after)) ≡ faulted
unfolding parent print
parent-overruns memory before after m none_before one long short size =
    let past = store-past memory m.mtext (omega (arith, long, size)) in
    ground (arith, msgrcv-first before after m none_before one, past, short)

-- With a child whose message is made.
queues-sent :
    (memory beyond text : List ℕ) (accepted : Bool) (queue : Queue)
    → length text < length memory
    → (filled : List ℕ) × (message_queues memory beyond text (some queue) true accepted
        ≡ parent memory (
            if accepted
            then queue ++ (record { mtype = 1; mtext = filled ++ beyond } ∷ [])
            else queue))
      × (length filled ≡ length memory)
unfolding message_queues
queues-sent memory beyond text accepted queue room =
    let (filled, e, l) = child-sends memory beyond text accepted queue room in
    (filled, rw (e, message_queues) refl, l)

waits : (memory : List ℕ) (queue : Queue) → HasNone queue → parent memory queue ≡ blocked queue
unfolding parent
waits memory queue h = rw (msgrcv-none queue h, parent) refl

queues-old :
    (memory beyond text old rest : List ℕ) (accepted : Bool) (before after : Queue) (m : Message)
    → length memory ≡ 1024
    → length text < 1024
    → HasNone before
    → m.mtype ≡ 1
    → m.mtext ≡ old ++ (0 ∷ rest)
    → NulFree old
    → length m.mtext ≤ 1024
    → message_queues memory beyond text (some (before ++ (m ∷ after))) true accepted
      ≡ exit_success old
queues-old memory beyond text old rest false before after m size short none_before one form free
      fits =
    (queues-sent memory beyond text false (before ++ (m ∷ after)) (omega (arith, size, short))).1
    ∙ parent-prints memory old rest before after m none_before one form free fits size
queues-old memory beyond text old rest true before after m size short none_before one form free
      fits =
    let (filled, e, l) =
      queues-sent memory beyond text true (before ++ (m ∷ after)) (omega (arith, size, short)) in
    let new : Message = record { mtype = 1; mtext = filled ++ beyond } in
    e
    ∙ ap (parent memory) (append_assoc before (m ∷ after) (new ∷ []))
    ∙ parent-prints memory old rest before (after ++ (new ∷ [])) m none_before one form free fits
        size

queues-new :
    (memory beyond text : List ℕ) (before : Queue)
    → length memory ≡ 1024
    → length beyond ≡ 8
    → length text < 1024
    → HasNone before
    → message_queues memory beyond text (some before) true true ≡ faulted
queues-new memory beyond text before size eight short none_before =
    let (filled, e, l) = queues-sent memory beyond text true before (omega (arith, size, short)) in
    let both = length-append filled beyond in
    e
    ∙ parent-overruns memory before [] (record { mtype = 1; mtext = filled ++ beyond }) none_before
        refl (omega (arith, l, size, eight, both)) (omega (arith, l, size, eight, both)) size

-- Before the fork the queue may hold messages of earlier runs. Where some of them have type 1 and
-- the oldest of these fits mtext, the parent prints its text in place of its child's, whether that
-- was accepted or not. Where none has type 1, a message of the child that msgsnd(2) accepts makes
-- the parent write past the end of its struct, since it has 1032 bytes; with one that is refused
-- the parent waits for ever, with the queue as it was. Assumed: mtext of 1024 bytes, with eight
-- behind it, and a child's text that fits mtext.
pub message_queues-prints :
    (memory beyond text old rest : List ℕ) (accepted : Bool) (before after : Queue) (m : Message)
    → length memory ≡ 1024
    → length beyond ≡ 8
    → length text < 1024
    → HasNone before
    → m.mtype ≡ 1
    → m.mtext ≡ old ++ (0 ∷ rest)
    → NulFree old
    → length m.mtext ≤ 1024
    → (message_queues memory beyond text (some (before ++ (m ∷ after))) true accepted
        ≡ exit_success old)
      × (message_queues memory beyond text (some before) true true ≡ faulted)
      × (message_queues memory beyond text (some before) true false ≡ blocked before)
message_queues-prints memory beyond text old rest accepted before after m size eight short
      none_before one form free fits =
    (
      queues-old memory beyond text old rest accepted before after m size short none_before one form
          free fits,
      queues-new memory beyond text before size eight short none_before,
      (queues-sent memory beyond text false before (omega (arith, size, short))).1
          ∙ waits memory before none_before,
    )
