-- ===== src/Fifo/Processes.antt =====
-- The two processes of `fifo` of FIFO.c: a step is one system call, or one half of open(2), which
-- waits for the other end to be opened.
use c_basics.Prelude.{
  ℕ, ◌+◌, ◌-◌, Bool, true, false, Option, none, some, List, [], ◌∷◌, ◌++◌, ◌==◌, if◌then◌else◌,
  take, drop,
}
use c_basics.Threads.Pair.{Pair}
use c_basics.SelectServer.Text.{c_string}

-- The reader: before open(2), in it, before its read(2), before its printf(3) with the bytes read;
-- ended with what it has printed, or none where no NUL ends it.
pub data Parent : Type 0 where
  opening : Parent
  waiting : Parent
  reading : Parent
  printing : List ℕ → Parent
  exited : Option (List ℕ) → Parent

-- The writer: before open(2), in it, before its write(2), before its close(2); ended, or killed by
-- SIGPIPE.
pub data Child : Type 0 where
  arriving awaiting writing closing ended killed : Child

-- The bytes in the FIFO, how many descriptors of its two ends are open, and whether each has ever
-- been.
pub record Channel : Type 0 where
  pub content : List ℕ
  pub readers : ℕ
  pub writers : ℕ
  pub reader_came : Bool
  pub writer_came : Bool

-- The parent: 1024 is the size of its buffer.
unfoldable pub parent_step : Child → Parent → Channel → Option (Parent × Channel)
parent_step c opening f = some (waiting, record f { readers = f.readers + 1; reader_came = true })
parent_step c waiting f = if f.writer_came then some (reading, f) else none
parent_step c reading f = elim f.content [
  | b ∷ bs ↦ some (printing (take 1024 (b ∷ bs)), record f { content = drop 1024 (b ∷ bs) })
  | [] ↦ if f.writers == 0 then some (printing [], f) else none
]
parent_step c (printing bytes) f =
    some (exited (c_string bytes), record f { readers = f.readers - 1 })
parent_step c (exited text) f = none

-- The child: `message` is what its write(2) is passed.
unfoldable pub child_step : List ℕ → Child → Channel → Option (Child × Channel)
child_step message arriving f =
    some (awaiting, record f { writers = f.writers + 1; writer_came = true })
child_step message awaiting f = if f.reader_came then some (writing, f) else none
child_step message writing f =
    if f.readers == 0
    then some (killed, record f { writers = f.writers - 1 })
    else some (closing, record f { content = f.content ++ message })
child_step message closing f = some (ended, record f { writers = f.writers - 1 })
child_step message ended f = none
child_step message killed f = none

-- The FIFO before it is opened.
abbrev pub unopened : Channel
unopened = record {
  content = [];
  readers = 0;
  writers = 0;
  reader_came = false;
  writer_came = false;
}

abbrev pub forked : Pair Parent Child Channel
forked = record { parent = opening; child = arriving; shared = unopened }

-- What fork(2) leaves: both processes, or after -1 the reader alone, which is not told from a
-- parent.
pub data Start : Type 0 where
  exit_failure : Start
  running : Pair Parent Child Channel → Start
  reader_alone : Parent → Channel → Start

-- `fifo`, with whether the file is there, mkfifo(3) makes it, and fork(2) succeeds.
unfoldable pub fifo : Bool → Bool → Bool → Start
fifo is_there made fork =
    if is_there
    then (if fork then running forked else reader_alone opening unopened)
    else (if made
        then (if fork then running forked else reader_alone opening unopened)
        else exit_failure)

-- write(2) is passed the text, its NUL, and the byte behind the array.
abbrev pub message : List ℕ → ℕ → List ℕ
message text past = text ++ (0 ∷ past ∷ [])
