-- ===== src/FileWatch/Events.antt =====
-- UnixFileEventWatching.c: the walk over the events of inotify(7).
use c_basics.Prelude.{
  ℕ, zero, suc, ◌+◌, ◌/◌, ◌%◌, ◌^◌, Bool, true, false, ◌&&◌, Option, none, some, List, [], ◌∷◌,
  ◌++◌, ltb, ◌==◌, if◌then◌else◌, ◌>>=◌,
}

-- `struct inotify_event` without its descriptor, cookie and name.
pub record Event : Type 0 where
  pub mask : ℕ
  pub len : ℕ

-- The texts that `notificationMessage` points to.
pub data Message : Type 0 where
  created deleted accessed written modified moved : Message

-- `mask & (1 << k)`.
abbrev pub has : ℕ → ℕ → Bool
has mask k = mask / 2 ^ k % 2 == 1

abbrev pub select : Bool → Message → Option Message → Option Message
select b m old = if b then some m else old

-- The six tests, with IN_CREATE 0x100, IN_DELETE 0x200, IN_ACCESS 1, IN_CLOSE_WRITE 8, IN_MODIFY 2
-- and IN_MOVE_SELF 0x800. `none` is the variable before it is set.
unfoldable pub notification : ℕ → Option Message → Option Message
notification mask m = select (has mask 11) moved (
    select (has mask 1) modified (
      select (has mask 3) written (
        select (has mask 0) accessed
          (select (has mask 9) deleted (select (has mask 8) created m)))))

-- The walk over the buffer from `offset` on, with the events that stand in it by their offsets:
-- what it prints and the last message. `none` is the use of the variable before it is set, or no
-- fuel left.
unfoldable pub walk :
    (ℕ → Event) → ℕ → ℕ → ℕ → Option Message → Option (List Message × Option Message)
walk buffer read_length zero offset m = none
walk buffer read_length (suc fuel) offset m = elim (ltb offset read_length) [
  | false ↦ some ([], m)
  | true ↦ do
    now ← notification (buffer offset).mask m
    (later, last) ← walk buffer read_length fuel (offset + (16 + (buffer offset).len)) (some now)
    some (now ∷ later, last)
]

-- What read(2) answers: -1, or a length, with the buffer.
pub data Read : Type 0 where
  read_failed : Read
  read_some : ℕ → (ℕ → Event) → Read

pub data Outcome : Type 0 where
  exited : List Message → Outcome
  watching : List Message → Option Message → Outcome
  faulted : Outcome

-- The endless loop over the answers of read(2). An event has sixteen bytes at least, so that the
-- length is fuel enough.
unfoldable pub watch : List Message → Option Message → List Read → Outcome
unfolding walk
watch printed m [] = watching printed m
watch printed m (read_failed ∷ reads) = exited printed
watch printed m (read_some read_length buffer ∷ reads) =
    elim (walk buffer read_length (suc read_length) 0 m) [
      | none ↦ faulted
      | some (now, last) ↦ watch (printed ++ now) last reads
    ]

-- The last of the tokens of strtok(3) is the base path, or all of argv[1] where there are none.
unfoldable pub base_path : List ℕ → List (List ℕ) → List ℕ
base_path path [] = path
base_path path (token ∷ tokens) = base_path token tokens

-- `unixFileEventWatching`: argc, argv[1], its tokens, the answers of inotify_init and
-- inotify_add_watch, and those of read(2). The base path is only printed.
unfoldable pub unix_file_event_watching :
    ℕ → List ℕ → List (List ℕ) → Bool → Bool → List Read → List ℕ × Outcome
unfolding watch base_path
unix_file_event_watching argc path tokens init add_watch reads =
    if ltb argc 2
    then ([], exited [])
    else (base_path path tokens, if init && add_watch then watch [] none reads else exited [])
