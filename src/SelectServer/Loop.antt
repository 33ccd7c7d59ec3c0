-- ===== src/SelectServer/Loop.antt =====
-- `telnetservermain`: its state, the body of the walk over the descriptors and a turn of its loop.
use c_basics.Prelude.{
  ℕ, zero, suc, ◌+◌, ◌-◌, ◌%◌, ◌^◌, Bool, true, false, not, ◌&&◌, Option, none, some, List, [], ◌∷◌,
  ◌++◌, ltb, leb, ◌==◌, if◌then◌else◌, length, take, ◌>>=◌,
}
use c_basics.Kernel.{Recv, failed, got}
use c_basics.SelectServer.Text.{
  store, c_string, decimal, user, joined_text, left_text, zeros, sprintf,
}

abbrev pub buffer_size : ℕ
buffer_size = 1024

-- What an fd_set holds; FD_SET and FD_ISSET beyond it are faults.
abbrev pub fd_setsize : ℕ
fd_setsize = 1024

-- `master_set`, `fd_max`, `buffer` and `server_message`.
pub record State : Type 0 where
  pub master : ℕ → Bool
  pub fd_max : ℕ
  pub buffer : List ℕ
  pub server_message : List ℕ

pub data Event : Type 0 where
  sent : ℕ → List ℕ → Event
  closed : ℕ → Event

-- FD_SET and FD_CLR.
abbrev pub mark : (ℕ → Bool) → ℕ → Bool → ℕ → Bool
mark fds n b j = if n == j then b else fds j

-- The loops over `j`, from `j` on for `left` rounds. A failed send(2) is reported and ignored.
unfoldable pub broadcast : (ℕ → Bool) → ℕ → ℕ → List ℕ → ℕ → ℕ → List Event
broadcast master listener sender message zero j = []
broadcast master listener sender message (suc left) j =
    let rest = broadcast master listener sender message left (suc j) in
    if master j && (not (j == listener) && not (j == sender)) then sent j message ∷ rest else rest

-- From 0 to `fd_max`.
unfoldable pub to_all : State → ℕ → ℕ → List ℕ → List Event
unfolding broadcast
to_all s listener sender message = broadcast s.master listener sender message (suc s.fd_max) 0

-- The first `n` bytes of a piece of memory; `none` is a read past its end.
unfoldable pub first_bytes : ℕ → List ℕ → Option (List ℕ)
first_bytes n memory = if leb n (length memory) then some (take n memory) else none

-- A new connection: it joins the set, and the others get all 1024 bytes of `server_message`.
unfoldable pub greet : ℕ → State → ℕ → Option (State × List Event)
greet listener s new_fd =
    if ltb new_fd fd_setsize
    then (do
      message ← sprintf s.server_message (user ++ (decimal new_fd ++ joined_text))
      let s' = record s {
        master = mark s.master new_fd true;
        fd_max = if ltb s.fd_max new_fd then new_fd else s.fd_max;
        server_message = message;
      }
      some (s', to_all s' listener new_fd message))
    else none

-- A client that has hung up: the others get the text up to its NUL.
unfoldable pub say_goodbye : ℕ → State → ℕ → Option (State × List Event)
say_goodbye listener s i = do
  message ← sprintf s.server_message (user ++ (decimal i ++ left_text))
  text ← c_string message
  let s' = record s { master = mark s.master i false; server_message = message }
  some (s', to_all s listener i text ++ (closed i ∷ []))

-- A message, or an error of recv(2): `bytes_received` is a size_t, so -1 is 2 ^ 64 - 1 and passes
-- for a length. `prepend_string` has ten bytes.
unfoldable pub pass_on : ℕ → State → ℕ → ℕ → Option (State × List Event)
pass_on listener s i bytes_received = do
  message ← c_string s.buffer
  prepend_string ← sprintf (zeros 10) (user ++ (decimal i ++ (58 ∷ [])))
  prefix ← c_string prepend_string
  buffer ← sprintf s.buffer (prefix ++ (32 ∷ message))
  out ← first_bytes ((bytes_received + 10) % 2 ^ 64) buffer
  let s' = record s { buffer = buffer }
  some (s', to_all s' listener i out)

-- recv(2) has put its bytes into the buffer.
unfoldable pub serve_client : ℕ → State → ℕ → Recv → Option (State × List Event)
serve_client listener s i failed = pass_on listener s i (2 ^ 64 - 1)
serve_client listener s i (got []) = say_goodbye listener s i
serve_client listener s i (got (b ∷ bs)) = do
  buffer ← store s.buffer (b ∷ bs)
  pass_on listener (record s { buffer = buffer }) i (length (b ∷ bs))

unfoldable pub serve_listener : ℕ → State → Option ℕ → Option (State × List Event)
serve_listener listener s none = some (s, [])
serve_listener listener s (some new_fd) = greet listener s new_fd

-- The answers of one turn: of accept(2), and of recv(2) on each descriptor.
pub record Answers : Type 0 where
  pub accept : Option ℕ
  pub recv : ℕ → Recv

-- The body of the loop over `i`. It begins with FD_ISSET of `i`.
unfoldable pub visit : Answers → (ℕ → Bool) → ℕ → State → ℕ → Option (State × List Event)
visit a select_set listener s i =
    if ltb i fd_setsize
    then (if select_set i
        then (if i == listener
            then serve_listener listener s a.accept
            else serve_client listener s i (a.recv i))
        else some (s, []))
    else none

-- The loop over `i`, up to `fd_max + 1`, with as many rounds left as there are numbers from `i` on
-- below 1024. At 1024 the loop is done, or FD_ISSET is a fault, so that it needs no more rounds.
unfoldable pub walk : Answers → (ℕ → Bool) → ℕ → ℕ → State → ℕ → Option (State × List Event)
walk a select_set listener zero s i = if leb i (s.fd_max + 1) then none else some (s, [])
walk a select_set listener (suc fuel) s i =
    if leb i (s.fd_max + 1)
    then (do
      (s', now) ← visit a select_set listener s i
      (s'', later) ← walk a select_set listener fuel s' (suc i)
      some (s'', now ++ later))
    else some (s, [])

-- The answer of select(2).
pub data Select : Type 0 where
  select_failed timed_out : Select
  ready : (ℕ → Bool) → Select

pub data Outcome : Type 0 where
  exited faulted : Outcome
  running : State → List Event → Outcome

unfoldable pub finish : Option (State × List Event) → Outcome
finish none = faulted
finish (some (s, events)) = running s events

-- Both memsets at the start of a turn.
abbrev pub cleared : State → State
cleared s = record s { buffer = zeros buffer_size; server_message = zeros buffer_size }

-- One turn of the endless loop, with both buffers cleared first.
unfoldable pub turn : Select → Answers → ℕ → State → Outcome
unfolding finish
turn answer a listener s = elim answer [
  | select_failed ↦ exited
  | timed_out ↦ running (cleared s) []
  | ready select_set ↦ finish (walk a select_set listener fd_setsize (cleared s) 0)
]

-- The state before the first turn. (The buffers are cleared again there.)
unfoldable pub first_state : ℕ → State
first_state listener = record {
  master = mark (λ j. false) listener true;
  fd_max = listener;
  buffer = zeros buffer_size;
  server_message = zeros buffer_size;
}
