-- ===== src/PollServer/Table.antt =====
-- The array of `struct pollfd` of TelnetServerPollingFileDescriptorsWithUnixStreamStreamSockets.c.
use c_basics.Prelude.{
  ℕ, suc, ◌-◌, ◌*◌, Option, none, some, List, map, ltb, ◌==◌, if◌then◌else◌, length, get_elem?, set,
  take, ◌>>=◌,
}

-- `struct pollfd`; the two masks are bit sets.
pub record PollFd : Type 0 where
  pub fd : ℕ
  pub events : ℕ
  pub revents : ℕ

abbrev pub pollin : ℕ
pollin = 1

-- `pollFileDescriptors`, `fd_count` and `fd_size` of `telnetServerWithPolling`.
pub record Table : Type 0 where
  pub slots : List PollFd
  pub fd_count : ℕ
  pub fd_size : ℕ

-- The connections in the table, in the order of the slots.
abbrev pub active : Table → List ℕ
active t = map (λ p. p.fd) (take t.fd_count t.slots)

-- The writes at the end of `add_to_pfds`, which leave `revents` as it is; `none` is a write out of
-- bounds.
unfoldable pub put_last : Table → ℕ → Option Table
put_last t new_fd = do
  p ← get_elem? t.slots t.fd_count
  some (record t {
    slots = set t.slots t.fd_count (record p { fd = new_fd; events = pollin });
    fd_count = suc t.fd_count;
  })

-- `realloc` is the library's; `none` is its NULL, which the code writes through.
unfoldable pub add_to_pfds : (List PollFd → ℕ → Option (List PollFd)) → Table → ℕ → Option Table
unfolding put_last
add_to_pfds realloc t new_fd =
    if t.fd_count == t.fd_size
    then (do
      grown ← realloc t.slots (t.fd_size * 2)
      put_last (record t { slots = grown; fd_size = t.fd_size * 2 }) new_fd)
    else put_last t new_fd

-- The last slot is copied over slot `i`; `none` is an access out of bounds.
unfoldable pub del_pfds : Table → ℕ → Option Table
del_pfds t i =
    if ltb i (length t.slots)
    then (do
      p ← (if t.fd_count == 0 then none else get_elem? t.slots (t.fd_count - 1))
      some (record t { slots = set t.slots i p; fd_count = t.fd_count - 1 }))
    else none
