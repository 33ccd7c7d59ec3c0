-- ===== src/PollServer/Round.antt =====
-- The body of the endless loop of `telnetServerWithPolling`: one poll(2) and the walk over the
-- table.
use c_basics.Prelude.{
  ℕ, zero, suc, ◌+◌, not, ◌&&◌, Option, none, some, List, [], ◌∷◌, ◌++◌, bit_and, ltb, ◌==◌,
  if◌then◌else◌, get_elem?, ◌>>=◌,
}
use c_basics.Kernel.{Recv, failed, got}
use c_basics.PollServer.Table.{PollFd, Table, active, pollin, add_to_pfds, del_pfds}

-- What the server does that others can see.
pub data Event : Type 0 where
  accept_failed : Event
  joined : ℕ → Event
  hung_up : ℕ → Event
  recv_failed : ℕ → Event
  closed : ℕ → Event
  sent : ℕ → List ℕ → Event

-- The answers of the kernel in one walk: to accept(2), to recv(2) at each slot, and the memory that
-- realloc(3) hands out.
pub record Answers : Type 0 where
  pub accept : Option ℕ
  pub recv : ℕ → Recv
  pub realloc : List PollFd → ℕ → Option (List PollFd)

-- The inner loop over `j`, over the descriptors in use. A failed send(2) is reported and ignored.
unfoldable pub broadcast : ℕ → ℕ → List ℕ → List ℕ → List Event
broadcast listener sender message [] = []
broadcast listener sender message (destination ∷ rest) =
    let others = broadcast listener sender message rest in
    if not (destination == listener) && not (destination == sender)
    then sent destination message ∷ others
    else others

-- A client's slot with POLLIN set.
unfoldable pub serve_client : Answers → ℕ → Table → ℕ → ℕ → Recv → Option (Table × List Event)
serve_client a listener t i sender failed = do
  t' ← del_pfds t i
  some (t', recv_failed sender ∷ closed sender ∷ [])
serve_client a listener t i sender (got []) = do
  t' ← del_pfds t i
  some (t', hung_up sender ∷ closed sender ∷ [])
serve_client a listener t i sender (got (b ∷ bs)) =
    some (t, broadcast listener sender (b ∷ bs) (active t))

-- The listener's slot with POLLIN set.
unfoldable pub serve_listener : Answers → Table → Option ℕ → Option (Table × List Event)
serve_listener a t none = some (t, accept_failed ∷ [])
serve_listener a t (some new_fd) = do
  t' ← add_to_pfds a.realloc t new_fd
  some (t', joined new_fd ∷ [])

unfoldable pub handle : Answers → ℕ → ℕ → Table → PollFd → Option (Table × List Event)
handle a listener i t p =
    if bit_and p.revents pollin == 0
    then some (t, [])
    else if p.fd == listener
    then serve_listener a t a.accept
    else serve_client a listener t i p.fd (a.recv i)

-- The body of the loop over `i`, on slot `i`.
unfoldable pub visit : Answers → ℕ → ℕ → Table → Option (Table × List Event)
visit a listener i t = do p ← get_elem? t.slots i; handle a listener i t p

-- The loop over `i`, whose bound `fd_count` the body changes. `none` is a fault, or no fuel left.
unfoldable pub walk : Answers → ℕ → ℕ → ℕ → Table → Option (Table × List Event)
walk a listener zero i t = none
walk a listener (suc fuel) i t =
    if ltb i t.fd_count
    then (do
      (t', now) ← visit a listener i t
      (t'', later) ← walk a listener fuel (suc i) t'
      some (t'', now ++ later))
    else some (t, [])

-- The start of `telnetServerWithPolling`: the memory of malloc(3), or its NULL, with the listener
-- in slot 0.
unfoldable pub install : ℕ → List PollFd → Option Table
install listener [] = none
install listener (p ∷ rest) = some (record {
  slots = record p { fd = listener; events = pollin } ∷ rest;
  fd_count = 1;
  fd_size = 5;
})

unfoldable pub start : (ℕ → Option (List PollFd)) → ℕ → Option Table
start malloc listener = malloc 5 >>= install listener

pub data Outcome : Type 0 where
  exited : Outcome
  faulted : Outcome
  running : Table → List Event → Outcome

unfoldable pub finish : Option (Table × List Event) → Outcome
finish none = faulted
finish (some (t, events)) = running t events

-- One turn of the endless loop. `poll` answers -1 (`none`) or the slots with `revents` filled in.
-- At most one connection joins in a turn, so the walk ends within `fd_count + 2` tests of its
-- bound.
unfoldable pub turn : (List PollFd → ℕ → Option (List PollFd)) → Answers → ℕ → Table → Outcome
unfolding finish
turn poll a listener t = elim (poll t.slots t.fd_size) [
  | none ↦ exited
  | some slots ↦ finish (walk a listener (t.fd_count + 2) 0 (record t { slots = slots }))
]
