-- ===== src/Sockets/SelectListener.antt =====
-- `get_listener_socketFd` of UnixStreamTelnetServerWithSelect.c.
use c_basics.Prelude.{
  ℕ, ◌≡◌, refl, Bool, true, false, ◌&&◌, Option, none, some, List, [], ◌∷◌, ◌++◌, arith,
  if◌then◌else◌,
}
use c_basics.Sockets.Walk.{
  Entry, Descriptor, unset, fd, Call, opened, closed, freed, next, stop, die, Attempt, End,
  exhausted, broke, died, Walked, walk, opens, closes, Result, exit_failure, returned, listen_on,
  no_socket,
}
use c_basics.Sockets.First.{
  Leaves, Balanced, IsTidy, Found, Found-returned, has_socket, Outcome, at, past, dead,
  walk-Outcome,
}

unfoldable pub attempt : Entry → Option ℕ → Attempt
attempt e none = no_socket
attempt e (some n) =
    if e.setsockopt
    then (if e.bind
        then record { calls = opened n ∷ []; descriptor = fd n; verdict = stop }
        else record { calls = opened n ∷ closed n ∷ []; descriptor = fd n; verdict = next })
    else record { calls = opened n ∷ []; descriptor = fd n; verdict = die }

-- After the loop.
unfoldable pub settle : (List Call → Descriptor → Bool) → Walked → End → Result
settle listen w exhausted = exit_failure w.calls
settle listen w (broke e) = listen_on listen (w.calls ++ (freed ∷ [])) w.descriptor
settle listen w died = exit_failure w.calls

-- The argument is the list of getaddrinfo(3), which may be NULL, or none for its error.
unfoldable pub get_listener_socket_fd :
    (List Call → Descriptor → Bool) → Option (List Entry) → Result
unfolding settle attempt
get_listener_socket_fd listen none = exit_failure []
get_listener_socket_fd listen (some []) = exit_failure []
get_listener_socket_fd listen (some (e ∷ es)) =
    let w = walk (λ e. attempt e e.socket) unset (e ∷ es) in settle listen w w.ended

try : Entry → Attempt
try e = attempt e e.socket

-- An entry serves if socket(2), setsockopt(2) and bind(2) succeed on it.
abbrev pub binds_reusing : Entry → Bool
binds_reusing e = has_socket e.socket && (e.setsockopt && e.bind)

attempt-tidy :
    (e : Entry) (o : Option ℕ)
    → ((attempt e o).verdict ≡ next
        → (has_socket o && (e.setsockopt && e.bind) ≡ false) × Balanced (attempt e o).calls)
      × ((attempt e o).verdict ≡ stop
          → (has_socket o && (e.setsockopt && e.bind) ≡ true)
            × ((n : ℕ) × (o ≡ some n)
                × ((attempt e o).descriptor ≡ fd n)
                × Leaves n (attempt e o).calls))
unfolding attempt opens closes
attempt-tidy e none = (λ h. (refl, λ d. refl), λ h. cc)
attempt-tidy e (some n) = (
  λ h. (ground arith, λ d. ground arith),
  λ h. (ground arith, (n, refl, ground arith, λ d. ground arith)),
)

try-IsTidy : IsTidy binds_reusing try
unfolding try
try-IsTidy = record {
  next_unusable = λ e h. ((attempt-tidy e e.socket).0 h).0;
  next_closes = λ e h. ((attempt-tidy e e.socket).0 h).1;
  stop_usable = λ e h. ((attempt-tidy e e.socket).1 h).0;
  stop_leaves = λ e h. ((attempt-tidy e e.socket).1 h).1;
}

settle-returned :
    (listen : List Call → Descriptor → Bool) (es : List Entry) (w : Walked) (cs : List Call)
    (d : Descriptor)
    → Outcome binds_reusing try try-IsTidy es w
    → settle listen w w.ended ≡ returned cs d
    → Found binds_reusing es cs d
unfolding settle
settle-returned listen es w cs d (at x end f) e =
    Found-returned binds_reusing listen es w cs d f (rw end at e)
settle-returned listen es w cs d (past end all b) e =
    let bad : exit_failure w.calls ≡ returned cs d = rw end at e in cc
settle-returned listen es w cs d (dead end) e =
    let bad : exit_failure w.calls ≡ returned cs d = rw end at e in cc

-- A listener that the function returns is the descriptor of the first entry on which socket(2),
-- setsockopt(2) and bind(2) succeed, and it is the only descriptor that the function leaves open.
pub get_listener_socket_fd-Found :
    (listen : List Call → Descriptor → Bool) (es : List Entry) (cs : List Call) (d : Descriptor)
    → get_listener_socket_fd listen (some es) ≡ returned cs d
    → Found binds_reusing es cs d
unfolding get_listener_socket_fd try
get_listener_socket_fd-Found listen [] cs d e = cc
get_listener_socket_fd-Found listen (x ∷ es) cs d e =
    settle-returned listen (x ∷ es) (walk try unset (x ∷ es)) cs d
      (walk-Outcome binds_reusing try try-IsTidy unset (x ∷ es)) e
