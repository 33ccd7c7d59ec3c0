-- ===== src/Sockets/StreamServer.antt =====
-- `server` of UnixStreamSocketServer.c.
use c_basics.Prelude.{
  ℕ, zero, suc, ◌+◌, ◌≡◌, ◌≢◌, refl, Bool, true, false, not, ◌&&◌, Option, none, some, List, [],
  ◌∷◌, ◌++◌, arith, ◌==◌, if◌then◌else◌,
}
use c_basics.Prelude.{replicate}
use c_basics.Sockets.Walk.{
  Entry, Descriptor, unset, fd, Call, opened, closed, freed, next, stop, die, Attempt, End,
  exhausted, broke, died, Walked, follow, walk, opens, closes, Result, exit_failure, listen_on,
  no_socket,
}

-- A failed bind(2) goes on without close(2).
unfoldable pub attempt : Entry → Option ℕ → Attempt
attempt e none = no_socket
attempt e (some n) =
    if e.setsockopt
    then (if e.bind
        then record { calls = opened n ∷ []; descriptor = fd n; verdict = stop }
        else record { calls = opened n ∷ []; descriptor = fd n; verdict = next })
    else record { calls = opened n ∷ []; descriptor = fd n; verdict = die }

unfoldable pub server_try : Entry → Attempt
unfolding attempt
server_try e = attempt e e.socket

-- After the loop.
unfoldable pub settle : (List Call → Descriptor → Bool) → Walked → End → Result
settle listen w exhausted = exit_failure (w.calls ++ (freed ∷ []))
settle listen w (broke e) = listen_on listen (w.calls ++ (freed ∷ [])) w.descriptor
settle listen w died = exit_failure w.calls

-- `server` up to its listening socket: the argument is the list of getaddrinfo(3), or none for its
-- error, on which the function returns EXIT_FAILURE.
unfoldable pub server_setup : (List Call → Descriptor → Bool) → Option (List Entry) → Result
unfolding settle server_try
server_setup listen none = exit_failure []
server_setup listen (some es) = let w = walk server_try unset es in settle listen w w.ended

-- What is left of `server` after fork(2), in the child (true) and in the parent, when send(2)
-- succeeds or fails.
unfoldable pub after_fork : ℕ → ℕ → Bool → Bool → List Call
after_fork sockfd new_fd true true = closed sockfd ∷ closed new_fd ∷ closed sockfd ∷ []
after_fork sockfd new_fd true false = closed sockfd ∷ closed new_fd ∷ []
after_fork sockfd new_fd false sends = closed sockfd ∷ []

-- The loop on accept(2), over its answers: none is -1, on which the loop goes on. The result is
-- what the process does once a connection is there; the loop is left whatever comes after.
unfoldable pub accept_loop : ℕ → Bool → Bool → List (Option ℕ) → Option (List Call)
unfolding after_fork
accept_loop sockfd in_child sends [] = none
accept_loop sockfd in_child sends (none ∷ answers) = accept_loop sockfd in_child sends answers
accept_loop sockfd in_child sends (some new_fd ∷ answers) =
    some (opened new_fd ∷ after_fork sockfd new_fd in_child sends)

-- How often the walk makes the descriptor `d`: at each entry up to the first that binds or fails in
-- setsockopt(2).
pub made : ℕ → List Entry → ℕ
made d [] = 0
made d (e ∷ es) = elim e.socket [
  | none ↦ made d es
  | some n ↦ (if n == d then 1 else 0) + (if e.setsockopt && not e.bind then made d es else 0)
]

attempt-made :
    (d : ℕ) (e : Entry) (es : List Entry) (o : Option ℕ) (w : Walked)
    → e.socket ≡ o
    → (opens d w.calls ≡ made d es) × (closes d w.calls ≡ 0)
    → let a = attempt e o in
      let f = follow e a.calls a.descriptor a.verdict w in
      (opens d f.calls ≡ made d (e ∷ es)) × (closes d f.calls ≡ 0)
unfolding attempt opens closes made
attempt-made d e es none w q h = rw (q, made) h
attempt-made d e es (some n) w q h = rw (q, made) (ground arith)

-- The walk of the stream server closes nothing: every descriptor that it makes is still open when
-- it ends, also those of the entries on which bind(2) failed.
pub server_walk-leaks :
    (d : ℕ) (v : Descriptor) (es : List Entry)
    → (opens d (walk server_try v es).calls ≡ made d es)
      × (closes d (walk server_try v es).calls ≡ 0)
unfolding walk server_try made opens closes
server_walk-leaks d v [] = (refl, refl)
server_walk-leaks d v (e ∷ es) =
    attempt-made d e es e.socket (walk server_try (server_try e).descriptor es) refl
      (server_walk-leaks d (server_try e).descriptor es)

-- The server handles one connection and is done: failed accepts before it change nothing, whatever
-- follows it is not looked at, and the parent leaves with the listener closed and the connection
-- still open in its process.
accept_loop-once :
    (sockfd new_fd : ℕ) (sends : Bool) (failures : ℕ) (later : List (Option ℕ))
    → sockfd ≢ new_fd
    → (cs : List Call) × (accept_loop sockfd false sends
          (replicate failures none ++ (some new_fd ∷ later))
        ≡ some cs)
      × (opens new_fd cs ≡ 1)
      × (closes new_fd cs ≡ 0)
      × (closes sockfd cs ≡ 1)
unfolding accept_loop after_fork opens closes
accept_loop-once sockfd new_fd sends zero later ne =
    (opened new_fd ∷ closed sockfd ∷ [], refl, ground arith, ground arith, ground arith)
accept_loop-once sockfd new_fd sends (suc failures) later ne =
    accept_loop-once sockfd new_fd sends failures later ne
