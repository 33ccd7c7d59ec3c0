-- ===== src/Sockets/StreamRun.antt =====
-- The whole of `server` of UnixStreamSocketServer.c: its set-up, sigaction(2) and its loop.
use c_basics.Prelude.{
  ℕ, zero, suc, ◌+◌, ◌≡◌, refl, sym, ap, ◌∙◌, inl, inr, Bool, true, false, Option, none, some, List,
  [], ◌∷◌, ◌++◌, arith, ◌==◌, if◌then◌else◌, Bool-cases, Option-cases, replicate, some-injective,
}
use c_basics.Sockets.Walk.{
  Entry, Descriptor, unset, minus_one, fd, Call, opened, closed, freed, exhausted, broke, died,
  Walked, End, walk, opens, closes, Result, exit_failure, returned, listen_on,
}
use c_basics.Sockets.First.{opens-append}
use c_basics.Sockets.StreamServer.{
  server_try, server_setup, settle, accept_loop, after_fork, made, server_walk-leaks,
}

-- The process has failed, waits in accept(2), or has left the loop with a connection, after these
-- calls.
pub data Served : Type 0 where
  fails : List Call → Served
  waits : List Call → Served
  left : List Call → Served

abbrev pub connected : List Call → Option (List Call) → Served
connected calls none = waits calls
connected calls (some more) = left (calls ++ more)

-- accept(2) on what is no descriptor answers -1 for ever.
unfoldable pub serve_on : Bool → Bool → List (Option ℕ) → List Call → Descriptor → Served
serve_on in_child sends answers calls (fd n) =
    connected calls (accept_loop n in_child sends answers)
serve_on in_child sends answers calls unset = waits calls
serve_on in_child sends answers calls minus_one = waits calls

-- From the listening socket on: sigaction(2), which installs the handler of SIGCHLD, and the loop.
unfoldable pub start_serving : Bool → Bool → Bool → List (Option ℕ) → Result → Served
unfolding serve_on
start_serving sigaction in_child sends answers (exit_failure calls) = fails calls
start_serving sigaction in_child sends answers (returned calls d) =
    if sigaction then serve_on in_child sends answers calls d else fails calls

unfoldable pub server :
    (List Call → Descriptor → Bool)
    → Option (List Entry)
    → Bool
    → Bool
    → Bool
    → List (Option ℕ)
    → Served
server listen list sigaction in_child sends answers =
    start_serving sigaction in_child sends answers (server_setup listen list)

accept_loop-left :
    (sockfd : ℕ) (sends : Bool) (answers : List (Option ℕ)) (calls : List Call)
    → accept_loop sockfd false sends answers ≡ some calls
    → (new_fd failures : ℕ) × (later : List (Option ℕ)) × (answers
        ≡ replicate failures none ++ (some new_fd ∷ later))
      × (calls ≡ opened new_fd ∷ closed sockfd ∷ [])
unfolding accept_loop after_fork
accept_loop-left sockfd sends [] calls e = cc
accept_loop-left sockfd sends (none ∷ answers) calls e =
    let (new_fd, failures, later, all, made_calls) =
      accept_loop-left sockfd sends answers calls e in
    (new_fd, suc failures, later, ap (λ xs. none ∷ xs) all, made_calls)
accept_loop-left sockfd sends (some new_fd ∷ answers) calls e =
    (new_fd, zero, answers, refl, sym (some-injective _ _ e))

settle-returned :
    (listen : List Call → Descriptor → Bool) (w : Walked) (end : End) (calls : List Call)
    (d : Descriptor)
    → settle listen w end ≡ returned calls d
    → calls ≡ w.calls ++ (freed ∷ [])
unfolding settle listen_on
settle-returned listen w exhausted calls d e = absurd (ground (arith, e))
settle-returned listen w died calls d e = absurd (ground (arith, e))
settle-returned listen w (broke entry) calls d e =
    elim (Bool-cases (listen (w.calls ++ (freed ∷ [])) w.descriptor)) [
      | inl listens ↦ ground (arith, listens, e)
      | inr deaf ↦ absurd (ground (arith, deaf, e))
    ]

serve_on-left :
    (sends : Bool) (answers : List (Option ℕ)) (before calls : List Call) (d : Descriptor)
    → serve_on false sends answers before d ≡ left calls
    → (sockfd : ℕ) × (more : List Call) × (d ≡ fd sockfd)
      × (accept_loop sockfd false sends answers ≡ some more)
      × (calls ≡ before ++ more)
unfolding serve_on
serve_on-left sends answers before calls unset e = absurd (ground (arith, e))
serve_on-left sends answers before calls minus_one e = absurd (ground (arith, e))
serve_on-left sends answers before calls (fd n) e =
    elim (Option-cases (accept_loop n false sends answers)) [
      | inl none_yet ↦ absurd (ground (arith, none_yet, e))
      | inr (more, accepted) ↦ (n, more, refl, accepted, ground (arith, accepted, e))
    ]

start_serving-left :
    (sigaction sends : Bool) (answers : List (Option ℕ)) (calls : List Call) (r : Result)
    → start_serving sigaction false sends answers r ≡ left calls
    → (before : List Call) × (d : Descriptor) × (r ≡ returned before d)
      × (serve_on false sends answers before d ≡ left calls)
unfolding start_serving
start_serving-left sigaction sends answers calls (exit_failure before) e =
    absurd (ground (arith, e))
start_serving-left true sends answers calls (returned before d) e = (before, d, refl, e)
start_serving-left false sends answers calls (returned before d) e = absurd (ground (arith, e))

-- Where the parent process of the stream server has left its loop, its set-up had returned a
-- listener, and only failed answers of accept(2) came before the connection, whatever would have
-- come after it. It has then opened the sockets of all entries up to the one that it uses, those
-- that bind(2) refused too, and the connection, and has closed the listener once, and nothing else.
pub server-left :
    (listen : List Call → Descriptor → Bool) (list : List Entry) (sigaction sends : Bool)
    (answers : List (Option ℕ)) (calls : List Call)
    → server listen (some list) sigaction false sends answers ≡ left calls
    → (sockfd new_fd failures : ℕ) × (later : List (Option ℕ)) × (before : List Call)
      × (server_setup listen (some list) ≡ returned before (fd sockfd))
      × (answers ≡ replicate failures none ++ (some new_fd ∷ later))
      × ((d : ℕ)
          → (opens d calls ≡ made d list + (if new_fd == d then 1 else 0))
            × (closes d calls ≡ (if sockfd == d then 1 else 0)))
unfolding server server_setup opens closes
server-left listen list sigaction sends answers calls e =
    let w = walk server_try unset list in
    let (before, d, done, serves) =
      start_serving-left sigaction sends answers calls (server_setup listen (some list)) e in
    let (sockfd, more, listener, accepted, all) =
      serve_on-left sends answers before calls d serves in
    let (new_fd, failures, later, came, last) =
      accept_loop-left sockfd sends answers more accepted in
    let first = settle-returned listen w w.ended before d done in
    let whole : calls ≡ (w.calls ++ (freed ∷ [])) ++ (opened new_fd ∷ closed sockfd ∷ []) =
      all ∙ ap (λ xs. xs ++ more) first ∙ ap (λ ys. (w.calls ++ (freed ∷ [])) ++ ys) last in
    (
      sockfd,
      new_fd,
      failures,
      later,
      before,
      done ∙ ap (returned before) listener,
      came,
      λ x.
          let (leak, none_closed) = server_walk-leaks x unset list in
          let (o, c) =
            opens-append x (w.calls ++ (freed ∷ [])) (opened new_fd ∷ closed sockfd ∷ []) in
          let (o', c') = opens-append x w.calls (freed ∷ []) in
          (
            omega (arith, ap (opens x) whole, o, o', leak),
            omega (arith, ap (closes x) whole, c, c', none_closed),
          ),
    )
