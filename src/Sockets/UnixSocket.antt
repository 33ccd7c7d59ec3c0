-- ===== src/Sockets/UnixSocket.antt =====
-- `unixSockets` of UnixSocketsForIPC.c.
use c_basics.Prelude.{
  ℕ, ◌+◌, ◌≡◌, refl, ap, ◌∙◌, Bool, true, false, Option, none, some, List, [], ◌∷◌, arith, ◌==◌,
  if◌then◌else◌, inl, inr, Bool-cases, Option-cases,
}

-- What is answered: to socket(2); to bind(2), by whether there is a file at SOCKET_PATH; to
-- listen(2); and to each call of accept(2) so far.
pub record Answers : Type 0 where
  pub socket : Option ℕ
  pub bind : Bool → Bool
  pub listen : Bool
  pub accept : List (Option ℕ)

-- What the program does, its two messages to the user included.
pub data Event : Type 0 where
  opened : ℕ → Event
  closed : ℕ → Event
  accept_failed client_connected client_disconnected : Event

-- `exit(EXIT_FAILURE)`, or the endless loop, after these events.
pub data Run : Type 0 where
  exited : List Event → Run
  serving : List Event → Run

-- How far it has come, and whether there is a file at SOCKET_PATH then.
pub record Outcome : Type 0 where
  pub run : Run
  pub file : Bool

-- The loop on accept(2).
unfoldable pub serve_clients : List (Option ℕ) → List Event
serve_clients [] = []
serve_clients (none ∷ answers) = accept_failed ∷ serve_clients answers
serve_clients (some client_fd ∷ answers) =
    opened client_fd
    ∷ client_connected
    ∷ closed client_fd
    ∷ client_disconnected
    ∷ serve_clients answers

-- From bind(2) on. Where it succeeds it has made the file. What follows the loop, close(2) of the
-- server and unlink(2) of the file, is never reached.
unfoldable pub bind_and_listen : Answers → Bool → ℕ → Outcome
unfolding serve_clients
bind_and_listen a file server_fd =
    if a.bind file
    then (if a.listen
        then record { run = serving (opened server_fd ∷ serve_clients a.accept); file = true }
        else record { run = exited (opened server_fd ∷ []); file = true })
    else record { run = exited (opened server_fd ∷ []); file = file }

unfoldable pub unix_sockets : Answers → Bool → Outcome
unfolding bind_and_listen
unix_sockets a file = elim a.socket [
  | none ↦ record { run = exited []; file = file }
  | some server_fd ↦ bind_and_listen a file server_fd
]

unfoldable pub opens : ℕ → List Event → ℕ
opens d [] = 0
opens d (opened e ∷ es) = (if e == d then 1 else 0) + opens d es
opens d (_ ∷ es) = opens d es

unfoldable pub closes : ℕ → List Event → ℕ
closes d [] = 0
closes d (closed e ∷ es) = (if e == d then 1 else 0) + closes d es
closes d (_ ∷ es) = closes d es

-- How often the connection `d` was accepted.
unfoldable pub accepts : ℕ → List (Option ℕ) → ℕ
accepts d [] = 0
accepts d (none ∷ answers) = accepts d answers
accepts d (some e ∷ answers) = (if e == d then 1 else 0) + accepts d answers

serve_clients-closes :
    (d : ℕ) (answers : List (Option ℕ))
    → (opens d (serve_clients answers) ≡ accepts d answers)
      × (closes d (serve_clients answers) ≡ accepts d answers)
unfolding serve_clients opens closes accepts
serve_clients-closes d [] = (refl, refl)
serve_clients-closes d (none ∷ answers) = serve_clients-closes d answers
serve_clients-closes d (some e ∷ answers) =
    let (a, b) = serve_clients-closes d answers in (omega (arith, a), omega (arith, b))

-- What the loop has been reached with.
abbrev Reached : Answers → Bool → List Event → Type 0
Reached a file events =
    (server_fd : ℕ) × (a.socket ≡ some server_fd)
    × ((unix_sockets a file).file ≡ true)
    × (events ≡ opened server_fd ∷ serve_clients a.accept)

bind-Reached :
    (a : Answers) (file : Bool) (server_fd : ℕ) (events : List Event)
    → a.socket ≡ some server_fd
    → (bind_and_listen a file server_fd).run ≡ serving events
    → Reached a file events
unfolding unix_sockets
bind-Reached a file server_fd events fd e = elim (Bool-cases (a.bind file)) [
  | inl bound ↦ elim (Bool-cases a.listen) [
    | inl listens ↦
        (server_fd, fd, ground (arith, fd, bound, listens), ground (arith, bound, listens, e))
    | inr deaf ↦ absurd (ground (arith, bound, deaf, e))
  ]
  | inr unbound ↦ absurd (ground (arith, unbound, e))
]

serving-Reached :
    (a : Answers) (file : Bool) (events : List Event)
    → (unix_sockets a file).run ≡ serving events
    → Reached a file events
unfolding unix_sockets
serving-Reached a file events e = elim (Option-cases a.socket) [
  | inl failed ↦ absurd (ground (arith, failed, e))
  | inr (server_fd, fd) ↦ bind-Reached a file server_fd events fd (ground (arith, fd, e))
]

bound_again :
    (a : Answers)
    → a.bind true ≡ false
    → (calls : List Event) × ((unix_sockets a true).run ≡ exited calls)
unfolding unix_sockets
bound_again a in_use = elim (Option-cases a.socket) [
  | inl failed ↦ ([], ground (arith, failed))
  | inr (server_fd, fd) ↦ (opened server_fd ∷ [], ground (arith, fd, in_use))
]

-- Once it serves, whatever accept(2) answers, each connection is closed as often as it was
-- accepted, and the server's own descriptor is one that stays open; the file of the socket stays as
-- well, so that the program, started anew, exits without serving. Assumed of bind(2): it fails
-- where there is a file.
pub unix_sockets_once :
    (a again : Answers) (file : Bool) (events : List Event)
    → (unix_sockets a file).run ≡ serving events
    → again.bind true ≡ false
    → (server_fd : ℕ) × (a.socket ≡ some server_fd)
      × ((d : ℕ)
          → (opens d events ≡ (if server_fd == d then 1 else 0) + accepts d a.accept)
            × (closes d events ≡ accepts d a.accept))
      × ((calls : List Event) × ((unix_sockets again (unix_sockets a file).file).run
            ≡ exited calls))
unfolding opens closes
unix_sockets_once a again file events e in_use =
    let (server_fd, fd, stays, made) = serving-Reached a file events e in
    let (calls, fails) = bound_again again in_use in
    (
      server_fd,
      fd,
      λ d.
          let (taken, given) = serve_clients-closes d a.accept in
          (
            ap (opens d) made ∙ ap (λ n. (if server_fd == d then 1 else 0) + n) taken,
            ap (closes d) made ∙ given,
          ),
      (calls, ap (λ f. (unix_sockets again f).run) stays ∙ fails),
    )
