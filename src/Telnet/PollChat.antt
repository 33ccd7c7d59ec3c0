-- ===== src/Telnet/PollChat.antt =====
-- From the keyboard of one chat client through the poll server to the screens of the others.
use c_basics.Prelude.{
  ℕ, ◌+◌, ◌<◌, ◌≡◌, ◌≢◌, refl, sym, ap, ◌∙◌, Option, true, some, List, [], ◌∷◌, ◌++◌, map, arith,
  length, append-nil, replicate,
}
use c_basics.Kernel.{Recv, got, occurs}
use c_basics.PollServer.Table.{PollFd, Table, active}
use c_basics.PollServer.Refine.{fds}
use c_basics.PollServer.Round.{Event, Answers, running, broadcast, finish, turn}
use c_basics.PollServer.Serving.{closes, joins, closes-broadcast, IsServing}
use c_basics.PollServer.Run.{fds-take, polled-IsServing}
use c_basics.PollServer.Quiet.{OnlyAt, delivered, delivered-broadcast, walk-only}
use c_basics.SelectServer.Memory.{NulFree}
use c_basics.Telnet.Reader.{
  max_bytes, concat, thread_read, thread_read-got, message_text, message_text-text,
}
use c_basics.Telnet.Sender.{send_lines, send_lines-all}

-- What a turn of the poll server does with a message from the only client that is ready.
turn-only :
    (poll : List PollFd → ℕ → Option (List PollFd)) (a : Answers) (listener i sender : ℕ)
    (t : Table) (ys : List PollFd) (message : List ℕ)
    → IsServing listener (record t { slots = ys })
    → poll t.slots t.fd_size ≡ some ys
    → OnlyAt i sender ys
    → i < t.fd_count
    → sender ≢ listener
    → 0 < length message
    → a.recv i ≡ got message
    → turn poll a listener t
      ≡ running
          (record t { slots = ys })
          (broadcast listener sender message (active (record t { slots = ys })))
unfolding turn finish
turn-only poll a listener i sender t ys [] s e only inside client some_bytes says =
    absurd (omega arith)
turn-only poll a listener i sender t ys (b ∷ bs) s e only inside client some_bytes says =
    rw
      (
        e,
        walk-only a listener i sender (record t { slots = ys }) s.fits only b bs client says
            (t.fd_count + 2) 0 (omega arith) inside (omega arith),
        turn,
        finish,
      )
      refl

-- With a good table of the poll server, a poll(2) that finds only the client in slot `i` ready and
-- keeps the descriptors, and a recv(2) that gives what the client program sends for a typed line of
-- 1 to 1023 bytes without NUL: the turn does not fault, keeps the table as poll(2) left it and no
-- connection is closed or joins, and the client program of each other user in the table, given what
-- was sent to it by one recv(2) for each send(2), prints the line.
pub poll_chat_line :
    (poll : List PollFd → ℕ → Option (List PollFd)) (a : Answers) (listener i sender : ℕ)
    (t : Table) (ys : List PollFd) (typed : List ℕ)
    → IsServing listener t
    → poll t.slots t.fd_size ≡ some ys
    → fds ys ≡ fds t.slots
    → OnlyAt i sender ys
    → i < t.fd_count
    → sender ≢ listener
    → NulFree typed
    → 0 < length typed
    → length typed < 1024
    → a.recv i ≡ got (concat (send_lines ((some typed, true) ∷ [])).sent)
    → (events : List Event) × (turn poll a listener t ≡ running (record t { slots = ys }) events)
      × ((d : ℕ) → (closes d events ≡ 0) × (joins d events ≡ 0))
      × ((d : ℕ) (printed : List ℕ) (answers : List Recv)
          → occurs d (active t) ≡ 1
          → d ≢ listener
          → d ≢ sender
          → thread_read printed (map got (delivered d events) ++ answers)
            ≡ thread_read (printed ++ typed) answers)
poll_chat_line poll a listener i sender t ys typed serving polled same only inside client free
      some_bytes short answer =
    let sent : concat (send_lines ((some typed, true) ∷ [])).sent ≡ typed =
      ap (λ x. concat x.sent) (send_lines-all (some typed ∷ []) ((free, omega arith), tt))
      ∙ append-nil typed in
    let members = fds-take t.fd_count t.slots ys same in
    let dests = active (record t { slots = ys }) in
    (
      broadcast listener sender typed dests,
      turn-only poll a listener i sender t ys typed (polled-IsServing listener t ys same serving)
          polled only inside client some_bytes (answer ∙ ap got sent),
      closes-broadcast listener sender typed dests,
      λ d printed answers once other other'.
          ap (λ ms. thread_read printed (map got ms ++ answers))
            (delivered-broadcast listener sender typed dests d other other'
              ∙ ap (λ n. replicate n typed) (ap (occurs d) members ∙ once))
          ∙ thread_read-got printed typed typed answers some_bytes (
              ap (message_text max_bytes) (sym (append-nil typed))
              ∙ message_text-text typed 0 max_bytes free (omega (arith, short))),
    )
