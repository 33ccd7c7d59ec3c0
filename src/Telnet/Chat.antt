-- ===== src/Telnet/Chat.antt =====
-- From the keyboard of one chat client through the select server to the screens of the others.
use c_basics.Prelude.{
  ℕ, ◌≤◌, ◌<◌, ◌≡◌, ◌≢◌, ap, ◌∙◌, Bool, true, some, List, [], ◌∷◌, ◌++◌, map, arith, if◌then◌else◌,
  length, append-nil, length-append,
}
use c_basics.Kernel.{Recv, got}
use c_basics.SelectServer.Text.{zeros}
use c_basics.SelectServer.Loop.{Event, State, Answers, turn, ready, running}
use c_basics.SelectServer.Memory.{NulFree, length-zeros}
use c_basics.SelectServer.Members.{IsListening, received, addressed}
use c_basics.SelectServer.Messages.{line, line-NulFree}
use c_basics.SelectServer.Chat.{Only, turn-message}
use c_basics.Telnet.Reader.{max_bytes, concat, thread_read, thread_read-got, message_text-text}
use c_basics.Telnet.Sender.{send_lines, send_lines-all}

-- In a listening state of the select server with `fd_max` below 1023, with a client `i` of the set
-- alone ready, below 1000, that receives what the client program sends for a typed line of 1 to
-- 1013 bytes without NUL: the turn does not fault and keeps the set, and the client program of each
-- other user in the set, given what was sent to it by one recv(2), prints "User i: " and the line.
pub chat_line :
    (a : Answers) (select_set : ℕ → Bool) (listener i : ℕ) (s : State) (typed : List ℕ)
    → IsListening listener s
    → Only i select_set
    → s.master i ≡ true
    → i ≢ listener
    → s.fd_max < 1023
    → i < 1000
    → NulFree typed
    → 0 < length typed
    → length typed ≤ 1013
    → a.recv i ≡ got (concat (send_lines ((some typed, true) ∷ [])).sent)
    → (s' : State) × (events : List Event) × (turn (ready select_set) a listener s
        ≡ running s' events)
      × (s'.master ≡ s.master)
      × ((e : ℕ) (printed : List ℕ) (answers : List Recv)
          → addressed s.master listener i e ≡ true
          → thread_read printed (map got (received e events) ++ answers)
            ≡ thread_read (printed ++ line i typed) answers)
chat_line a select_set listener i s typed serving only member client room small free some_bytes
      short answer =
    let sent : concat (send_lines ((some typed, true) ∷ [])).sent ≡ typed =
      ap (λ x. concat x.sent) (send_lines-all (some typed ∷ []) ((free, omega arith), tt))
      ∙ append-nil typed in
    let (s', d, long, kept, sends) =
      turn-message a select_set listener i s serving only member client room typed
        (answer ∙ ap got sent) small free some_bytes short in
    let message = line i typed ++ zeros d in
    (
      s',
      sends.events,
      sends.ends,
      kept,
      λ e printed answers member.
          ap (λ ms. thread_read printed (map got ms ++ answers))
            (sends.sends_to e ∙ ap (λ b. if b then message ∷ [] else []) member)
          ∙ thread_read-got printed (line i typed) message answers
              (omega (arith, length-append (line i typed) (zeros d), length-zeros d, long))
              (message_text-text (line i typed) d max_bytes (line-NulFree i typed free)
                (omega (arith, long, short))),
    )
