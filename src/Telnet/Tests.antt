-- ===== src/Telnet/Tests.antt =====
-- Two messages, three lines, and a line that 4 types for 5 to read. The listener is 3.
use c_basics.Prelude.{
  ℕ, zero, suc, ◌≡◌, ◌≢◌, refl, sym, ap, true, some, bit_and, get_elem?, some-injective, ◌||◌, none,
  List, [], ◌∷◌, ◌++◌, map, arith, ◌==◌, replicate,
}
use c_basics.Kernel.{Recv, got, occurs}
use c_basics.PollServer.Table.{PollFd, Table, active, pollin}
use c_basics.PollServer.Serving.{closes, joins, IsServing}
use c_basics.PollServer.Quiet.{OnlyAt, delivered}
use c_basics.PollServer.Round
use c_basics.SelectServer.Text.{zeros}
use c_basics.SelectServer.Loop.{Event, State, Answers, turn, ready, running, buffer_size}
use c_basics.SelectServer.Members.{IsListening, received, addressed}
use c_basics.SelectServer.Messages.{line}
use c_basics.Telnet.Reader.{thread_read}
use c_basics.Telnet.Sender.{send_lines}
use c_basics.Telnet.Chat.{chat_line}
use c_basics.Telnet.PollChat.{poll_chat_line}

abbrev full_message : List ℕ
full_message = replicate 2048 97

abbrev two_messages : List (List ℕ)
two_messages = (104 ∷ 105 ∷ []) ∷ (33 ∷ []) ∷ []

abbrev chat : State
chat = record {
  master = λ j. j == 3 || (j == 4 || j == 5);
  fd_max = 5;
  buffer = zeros buffer_size;
  server_message = zeros buffer_size;
}

chat-IsListening : IsListening 3 chat
chat-IsListening = record { bounded = λ j. ground arith; fits = omega arith; listens = refl }

abbrev hi : List ℕ
hi = 104 ∷ 105 ∷ 10 ∷ []

abbrev says_hi : Answers
says_hi = record { accept = none; recv = λ i. got hi }

chat_line_example :
    (s' : State) × (events : List Event) × (turn (ready (λ j. 4 == j)) says_hi 3 chat
      ≡ running s' events)
    × (s'.master ≡ chat.master)
    × ((e : ℕ) (printed : List ℕ) (answers : List Recv)
        → addressed chat.master 3 4 e ≡ true
        → thread_read printed (map got (received e events) ++ answers)
          ≡ thread_read (printed ++ line 4 hi) answers)
unfolding send_lines c_basics.SelectServer.Text.c_string
chat_line_example =
    chat_line says_hi (λ j. 4 == j) 3 4 chat hi chat-IsListening
      (record { on = refl; off = λ k ne. ground (arith, ne) }) refl (omega arith) (omega arith)
      (omega arith) (ground arith) (omega arith) (omega arith) refl

abbrev slot : ℕ → ℕ → PollFd
slot fd revents = record { fd = fd; events = 1; revents = revents }

abbrev before_poll : List PollFd
before_poll = slot 3 0 ∷ slot 4 0 ∷ slot 5 0 ∷ slot 0 0 ∷ []

abbrev after_poll : List PollFd
after_poll = slot 3 0 ∷ slot 4 0 ∷ slot 5 1 ∷ slot 0 0 ∷ []

abbrev table : Table
table = record { slots = before_poll; fd_count = 3; fd_size = 4 }

abbrev five_speaks : c_basics.PollServer.Round.Answers
five_speaks = record { accept = none; recv = λ i. got hi; realloc = λ xs n. none }

table-IsServing : IsServing 3 table
unfolding occurs
table-IsServing = record {
  fits = record { full = refl; room = omega arith; some_room = omega arith };
  first = (slot 3 0, refl, refl);
  in_use = omega arith;
  once = λ d. ground arith;
}

others_quiet :
    (j : ℕ) (p : PollFd)
    → j ≢ 2
    → get_elem? after_poll j ≡ some p
    → (bit_and p.revents pollin == 0) ≡ true
others_quiet zero p ne at = ap (λ q. bit_and q.revents pollin == 0) (sym (some-injective _ _ at))
others_quiet (suc zero) p ne at =
    ap (λ q. bit_and q.revents pollin == 0) (sym (some-injective _ _ at))
others_quiet (suc (suc zero)) p ne at = absurd (ne refl)
others_quiet (suc (suc (suc zero))) p ne at =
    ap (λ q. bit_and q.revents pollin == 0) (sym (some-injective _ _ at))
others_quiet (suc (suc (suc (suc j)))) p ne at = cc

only_five : OnlyAt 2 5 after_poll
only_five = record { revents = 1; events = 1; here = refl; ready = refl; quiet = others_quiet }

-- 5 types a line, and 4 reads it.
poll_chat_line_example :
    (events : List c_basics.PollServer.Round.Event) × (c_basics.PollServer.Round.turn
        (λ xs n. some after_poll)
        five_speaks
        3
        table
      ≡ c_basics.PollServer.Round.running (record table { slots = after_poll }) events)
    × ((d : ℕ) → (closes d events ≡ 0) × (joins d events ≡ 0))
    × ((d : ℕ) (printed : List ℕ) (answers : List Recv)
        → occurs d (active table) ≡ 1
        → d ≢ 3
        → d ≢ 5
        → thread_read printed (map got (delivered d events) ++ answers)
          ≡ thread_read (printed ++ hi) answers)
unfolding send_lines c_basics.SelectServer.Text.c_string
poll_chat_line_example =
    poll_chat_line (λ xs n. some after_poll) five_speaks 3 2 5 table after_poll hi table-IsServing
      refl refl only_five (omega arith) (omega arith) (ground arith) (omega arith) (omega arith)
      refl
