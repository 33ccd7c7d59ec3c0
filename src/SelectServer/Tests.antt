-- ===== src/SelectServer/Tests.antt =====
-- The select server at concrete inputs: the listener is 3, users are 4 and 5.
use c_basics.Prelude.{
  ℕ, suc, ◌+◌, ◌≡◌, refl, Bool, true, false, ◌||◌, some, [], ◌∷◌, ◌++◌, arith, ◌==◌, if◌then◌else◌,
  length, take,
}
use c_basics.Kernel.{failed, got}
use c_basics.SelectServer.Text.{zeros, joined_text, left_text}
use c_basics.SelectServer.Loop.{
  State, Answers, turn, ready, timed_out, faulted, buffer_size, first_state, cleared,
}
use c_basics.SelectServer.Members.{IsListening}
use c_basics.SelectServer.Limit.{turn-limit}
use c_basics.SelectServer.Messages.{line}
use c_basics.SelectServer.Greetings.{notice}
use c_basics.SelectServer.Turns.{started, turned, Reach-IsListening}
use c_basics.SelectServer.Chat.{Only, Sends, turn-message, turn-error, turn-leave, turn-join}

abbrev chat : State
chat = record {
  master = λ j. j == 3 || (j == 4 || j == 5);
  fd_max = 5;
  buffer = zeros buffer_size;
  server_message = zeros buffer_size;
}

chat-IsListening : IsListening 3 chat
chat-IsListening = record { bounded = λ j. ground arith; fits = omega arith; listens = refl }

abbrev just : ℕ → ℕ → Bool
just i j = i == j

just-Only : (i : ℕ) → Only i (just i)
just-Only i = record { on = ground arith; off = λ k ne. ground (arith, ne) }

-- 6 connects; clients send "hi".
abbrev hello : Answers
hello = record { accept = some 6; recv = λ i. got (104 ∷ 105 ∷ []) }

abbrev broken : Answers
broken = record { accept = some 6; recv = λ i. failed }

abbrev hung_up : Answers
hung_up = record { accept = some 6; recv = λ i. got [] }

turn-message_example :
    (s' : State) × (d : ℕ) × (length (line 4 (104 ∷ 105 ∷ [])) + d ≡ 12)
    × (s'.master ≡ chat.master)
    × Sends
        (turn (ready (just 4)) hello 3 chat)
        s'
        chat.master
        3
        4
        (line 4 (104 ∷ 105 ∷ []) ++ zeros d)
        []
turn-message_example =
    turn-message hello (just 4) 3 4 chat chat-IsListening (just-Only 4) refl (omega arith)
      (omega arith) (104 ∷ 105 ∷ []) refl (omega arith) (ground arith) (omega arith) (omega arith)

turn-error_example :
    (s' : State) × (r : ℕ) × (length (line 4 []) + suc r ≡ buffer_size)
    × (s'.master ≡ chat.master)
    × Sends
        (turn (ready (just 4)) broken 3 chat)
        s'
        chat.master
        3
        4
        (take 9 (line 4 [] ++ zeros (suc r)))
        []
turn-error_example =
    turn-error broken (just 4) 3 4 chat chat-IsListening (just-Only 4) refl (omega arith)
      (omega arith) refl (omega arith)

turn-leave_example :
    (s' : State) × ((e : ℕ) → s'.master e ≡ (if 4 == e then false else chat.master e))
    × Sends (turn (ready (just 4)) hung_up 3 chat) s' chat.master 3 4 (notice 4 left_text) (4 ∷ [])
turn-leave_example =
    turn-leave hung_up (just 4) 3 4 chat chat-IsListening (just-Only 4) refl (omega arith)
      (omega arith) refl

turn-join_example :
    (s' : State) × (r : ℕ) × (length (notice 6 joined_text) + r ≡ 1024)
    × ((e : ℕ) → s'.master e ≡ (if 6 == e then true else chat.master e))
    × Sends
        (turn (ready (just 3)) hello 3 chat)
        s'
        s'.master
        3
        6
        (notice 6 joined_text ++ zeros r)
        []
turn-join_example =
    turn-join hello (just 3) 3 6 chat chat-IsListening (just-Only 3) refl (omega arith)
      (omega arith)

Reach-IsListening_example : IsListening 3 (cleared (first_state 3))
unfolding turn first_state
Reach-IsListening_example =
    Reach-IsListening {listener = 3} {s = cleared (first_state 3)} (omega arith)
      (turned {s = first_state 3} {events = []} timed_out hello started refl)

-- 5 has the descriptor 1023 in place of its own.
abbrev full : State
full = record chat { master = λ j. j == 3 || (j == 4 || j == 1023); fd_max = 1023 }

full-IsListening : IsListening 3 full
full-IsListening = record { bounded = λ j. ground arith; fits = omega arith; listens = refl }

turn-limit_example : turn (ready (just 4)) hello 3 full ≡ faulted
turn-limit_example = turn-limit hello (just 4) 3 full full-IsListening refl
