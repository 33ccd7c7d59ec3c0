-- ===== src/MessageQueue/Tests.antt =====
-- A queue with a message of an earlier run.
use c_basics.Prelude.{ℕ, ◌≡◌, refl, true, false, some, List, [], ◌∷◌, ◌++◌, arith}
use c_basics.SelectServer.Text.{zeros}
use c_basics.SelectServer.Memory.{length-zeros}
use c_basics.MessageQueue.Processes.{Message, Queue, blocked, exit_success, faulted, message_queues}
use c_basics.MessageQueue.Received.{message_queues-prints}

abbrev checking_in : List ℕ
checking_in =
    99 ∷ 104 ∷ 105 ∷ 108 ∷ 100 ∷ 32 ∷ 112 ∷ 114 ∷ 111 ∷ 99 ∷ 101 ∷ 115 ∷ 115 ∷ 32 ∷ 99 ∷ 104 ∷ 101
    ∷ 99 ∷ 107 ∷ 105 ∷ 110 ∷ 103 ∷ 32 ∷ 105 ∷ 110 ∷ 33 ∷ 10 ∷ []

-- "old" and its NUL, of type 1, behind a message of type 7.
abbrev stale : Message
stale = record { mtype = 1; mtext = 111 ∷ 108 ∷ 100 ∷ 0 ∷ [] }

abbrev others : Queue
others = record { mtype = 7; mtext = 0 ∷ [] } ∷ []

message_queues-prints_example :
    (message_queues (zeros 1024) (zeros 8) checking_in (some (others ++ (stale ∷ []))) true true
      ≡ exit_success (111 ∷ 108 ∷ 100 ∷ []))
    × (message_queues (zeros 1024) (zeros 8) checking_in (some others) true true ≡ faulted)
    × (message_queues (zeros 1024) (zeros 8) checking_in (some others) true false ≡ blocked others)
message_queues-prints_example =
    message_queues-prints (zeros 1024) (zeros 8) checking_in (111 ∷ 108 ∷ 100 ∷ []) [] true others
      [] stale (length-zeros 1024) (length-zeros 8) (omega arith) (ground arith) refl refl
      (omega arith) (omega arith)
