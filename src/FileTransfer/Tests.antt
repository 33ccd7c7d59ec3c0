-- ===== src/FileTransfer/Tests.antt =====
-- Runs of the file transfer at concrete inputs.
use c_basics.Prelude.{ℕ, ◌≡◌, refl, true, false, Option, some, List, [], ◌∷◌, arith, length}
use c_basics.Sockets.Walk.{Entry, fd, opened, closed, freed, walk, returned}
use c_basics.FileTransfer.Connect.{transfer_connect}
use c_basics.FileTransfer.Send.{finished, send_file}
use c_basics.FileTransfer.Receive.{done, handle_file_transfer, in_parent, fork_failed, turn}
use c_basics.FileTransfer.Transfer.{hand_over, transfer_whole}

abbrev whole : ℕ → List ℕ → Option ℕ
whole k chunk = some (length chunk)

abbrev one_byte : ℕ → List ℕ → Option ℕ
one_byte k chunk = some 1

abbrev text : List ℕ
text = 1 ∷ 2 ∷ 3 ∷ 4 ∷ 5 ∷ []

transfer_whole_example :
    (send_file whole text ≡ finished text 5)
    × (handle_file_transfer true length (hand_over ((1 ∷ 2 ∷ []) ∷ (3 ∷ 4 ∷ 5 ∷ []) ∷ []))
        ≡ done text)
transfer_whole_example =
    transfer_whole whole text ((1 ∷ 2 ∷ []) ∷ (3 ∷ 4 ∷ 5 ∷ []) ∷ []) (λ k c. refl) (omega arith)
      refl

-- One byte of five goes out, and five are reported.
short_send : send_file one_byte text ≡ finished (1 ∷ []) 5
unfolding send_file
short_send = refl

-- A fork(2) that fails is taken for the parent: the connection is dropped with no word.
fork_fails :
    turn true true (some 5) fork_failed (done []) ≡ turn true true (some 5) in_parent (done [])
unfolding turn
fork_fails = refl

abbrev servers : List Entry
servers =
    record { ai_family = 2; socket = some 3; setsockopt = true; bind = true; connect = false }
    ∷ record { ai_family = 2; socket = some 3; setsockopt = true; bind = true; connect = true }
    ∷ []

connects_second :
    transfer_connect (some servers) ≡ returned (opened 3 ∷ closed 3 ∷ opened 3 ∷ freed ∷ []) (fd 3)
unfolding transfer_connect walk
connects_second = refl
