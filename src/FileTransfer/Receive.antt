-- ===== src/FileTransfer/Receive.antt =====
-- `handle_file_transfer` of UnixFileTransferStreamServer.c, and one turn of its `main`.
use c_basics.Prelude.{ℕ, Bool, true, false, Option, none, some, List, [], ◌∷◌, ◌++◌, take}
use c_basics.Sockets.Walk.{Call, opened, closed}
use c_basics.Kernel.{Recv, failed, got}

-- Where the handler stands after the answers of recv(2) so far: waiting for the next one; done,
-- with the file, once the client has hung up; returned on an error, with file and socket left open;
-- or in fwrite(3) on a FILE that fopen(3) did not give.
pub data Received : Type 0 where
  waiting : List ℕ → Received
  done : List ℕ → Received
  recv_failed : List ℕ → Received
  fault : Received

-- `fwrite` tells how many of the bytes at hand it stores; a short count is reported and ignored.
unfoldable pub receive_loop : (List ℕ → ℕ) → List ℕ → List Recv → Received
receive_loop fwrite file [] = waiting file
receive_loop fwrite file (failed ∷ answers) = recv_failed file
receive_loop fwrite file (got [] ∷ answers) = done file
receive_loop fwrite file (got (b ∷ bs) ∷ answers) =
    receive_loop fwrite (file ++ take (fwrite (b ∷ bs)) (b ∷ bs)) answers

abbrev pub after_open : (List ℕ → ℕ) → List Recv → Received
after_open fwrite [] = waiting []
after_open fwrite (failed ∷ answers) = recv_failed []
after_open fwrite (got bytes ∷ answers) = fault

-- `opens_file` is the answer of fopen(3). With NULL the first fwrite(3) or fclose(3) is a fault.
unfoldable pub handle_file_transfer : Bool → (List ℕ → ℕ) → List Recv → Received
unfolding receive_loop
handle_file_transfer true fwrite answers = receive_loop fwrite [] answers
handle_file_transfer false fwrite answers = after_open fwrite answers

-- fork(2) answers -1, 0 or the child.
pub data Fork : Type 0 where
  fork_failed in_child in_parent : Fork

pub data Turn : Type 0 where
  exits : Turn
  parent : List Call → Turn
  child : ℕ → Received → Turn

-- After a connection: `fork < 0` tests the function, not its answer, so -1 takes the parent's path.
unfoldable pub after_accept : Received → ℕ → Fork → Turn
after_accept transfer new_fd in_child = child new_fd transfer
after_accept transfer new_fd in_parent = parent (opened new_fd ∷ closed new_fd ∷ [])
after_accept transfer new_fd fork_failed = parent (opened new_fd ∷ closed new_fd ∷ [])

-- One turn of the endless loop of `main`: the answer of poll(2), whether the listener's revents are
-- POLLIN, and the answers of accept(2) and fork(2).
unfoldable pub turn : Bool → Bool → Option ℕ → Fork → Received → Turn
unfolding after_accept
turn false ready accept fork transfer = exits
turn true false accept fork transfer = parent []
turn true true none fork transfer = parent []
turn true true (some new_fd) fork transfer = after_accept transfer new_fd fork
