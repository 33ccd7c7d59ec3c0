-- ===== src/Sockets/LocalTests.antt =====
-- A peer of each family, a server on a socket of its own machine, and a broadcast.
use c_basics.Prelude.{
  ℕ, ◌+◌, ◌≡◌, refl, Bool, Option, true, false, not, none, some, List, [], ◌∷◌, ◌++◌, ◌==◌,
  if◌then◌else◌, length, replicate,
}
use c_basics.Sockets.Walk.{
  Entry, Call, opened, closed, freed, fd, returned, walk, listen_on, opens, closes,
}
use c_basics.Sockets.StreamServer.{server_setup, accept_loop, made}
use c_basics.Sockets.StreamRun.{server, start_serving, left, server-left}
use c_basics.Sockets.PeerAddress.{SockAddr}
use c_basics.Sockets.UnixSocket
use c_basics.Sockets.UnixSocket.{Event, unix_sockets, serving, unix_sockets_once}
use c_basics.Sockets.Broadcaster
use c_basics.Sockets.Broadcaster.{udp_broadcaster}

abbrev six_bytes : List ℕ
six_bytes = 0 ∷ 0 ∷ 0 ∷ 0 ∷ 0 ∷ 0 ∷ 0 ∷ 0 ∷ 0 ∷ 0 ∷ 0 ∷ 0 ∷ 0 ∷ 0 ∷ 0 ∷ 1 ∷ []

abbrev no_flow : List ℕ
no_flow = 0 ∷ 0 ∷ 0 ∷ 0 ∷ []

abbrev local_path : SockAddr
local_path = record { sa_family = 1; sa_data = 47 ∷ [] }

-- bind(2) fails exactly where there is a file.
abbrev answers : UnixSocket.Answers
answers = record {
  socket = some 3;
  bind = not;
  listen = true;
  accept = none ∷ some 4 ∷ some 4 ∷ [];
}

abbrev visits : List Event
visits =
    UnixSocket.opened 3
    ∷ UnixSocket.accept_failed
    ∷ UnixSocket.opened 4
    ∷ UnixSocket.client_connected
    ∷ UnixSocket.closed 4
    ∷ UnixSocket.client_disconnected
    ∷ UnixSocket.opened 4
    ∷ UnixSocket.client_connected
    ∷ UnixSocket.closed 4
    ∷ UnixSocket.client_disconnected
    ∷ []

two_visits : (unix_sockets answers false).run ≡ serving visits
unfolding unix_sockets
two_visits = refl

unix_sockets_once_example :
    (server_fd : ℕ) × (some 3 ≡ some server_fd)
    × ((d : ℕ)
        → (UnixSocket.opens d visits
            ≡ (if server_fd == d then 1 else 0) + UnixSocket.accepts d answers.accept)
          × (UnixSocket.closes d visits ≡ UnixSocket.accepts d answers.accept))
    × ((calls : List Event) × ((unix_sockets answers (unix_sockets answers false).file).run
          ≡ UnixSocket.exited calls))
unix_sockets_once_example = unix_sockets_once answers answers false visits two_visits refl

abbrev network : Broadcaster.Answers
network = record {
  host = some (10 ∷ 0 ∷ 0 ∷ 255 ∷ []);
  socket = some 3;
  setsockopt = true;
  sendto = λ address port message. some (length message);
}

two_bytes :
    udp_broadcaster network 3 (104 ∷ 105 ∷ [])
    ≡ Broadcaster.sent 2 (10 ∷ 0 ∷ 0 ∷ 255 ∷ []) (opened 3 ∷ closed 3 ∷ [])
unfolding udp_broadcaster
two_bytes = refl

abbrev entry : ℕ → Bool → Entry
entry s b = record { ai_family = 2; socket = some s; setsockopt = true; bind = b; connect = true }

-- The first entry cannot be bound, and the connection is the second answer.
abbrev two_entries : List Entry
two_entries = entry 4 false ∷ entry 5 true ∷ []

abbrev all_calls : List Call
all_calls = opened 4 ∷ opened 5 ∷ freed ∷ opened 6 ∷ closed 5 ∷ []

leaves :
    server (λ calls d. true) (some two_entries) true false true (none ∷ some 6 ∷ some 7 ∷ [])
    ≡ left all_calls
unfolding server server_setup start_serving accept_loop walk listen_on
leaves = refl

server-left_example :
    (sockfd new_fd failures : ℕ) × (later : List (Option ℕ)) × (before : List Call) × (server_setup
        (λ calls d. true)
        (some two_entries)
      ≡ returned before (fd sockfd))
    × (none ∷ some 6 ∷ some 7 ∷ [] ≡ replicate failures none ++ (some new_fd ∷ later))
    × ((d : ℕ)
        → (opens d all_calls ≡ made d two_entries + (if new_fd == d then 1 else 0))
          × (closes d all_calls ≡ (if sockfd == d then 1 else 0)))
server-left_example =
    server-left (λ calls d. true) two_entries true true (none ∷ some 6 ∷ some 7 ∷ []) all_calls
      leaves
