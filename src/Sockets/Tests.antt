-- ===== src/Sockets/Tests.antt =====
-- Runs of the socket walks at concrete inputs.
use c_basics.Prelude.{
  ℕ, ◌≡◌, refl, ap, Bool, true, false, Option, none, some, List, [], ◌∷◌, arith, ltb, if◌then◌else◌,
  length, get_elem?,
}
use c_basics.Sockets.Walk.{
  Entry, Descriptor, unset, minus_one, fd, Call, opened, closed, freed, walk, opens, closes,
  exit_failure, returned, listen_on,
}
use c_basics.Sockets.First.{IsListen}
use c_basics.Kernel.{Recv, failed, got}
use c_basics.Sockets.PollListener
use c_basics.Sockets.PollListener.{get_listener_socket-Found}
use c_basics.Sockets.SelectListener.{get_listener_socket_fd}
use c_basics.Sockets.FileListener
use c_basics.Sockets.FileListener.{file_listener-Found}
use c_basics.Sockets.TelnetClient.{telnet_connect}
use c_basics.Sockets.StreamClient
use c_basics.Sockets.StreamClient.{stream_client, IsRecv, Connected, stream_client-Connected}
use c_basics.Sockets.Datagram
use c_basics.Sockets.Datagram.{
  datagram_server, udp_client, datagram_server-prints, udp_client-Found,
}
use c_basics.Sockets.AddressList.{
  AddressInfo, Line, returned as listed, stream_socket_address_info,
  stream_socket_address_info-shifts,
}

abbrev entry : Option ℕ → Bool → Bool → Entry
entry s b c = record { ai_family = 2; socket = s; setsockopt = true; bind = b; connect = c }

-- No socket, one that cannot be bound or connected, and a good one.
abbrev list : List Entry
list = entry none false false ∷ entry (some 4) false false ∷ entry (some 4) true true ∷ []

-- listen(2) and recv(2) work on what is open and not on what is not.
abbrev is_open : List Call → Descriptor → Bool
is_open cs unset = false
is_open cs minus_one = false
is_open cs (fd n) = ltb (closes n cs) (opens n cs)

is_open-IsListen : IsListen is_open
is_open-IsListen = record {
  not_unset = λ cs. refl;
  not_minus_one = λ cs. refl;
  not_closed = λ cs n h. ground arith;
}

poll_calls :
    PollListener.get_listener_socket is_open (some list)
    ≡ returned (opened 4 ∷ closed 4 ∷ opened 4 ∷ freed ∷ []) (fd 4)
unfolding PollListener.get_listener_socket listen_on walk opens closes
poll_calls = refl

-- With no entry bound the poll server closes its standard output and fails in listen(2).
poll_none :
    PollListener.get_listener_socket is_open (some (entry (some 4) false false ∷ []))
    ≡ exit_failure (opened 4 ∷ closed 4 ∷ freed ∷ closed 1 ∷ [])
unfolding PollListener.get_listener_socket listen_on walk opens closes
poll_none = refl

select_calls :
    get_listener_socket_fd is_open (some list)
    ≡ returned (opened 4 ∷ closed 4 ∷ opened 4 ∷ freed ∷ []) (fd 4)
unfolding get_listener_socket_fd listen_on walk opens closes
select_calls = refl

file_calls :
    FileListener.get_listener_socket is_open (some list)
    ≡ returned (opened 4 ∷ closed 4 ∷ opened 4 ∷ []) (fd 4)
unfolding FileListener.get_listener_socket listen_on walk opens closes
file_calls = refl

-- The telnet client reports a connection on descriptor 4, which it has closed.
telnet_calls : telnet_connect 3 (some list) ≡ returned (opened 4 ∷ closed 4 ∷ freed ∷ []) (fd 4)
unfolding telnet_connect walk
telnet_calls = refl

abbrev good_list : List Entry
good_list = entry none false false ∷ entry (some 4) true true ∷ []

abbrev answer : Bool → Recv
answer b = if b then got (104 ∷ 105 ∷ []) else failed

abbrev recv_open : List Call → Descriptor → Recv
recv_open cs d = answer (is_open cs d)

recv_open-IsRecv : IsRecv recv_open
recv_open-IsRecv cs n h = ap answer (is_open-IsListen.not_closed cs n h)

stream_calls :
    stream_client 2 (some good_list) recv_open
    ≡ StreamClient.prints (opened 4 ∷ freed ∷ closed 4 ∷ []) (104 ∷ 105 ∷ [])
unfolding stream_client walk opens closes
stream_calls = refl

-- The same client does not get past an entry that refuses the connection.
stream_stops : stream_client 2 (some list) recv_open ≡ StreamClient.exits
unfolding stream_client walk opens closes
stream_stops = refl

datagram_calls :
    datagram_server (some list) (got (7 ∷ 8 ∷ 9 ∷ 10 ∷ 11 ∷ []))
    ≡ Datagram.prints
        (opened 4 ∷ closed 4 ∷ opened 4 ∷ freed ∷ closed 4 ∷ [])
        4
        (7 ∷ 8 ∷ 9 ∷ 10 ∷ 11 ∷ [])
unfolding datagram_server walk
datagram_calls = refl

udp_calls : udp_client 3 (some list) true ≡ returned (opened 4 ∷ freed ∷ []) (fd 4)
unfolding udp_client walk
udp_calls = refl

-- The port 6969 on 127.0.0.1 is shown as 27.57.127.0.
abbrev local : AddressInfo
local = record { ai_family = 2; sa_data = 27 ∷ 57 ∷ 127 ∷ 0 ∷ 0 ∷ 1 ∷ [] }

stream_socket_address_info-shifts_example :
    (lines : List Line) × (stream_socket_address_info (some (local ∷ [])) ≡ listed lines 0)
    × (length lines ≡ 1)
    × (get_elem? lines 0 ≡ some (record { index = 0; address = some (27 ∷ 57 ∷ 127 ∷ 0 ∷ []) }))
stream_socket_address_info-shifts_example =
    stream_socket_address_info-shifts (local ∷ []) 0 27 57 127 0 (0 ∷ 1 ∷ []) local refl refl refl
