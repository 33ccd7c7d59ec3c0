-- ===== src/Sockets/PeerAddress.antt =====
-- Where the servers find the address of the other side for inet_ntop(3): get_in_addr of
-- TelnetServerPollingFileDescriptorsWithUnixStreamStreamSockets.c, get_internet_address of
-- UnixStreamTelnetServerWithSelect.c and UnixFileTransferStreamServer.c, and get_internet_addresses
-- of UnixRawNetworkLayerSocketServer.c.
use c_basics.Prelude.{ℕ, Option, none, some, List, ◌==◌, if◌then◌else◌, take, drop}

-- A `struct sockaddr`, with all the bytes behind its family: the port, and for AF_INET (2) the
-- address, but for AF_INET6 (10) the flow and then the address.
pub record SockAddr : Type 0 where
  pub sa_family : ℕ
  pub sa_data : List ℕ

-- `&sin_addr` and `&sin6_addr`, as the bytes from there on.
abbrev pub sin_addr : SockAddr → List ℕ
sin_addr a = drop 2 a.sa_data

abbrev pub sin6_addr : SockAddr → List ℕ
sin6_addr a = drop 6 a.sa_data

unfoldable pub get_in_addr : SockAddr → List ℕ
get_in_addr a = if a.sa_family == 2 then sin_addr a else sin6_addr a

unfoldable pub file_internet_address : SockAddr → List ℕ
file_internet_address a = if a.sa_family == 2 then sin_addr a else sin6_addr a

unfoldable pub raw_internet_addresses : SockAddr → List ℕ
raw_internet_addresses a = if a.sa_family == 2 then sin_addr a else sin6_addr a

-- The select server exits for any other family.
unfoldable pub get_internet_address : SockAddr → Option (List ℕ)
get_internet_address a =
    if a.sa_family == 2
    then some (sin_addr a)
    else if a.sa_family == 10
    then some (sin6_addr a)
    else none

pub data Program : Type 0 where
  poll_server select_server file_server raw_server : Program

unfoldable pub address_of : Program → SockAddr → Option (List ℕ)
unfolding get_in_addr file_internet_address raw_internet_addresses get_internet_address
address_of poll_server a = some (get_in_addr a)
address_of select_server a = get_internet_address a
address_of file_server a = some (file_internet_address a)
address_of raw_server a = some (raw_internet_addresses a)

-- What a program does with its text of the address: it shows the bytes, has NULL for a family that
-- inet_ntop(3) does not know, or has left by exit(3).
pub data Shown : Type 0 where
  shows : List ℕ → Shown
  null : Shown
  exits : Shown

-- inet_ntop(3) reads four bytes for AF_INET and sixteen for AF_INET6.
unfoldable pub inet_ntop : ℕ → Option (List ℕ) → Shown
inet_ntop family none = exits
inet_ntop family (some bytes) =
    if family == 2
    then shows (take 4 bytes)
    else if family == 10
    then shows (take 16 bytes)
    else null

unfoldable pub peer_address : Program → SockAddr → Shown
unfolding inet_ntop address_of
peer_address program a = inet_ntop a.sa_family (address_of program a)

-- What is left for a family that is neither.
abbrev refused : Program → Shown
refused select_server = exits
refused _ = null
