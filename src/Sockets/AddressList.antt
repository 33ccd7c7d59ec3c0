-- ===== src/Sockets/AddressList.antt =====
-- `streamSocketAddressInfo` of FetchUnixStreamSocketAddress.c.
use c_basics.Prelude.{
  ℕ, zero, suc, ◌+◌, ◌≡◌, refl, ap, ◌∙◌, Option, none, some, List, [], ◌∷◌, arith, ◌==◌,
  if◌then◌else◌, length, take, get_elem?,
}

-- One `struct addrinfo` of the list: AF_INET is 2 and AF_INET6 is 10; `sa_data` begins with the two
-- bytes of the port.
pub record AddressInfo : Type 0 where
  pub ai_family : ℕ
  pub sa_data : List ℕ

-- "This is entry %d in the list", and the bytes that inet_ntop(3) prints as the address, if it is
-- called.
pub record Line : Type 0 where
  pub index : ℕ
  pub address : Option (List ℕ)

-- exit(3) with a failure; or a return, with what was printed and how many entries freeaddrinfo(3)
-- frees.
pub data Outcome : Type 0 where
  exit_failure : Outcome
  returned : List Line → ℕ → Outcome

-- inet_ntop(3) is passed `&serverInfo->ai_addr->sa_data`, of which it reads 16 or 4 bytes.
unfoldable pub print_address : AddressInfo → Option (List ℕ)
print_address a =
    if a.ai_family == 10
    then some (take 16 a.sa_data)
    else if a.ai_family == 2
    then some (take 4 a.sa_data)
    else none

-- The loop moves `serverInfo` itself to the end of the list, with `i` counted up: what it prints,
-- and where `serverInfo` stands.
unfoldable pub list_entries : ℕ → List AddressInfo → List Line × List AddressInfo
unfolding print_address
list_entries i [] = ([], [])
list_entries i (a ∷ server_info) =
    let (lines, left) = list_entries (suc i) server_info in
    (record { index = i; address = print_address a } ∷ lines, left)

-- The argument is the list of getaddrinfo(3), or none for its error.
unfoldable pub stream_socket_address_info : Option (List AddressInfo) → Outcome
unfolding list_entries
stream_socket_address_info none = exit_failure
stream_socket_address_info (some server_info) =
    let (lines, left) = list_entries 0 server_info in returned lines (length left)

list_entries-left : (i : ℕ) (list : List AddressInfo) → (list_entries i list).1 ≡ []
unfolding list_entries
list_entries-left i [] = refl
list_entries-left i (a ∷ list) = list_entries-left (suc i) list

length-list_entries :
    (i : ℕ) (list : List AddressInfo) → length (list_entries i list).0 ≡ length list
unfolding list_entries
length-list_entries i [] = refl
length-list_entries i (a ∷ list) = omega (arith, length-list_entries (suc i) list)

list_entries-line :
    (i k : ℕ) (list : List AddressInfo) (a : AddressInfo)
    → get_elem? list k ≡ some a
    → get_elem? (list_entries i list).0 k
      ≡ some (record { index = i + k; address = print_address a })
unfolding list_entries
list_entries-line i k [] a e = ground (arith, e)
list_entries-line i zero (b ∷ list) a e = ground (arith, e)
list_entries-line i (suc k) (b ∷ list) a e = ground (arith, list_entries-line (suc i) k list a e)

shown_address :
    (a : AddressInfo) (hi lo first second : ℕ) (rest : List ℕ)
    → a.ai_family ≡ 2
    → a.sa_data ≡ hi ∷ lo ∷ first ∷ second ∷ rest
    → print_address a ≡ some (hi ∷ lo ∷ first ∷ second ∷ [])
unfolding print_address
shown_address a hi lo first second rest four bytes = ground (arith, four, ap (take 4) bytes)

-- One line is printed for each entry, numbered from 0 on. The address that it shows for an IPv4
-- entry is not the entry's, but the two bytes of its port and the first two of its address. The
-- list that the kernel made is not freed at all.
pub stream_socket_address_info-shifts :
    (list : List AddressInfo) (k hi lo first second : ℕ) (rest : List ℕ) (a : AddressInfo)
    → get_elem? list k ≡ some a
    → a.ai_family ≡ 2
    → a.sa_data ≡ hi ∷ lo ∷ first ∷ second ∷ rest
    → (lines : List Line) × (stream_socket_address_info (some list) ≡ returned lines 0)
      × (length lines ≡ length list)
      × (get_elem? lines k
          ≡ some (record { index = k; address = some (hi ∷ lo ∷ first ∷ second ∷ []) }))
unfolding stream_socket_address_info
stream_socket_address_info-shifts list k hi lo first second rest a e four bytes =
    let from_zero : 0 + k ≡ k = omega arith in
    (
      (list_entries 0 list).0,
      ap (λ left. returned (list_entries 0 list).0 (length left)) (list_entries-left 0 list),
      length-list_entries 0 list,
      list_entries-line 0 k list a e
          ∙ ap (λ shown. some (record { index = 0 + k; address = shown }))
              (shown_address a hi lo first second rest four bytes)
          ∙ ap (λ i. some (record { index = i; address = some (hi ∷ lo ∷ first ∷ second ∷ []) }))
              from_zero,
    )
