-- ===== src/Sockets/Broadcaster.antt =====
-- `udpBroadcaster` of UnixDatagramSocketBroadcaster.c.
use c_basics.Prelude.{
  ℕ, ◌≡◌, sym, ap, ◌∙◌, Bool, Option, none, some, List, [], ◌∷◌, arith, ◌==◌, if◌then◌else◌, inl,
  inr, Bool-cases, Option-cases,
}
use c_basics.Sockets.Walk.{Call, opened, closed, opens, closes}

-- What is answered: to gethostbyname(3), the address; to socket(2); to setsockopt(2) for
-- SO_BROADCAST; and to sendto(2), by address, port and text, the number of bytes sent.
pub record Answers : Type 0 where
  pub host : Option (List ℕ)
  pub socket : Option ℕ
  pub setsockopt : Bool
  pub sendto : List ℕ → ℕ → List ℕ → Option ℕ

-- `exit(EXIT_FAILURE)`, or "sent %d bytes to %s" and `exit(EXIT_SUCCESS)`, after these calls.
pub data Run : Type 0 where
  fails : List Call → Run
  sent : ℕ → List ℕ → List Call → Run

unfoldable pub report : ℕ → List ℕ → Option ℕ → Run
report sock_fd address none = fails (opened sock_fd ∷ [])
report sock_fd address (some bytes_sent) =
    sent bytes_sent address (opened sock_fd ∷ closed sock_fd ∷ [])

-- With the socket and the address: SERVERPORT is 6969.
unfoldable pub send_out : Answers → List ℕ → List ℕ → ℕ → Run
unfolding report
send_out a message address sock_fd =
    if a.setsockopt
    then report sock_fd address (a.sendto address 6969 message)
    else fails (opened sock_fd ∷ [])

unfoldable pub open_and_send : Answers → List ℕ → List ℕ → Option ℕ → Run
unfolding send_out
open_and_send a message address none = fails []
open_and_send a message address (some sock_fd) = send_out a message address sock_fd

unfoldable pub find_and_send : Answers → List ℕ → Option (List ℕ) → Run
unfolding open_and_send
find_and_send a message none = fails []
find_and_send a message (some address) = open_and_send a message address a.socket

-- The arguments are their number and the second one, which is the message.
unfoldable pub udp_broadcaster : Answers → ℕ → List ℕ → Run
unfolding find_and_send
udp_broadcaster a argc message = if argc == 3 then find_and_send a message a.host else fails []

report-sent :
    (sock_fd n : ℕ) (address shown : List ℕ) (calls : List Call) (o : Option ℕ)
    → report sock_fd address o ≡ sent n shown calls
    → (o ≡ some n) × (shown ≡ address) × (calls ≡ opened sock_fd ∷ closed sock_fd ∷ [])
unfolding report
report-sent sock_fd n address shown calls none e = absurd (ground (arith, e))
report-sent sock_fd n address shown calls (some m) e = ground (arith, e)

-- What the program prints is what sendto(2) answered for the address that it found, SERVERPORT and
-- the whole message; its socket is then closed.
pub udp_broadcaster-sent :
    (a : Answers) (argc n : ℕ) (message shown : List ℕ) (calls : List Call)
    → udp_broadcaster a argc message ≡ sent n shown calls
    → (a.host ≡ some shown)
      × (a.sendto shown 6969 message ≡ some n)
      × ((d : ℕ) → opens d calls ≡ closes d calls)
unfolding udp_broadcaster opens closes
udp_broadcaster-sent a argc n message shown calls e = elim (Option-cases a.host) [
  | inl lost ↦ absurd (ground (arith, lost, e))
  | inr (address, found) ↦ elim (Option-cases a.socket) [
    | inl refused ↦ absurd (ground (arith, found, refused, e))
    | inr (fd, made) ↦ elim (Bool-cases a.setsockopt) [
      | inr refused ↦ absurd (ground (arith, found, made, refused, e))
      | inl allowed ↦
          let (o, same, done) =
            report-sent fd n address shown calls (a.sendto address 6969 message)
              (ground (arith, found, made, allowed, e)) in
          (
            found ∙ ap some (sym same),
            ap (λ x. a.sendto x 6969 message) same ∙ o,
            λ d. ap (opens d) done ∙ ap (closes d) (sym done),
          )
    ]
  ]
]
