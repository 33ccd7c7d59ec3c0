-- ===== src/Sockets/Datagram.antt =====
-- The datagram programs: `unixDatagramSocketServer` of UnixDatagramSocketServer.c and `udpClient`
-- of UnixDatagramSocketClient.c.
use c_basics.Prelude.{
  ℕ, ◌≡◌, inl, inr, refl, Bool, true, false, Option, none, some, List, [], ◌∷◌, ◌++◌, arith, ◌==◌,
  if◌then◌else◌, Bool-cases, subst,
}
use c_basics.Prelude.{subst₂}
use c_basics.Sockets.Walk.{
  Entry, Descriptor, unset, fd, Call, opened, closed, freed, next, stop, Attempt, End, exhausted,
  broke, died, Walked, walk, opens, closes, Result, exit_failure, returned, no_socket,
}
use c_basics.Sockets.First.{
  Leaves, Balanced, opens-append, IsTidy, Found, Found-freed, has_socket, Outcome, at, past, dead,
  walk-Outcome,
}
use c_basics.Sockets.BindOrClose.{try, binds, try-IsTidy}
use c_basics.Kernel.{Recv, failed, got}

-- What the datagram server prints on its packet: the number it calls the length, and the text.
pub data Report : Type 0 where
  exits : List Call → Report
  prints : List Call → ℕ → List ℕ → Report

-- The printed length is `sizeof byteTotal`, the size of an int.
unfoldable pub report : List Call → Descriptor → Recv → Report
report cs d failed = exits cs
report cs (fd n) (got bytes) = prints (cs ++ (closed n ∷ [])) 4 bytes
report cs d (got bytes) = exits cs

-- After the loop over the list.
unfoldable pub settle_server : Recv → Walked → End → Report
settle_server r w exhausted = exits w.calls
settle_server r w (broke e) = report (w.calls ++ (freed ∷ [])) w.descriptor r
settle_server r w died = exits w.calls

-- The arguments are the list of getaddrinfo(3), or none for its error, and the answer of
-- recvfrom(2).
unfoldable pub datagram_server : Option (List Entry) → Recv → Report
unfolding settle_server report try
datagram_server none r = exits []
datagram_server (some es) r = let w = walk try unset es in settle_server r w w.ended

-- Only socket(2) is called for an entry by the client.
unfoldable pub socket_only : Entry → Option ℕ → Attempt
socket_only e none = no_socket
socket_only e (some n) = record { calls = opened n ∷ []; descriptor = fd n; verdict = stop }

unfoldable pub sender_try : Entry → Attempt
unfolding socket_only
sender_try e = socket_only e e.socket

-- `sent` is the answer of sendto(2), true for success. The client exits without close(2).
unfoldable pub settle_client : Bool → Walked → End → Result
settle_client sent w (broke e) =
    if sent then returned (w.calls ++ (freed ∷ [])) w.descriptor else exit_failure w.calls
settle_client sent w _ = exit_failure w.calls

unfoldable pub udp_client : ℕ → Option (List Entry) → Bool → Result
unfolding settle_client sender_try
udp_client argc none sent = exit_failure []
udp_client argc (some es) sent =
    if argc == 3
    then (let w = walk sender_try unset es in settle_client sent w w.ended)
    else exit_failure []

attempt-tidy :
    (e : Entry) (o : Option ℕ)
    → ((socket_only e o).verdict ≡ next → (has_socket o ≡ false) × Balanced (socket_only e o).calls)
      × ((socket_only e o).verdict ≡ stop
          → (has_socket o ≡ true)
            × ((n : ℕ) × (o ≡ some n)
                × ((socket_only e o).descriptor ≡ fd n)
                × Leaves n (socket_only e o).calls))
unfolding socket_only opens closes
attempt-tidy e none = (λ h. (refl, λ d. refl), λ h. cc)
attempt-tidy e (some n) = (λ h. cc, λ h. (refl, (n, refl, refl, λ d. ground arith)))

sender_try-IsTidy : IsTidy (λ e. has_socket e.socket) sender_try
unfolding sender_try
sender_try-IsTidy = record {
  next_unusable = λ e h. ((attempt-tidy e e.socket).0 h).0;
  next_closes = λ e h. ((attempt-tidy e e.socket).0 h).1;
  stop_usable = λ e h. ((attempt-tidy e e.socket).1 h).0;
  stop_leaves = λ e h. ((attempt-tidy e e.socket).1 h).1;
}

settle-prints :
    (es : List Entry) (w : Walked) (r : Recv) (cs : List Call) (n : ℕ) (text : List ℕ)
    → Outcome binds try try-IsTidy es w
    → settle_server r w w.ended ≡ prints cs n text
    → (n ≡ 4) × (r ≡ got text) × Balanced cs
unfolding settle_server report opens closes
settle-prints es w failed cs n text (at x end f) e =
    let bad : exits (w.calls ++ (freed ∷ [])) ≡ prints cs n text = rw end at e in cc
settle-prints es w (got bytes) cs n text (at x end f) e =
    let done : prints ((w.calls ++ (freed ∷ [])) ++ (closed f.number ∷ [])) 4 bytes
        ≡ prints cs n text =
      simp (end, f.holds) at e in
    let calls : (w.calls ++ (freed ∷ [])) ++ (closed f.number ∷ []) ≡ cs = ground arith in
    let balanced : Balanced ((w.calls ++ (freed ∷ [])) ++ (closed f.number ∷ [])) = λ d. omega (
      arith,
      opens-append d (w.calls ++ (freed ∷ [])) (closed f.number ∷ []),
      opens-append d w.calls (freed ∷ []),
      f.leaves d,
    ) in
    (ground arith, ground arith, subst Balanced calls balanced)
settle-prints es w r cs n text (past end all b) e =
    let bad : exits w.calls ≡ prints cs n text = rw end at e in cc
settle-prints es w r cs n text (dead end) e =
    let bad : exits w.calls ≡ prints cs n text = rw end at e in cc

-- What the datagram server prints is the packet that it received, but always with 4 as its length,
-- and by then it has closed every descriptor that it opened.
pub datagram_server-prints :
    (es : List Entry) (r : Recv) (cs : List Call) (n : ℕ) (text : List ℕ)
    → datagram_server (some es) r ≡ prints cs n text
    → (n ≡ 4) × (r ≡ got text) × Balanced cs
unfolding datagram_server
datagram_server-prints es r cs n text e =
    settle-prints es (walk try unset es) r cs n text (walk-Outcome binds try try-IsTidy unset es) e

settle_client-Found :
    (es : List Entry) (w : Walked) (sent : Bool) (cs : List Call) (d : Descriptor)
    → Outcome (λ e. has_socket e.socket) sender_try sender_try-IsTidy es w
    → settle_client sent w w.ended ≡ returned cs d
    → (sent ≡ true) × Found (λ e. has_socket e.socket) es cs d
unfolding settle_client
settle_client-Found es w true cs d (at x end f) e =
    let done : returned (w.calls ++ (freed ∷ [])) w.descriptor ≡ returned cs d = simp end at e in
    (
      refl,
      subst₂ (Found (λ e. has_socket e.socket) es) (ground arith) (ground arith)
          (Found-freed (λ e. has_socket e.socket) es w.calls w.descriptor f),
    )
settle_client-Found es w false cs d (at x end f) e =
    let bad : exit_failure w.calls ≡ returned cs d = simp end at e in cc
settle_client-Found es w sent cs d (past end all b) e =
    let bad : exit_failure w.calls ≡ returned cs d = simp end at e in cc
settle_client-Found es w sent cs d (dead end) e =
    let bad : exit_failure w.calls ≡ returned cs d = simp end at e in cc

-- The datagram client succeeds only with exactly two arguments beside its name and a sendto(2) that
-- succeeds, on the descriptor of the first entry that socket(2) takes, which it never closes.
pub udp_client-Found :
    (argc : ℕ) (es : List Entry) (sent : Bool) (cs : List Call) (d : Descriptor)
    → udp_client argc (some es) sent ≡ returned cs d
    → (argc ≡ 3) × (sent ≡ true) × Found (λ e. has_socket e.socket) es cs d
unfolding udp_client
udp_client-Found argc es sent cs d e = elim (Bool-cases (argc == 3)) [
  | inl three ↦
      let (good, found) =
        settle_client-Found es (walk sender_try unset es) sent cs d
          (walk-Outcome (λ e. has_socket e.socket) sender_try sender_try-IsTidy unset es)
          (rw three at e) in
      (ground arith, good, found)
  | inr other ↦ let bad : exit_failure [] ≡ returned cs d = rw other at e in cc
]
