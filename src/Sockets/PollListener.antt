-- ===== src/Sockets/PollListener.antt =====
-- `get_listener_socket` of TelnetServerPollingFileDescriptorsWithUnixStreamStreamSockets.c.
use c_basics.Prelude.{◌≡◌, ◌≢◌, Bool, Option, none, some, List, [], ◌∷◌, ◌++◌, arith}
use c_basics.Sockets.Walk.{
  Entry, Descriptor, unset, Call, closed, freed, End, exhausted, broke, died, Walked, walk, opens,
  closes, Result, exit_failure, returned, listen_on,
}
use c_basics.Sockets.First.{
  Balanced, opens-append, Found, Found-returned, listen-closed, listen_on-returned, Outcome, at,
  past, dead, walk-Outcome, IsListen,
}
use c_basics.Sockets.BindOrClose.{try, binds, try-IsTidy}

-- After the loop. With no entry bound the code closes descriptor EXIT_FAILURE, which is 1, and goes
-- on.
unfoldable pub settle : (List Call → Descriptor → Bool) → Walked → End → Result
settle listen w exhausted = listen_on listen (w.calls ++ (freed ∷ closed 1 ∷ [])) w.descriptor
settle listen w (broke e) = listen_on listen (w.calls ++ (freed ∷ [])) w.descriptor
settle listen w died = exit_failure w.calls

-- The argument is the list of getaddrinfo(3), or none for its error.
unfoldable pub get_listener_socket : (List Call → Descriptor → Bool) → Option (List Entry) → Result
unfolding settle try
get_listener_socket listen none = exit_failure []
get_listener_socket listen (some es) = let w = walk try unset es in settle listen w w.ended

not_returned :
    (listen : List Call → Descriptor → Bool) (w : Walked) (cs : List Call) (d : Descriptor)
    → IsListen listen
    → Balanced w.calls
    → listen_on listen (w.calls ++ (freed ∷ closed 1 ∷ [])) w.descriptor ≢ returned cs d
unfolding opens closes
not_returned listen w cs d law b e =
    let (_, _, listens) =
      listen_on-returned listen (w.calls ++ (freed ∷ closed 1 ∷ [])) cs w.descriptor d e in
    let fails =
      listen-closed listen (w.calls ++ (freed ∷ closed 1 ∷ [])) w.descriptor law
        (λ n. omega (arith, opens-append n w.calls (freed ∷ closed 1 ∷ []), b n)) in
    cc

settle-returned :
    (listen : List Call → Descriptor → Bool) (es : List Entry) (w : Walked) (cs : List Call)
    (d : Descriptor)
    → IsListen listen
    → Outcome binds try try-IsTidy es w
    → settle listen w w.ended ≡ returned cs d
    → Found binds es cs d
unfolding settle
settle-returned listen es w cs d law (at x end f) e =
    Found-returned binds listen es w cs d f (rw end at e)
settle-returned listen es w cs d law (past end all b) e =
    absurd (not_returned listen w cs d law b (rw end at e))
settle-returned listen es w cs d law (dead end) e =
    let bad : exit_failure w.calls ≡ returned cs d = rw end at e in cc

-- A listener that the function returns is the descriptor of the first entry on which socket(2) and
-- bind(2) succeed, and it is the only descriptor that the function leaves open.
pub get_listener_socket-Found :
    (listen : List Call → Descriptor → Bool) (es : List Entry) (cs : List Call) (d : Descriptor)
    → IsListen listen
    → get_listener_socket listen (some es) ≡ returned cs d
    → Found binds es cs d
unfolding get_listener_socket
get_listener_socket-Found listen es cs d law e =
    settle-returned listen es (walk try unset es) cs d law
      (walk-Outcome binds try try-IsTidy unset es) e
