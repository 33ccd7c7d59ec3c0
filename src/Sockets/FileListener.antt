-- ===== src/Sockets/FileListener.antt =====
-- `get_listener_socket` of UnixFileTransferStreamServer.c.
use c_basics.Prelude.{◌≡◌, Bool, true, Option, none, some, List, []}
use c_basics.Prelude.{subst₂}
use c_basics.Sockets.Walk.{
  Entry, Descriptor, unset, Call, End, exhausted, broke, died, Walked, walk, Result, exit_failure,
  returned, listen_on,
}
use c_basics.Sockets.First.{Found, listen_on-returned, Outcome, at, past, dead, walk-Outcome}
use c_basics.Sockets.BindOrClose.{try, binds, try-IsTidy}

-- After the loop. The list of getaddrinfo(3) is not freed.
unfoldable pub settle : (List Call → Descriptor → Bool) → Walked → End → Result
settle listen w exhausted = exit_failure w.calls
settle listen w (broke e) = listen_on listen w.calls w.descriptor
settle listen w died = exit_failure w.calls

-- The argument is the list of getaddrinfo(3), or none for its error.
unfoldable pub get_listener_socket : (List Call → Descriptor → Bool) → Option (List Entry) → Result
unfolding settle try
get_listener_socket listen none = exit_failure []
get_listener_socket listen (some es) = let w = walk try unset es in settle listen w w.ended

settle-returned :
    (listen : List Call → Descriptor → Bool) (es : List Entry) (w : Walked) (cs : List Call)
    (d : Descriptor)
    → Outcome binds try try-IsTidy es w
    → settle listen w w.ended ≡ returned cs d
    → Found binds es cs d × (listen cs d ≡ true)
unfolding settle
settle-returned listen es w cs d (at x end f) e =
    let (same, held, listens) = listen_on-returned listen w.calls cs w.descriptor d (rw end at e) in
    (subst₂ (Found binds es) same held f, subst₂ (λ c x. listen c x ≡ true) same held listens)
settle-returned listen es w cs d (past end all b) e =
    let bad : exit_failure w.calls ≡ returned cs d = rw end at e in cc
settle-returned listen es w cs d (dead end) e =
    let bad : exit_failure w.calls ≡ returned cs d = rw end at e in cc

-- A listener that the function of the file server returns is listening, is the descriptor of the
-- first entry on which socket(2) and bind(2) succeed, and is the only one left open.
pub file_listener-Found :
    (listen : List Call → Descriptor → Bool) (es : List Entry) (cs : List Call) (d : Descriptor)
    → get_listener_socket listen (some es) ≡ returned cs d
    → Found binds es cs d × (listen cs d ≡ true)
unfolding get_listener_socket
file_listener-Found listen es cs d e =
    settle-returned listen es (walk try unset es) cs d (walk-Outcome binds try try-IsTidy unset es)
      e
