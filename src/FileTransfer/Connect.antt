-- ===== src/FileTransfer/Connect.antt =====
-- `main2` of UnixFileTransferStreamClient.c up to its connection.
use c_basics.Prelude.{
  ℕ, ◌≡◌, refl, Bool, true, false, ◌&&◌, Option, none, some, List, [], ◌∷◌, ◌++◌, arith,
  if◌then◌else◌,
}
use c_basics.Prelude.{subst₂}
use c_basics.Sockets.Walk.{
  Entry, Descriptor, unset, fd, Call, opened, closed, freed, next, stop, Attempt, End, broke,
  Walked, walk, opens, closes, Result, exit_failure, returned, no_socket,
}
use c_basics.Sockets.First.{
  Leaves, Balanced, IsTidy, Found, Found-freed, has_socket, Outcome, at, past, dead, walk-Outcome,
}

-- A failed connect(2) is closed and the loop goes on.
unfoldable pub connect_or_close : Entry → Option ℕ → Attempt
connect_or_close e none = no_socket
connect_or_close e (some n) =
    if e.connect
    then record { calls = opened n ∷ []; descriptor = fd n; verdict = stop }
    else record { calls = opened n ∷ closed n ∷ []; descriptor = fd n; verdict = next }

unfoldable pub transfer_try : Entry → Attempt
unfolding connect_or_close
transfer_try e = connect_or_close e e.socket

unfoldable pub settle : Walked → End → Result
settle w (broke e) = returned (w.calls ++ (freed ∷ [])) w.descriptor
settle w _ = exit_failure w.calls

-- The argument is the list of getaddrinfo(3), or none for its error. A wrong number of arguments is
-- only complained about.
unfoldable pub transfer_connect : Option (List Entry) → Result
unfolding settle transfer_try
transfer_connect none = exit_failure []
transfer_connect (some es) = let w = walk transfer_try unset es in settle w w.ended

-- An entry serves if socket(2) and connect(2) succeed on it.
abbrev pub connects : Entry → Bool
connects e = has_socket e.socket && e.connect

attempt-tidy :
    (e : Entry) (o : Option ℕ)
    → ((connect_or_close e o).verdict ≡ next
        → (has_socket o && e.connect ≡ false) × Balanced (connect_or_close e o).calls)
      × ((connect_or_close e o).verdict ≡ stop
          → (has_socket o && e.connect ≡ true)
            × ((n : ℕ) × (o ≡ some n)
                × ((connect_or_close e o).descriptor ≡ fd n)
                × Leaves n (connect_or_close e o).calls))
unfolding connect_or_close opens closes
attempt-tidy e none = (λ h. (refl, λ d. refl), λ h. cc)
attempt-tidy e (some n) = (
  λ h. (ground arith, λ d. ground arith),
  λ h. (ground arith, (n, refl, ground arith, λ d. ground arith)),
)

transfer_try-IsTidy : IsTidy connects transfer_try
unfolding transfer_try
transfer_try-IsTidy = record {
  next_unusable = λ e h. ((attempt-tidy e e.socket).0 h).0;
  next_closes = λ e h. ((attempt-tidy e e.socket).0 h).1;
  stop_usable = λ e h. ((attempt-tidy e e.socket).1 h).0;
  stop_leaves = λ e h. ((attempt-tidy e e.socket).1 h).1;
}

settle-Found :
    (es : List Entry) (w : Walked) (cs : List Call) (d : Descriptor)
    → Outcome connects transfer_try transfer_try-IsTidy es w
    → settle w w.ended ≡ returned cs d
    → Found connects es cs d
unfolding settle
settle-Found es w cs d (at x end f) e =
    let done : returned (w.calls ++ (freed ∷ [])) w.descriptor ≡ returned cs d = simp end at e in
    subst₂ (Found connects es) (ground arith) (ground arith)
      (Found-freed connects es w.calls w.descriptor f)
settle-Found es w cs d (past end all b) e =
    let bad : exit_failure w.calls ≡ returned cs d = simp end at e in cc
settle-Found es w cs d (dead end) e =
    let bad : exit_failure w.calls ≡ returned cs d = simp end at e in cc

-- The file client goes on with the descriptor of the first entry on which socket(2) and connect(2)
-- both succeed, and with nothing else open.
pub transfer_connect-Found :
    (es : List Entry) (cs : List Call) (d : Descriptor)
    → transfer_connect (some es) ≡ returned cs d
    → Found connects es cs d
unfolding transfer_connect
transfer_connect-Found es cs d e =
    settle-Found es (walk transfer_try unset es) cs d
      (walk-Outcome connects transfer_try transfer_try-IsTidy unset es) e
