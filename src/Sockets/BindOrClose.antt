-- ===== src/Sockets/BindOrClose.antt =====
-- A loop body that three servers share: socket(2), then bind(2), with close(2) on a failure.
use c_basics.Prelude.{
  ℕ, ◌≡◌, refl, Bool, true, false, ◌&&◌, Option, none, some, [], ◌∷◌, arith, if◌then◌else◌,
}
use c_basics.Sockets.Walk.{Entry, fd, opened, closed, next, stop, Attempt, opens, closes, no_socket}
use c_basics.Sockets.First.{Leaves, Balanced, IsTidy, has_socket}

-- The result of setsockopt(2) between the two is not looked at.
unfoldable pub bind_or_close : Entry → Option ℕ → Attempt
bind_or_close e none = no_socket
bind_or_close e (some n) =
    if e.bind
    then record { calls = opened n ∷ []; descriptor = fd n; verdict = stop }
    else record { calls = opened n ∷ closed n ∷ []; descriptor = fd n; verdict = next }

unfoldable pub try : Entry → Attempt
unfolding bind_or_close
try e = bind_or_close e e.socket

-- An entry serves if socket(2) and bind(2) succeed on it.
abbrev pub binds : Entry → Bool
binds e = has_socket e.socket && e.bind

bind_or_close-tidy :
    (e : Entry) (o : Option ℕ)
    → ((bind_or_close e o).verdict ≡ next
        → (has_socket o && e.bind ≡ false) × Balanced (bind_or_close e o).calls)
      × ((bind_or_close e o).verdict ≡ stop
          → (has_socket o && e.bind ≡ true)
            × ((n : ℕ) × (o ≡ some n)
                × ((bind_or_close e o).descriptor ≡ fd n)
                × Leaves n (bind_or_close e o).calls))
unfolding bind_or_close opens closes
bind_or_close-tidy e none = (λ h. (refl, λ d. refl), λ h. cc)
bind_or_close-tidy e (some n) = (
  λ h. (ground arith, λ d. ground arith),
  λ h. (ground arith, (n, refl, ground arith, λ d. ground arith)),
)

pub try-IsTidy : IsTidy binds try
unfolding try
try-IsTidy = record {
  next_unusable = λ e h. ((bind_or_close-tidy e e.socket).0 h).0;
  next_closes = λ e h. ((bind_or_close-tidy e e.socket).0 h).1;
  stop_usable = λ e h. ((bind_or_close-tidy e e.socket).1 h).0;
  stop_leaves = λ e h. ((bind_or_close-tidy e e.socket).1 h).1;
}
