-- ===== src/Sockets/RawListener.antt =====
-- `get_listener` of UnixRawNetworkLayerSocketServer.c, and the start of its `main`.
use c_basics.Prelude.{
  ℕ, zero, suc, ◌≡◌, inl, inr, refl, Bool, true, false, Option, none, some, List, [], ◌∷◌, ◌++◌,
  arith, if◌then◌else◌, Bool-cases,
}
use c_basics.Sockets.Walk.{
  Entry, Descriptor, unset, minus_one, fd, Call, opened, freed, next, stop, Attempt, End, exhausted,
  broke, died, Walked, follow, walk, Result, exit_failure, returned, listen_on,
}

-- `listener = socket(...) < 0` stores the truth value, so descriptor 0 is bound in place of the new
-- one.
unfoldable pub attempt : Entry → Option ℕ → Attempt
attempt e none = record { calls = []; descriptor = fd 1; verdict = next }
attempt e (some n) =
    if e.bind
    then record { calls = opened n ∷ []; descriptor = fd 0; verdict = stop }
    else record { calls = opened n ∷ []; descriptor = fd 0; verdict = next }

-- After the loop.
unfoldable pub settle : (List Call → Descriptor → Bool) → Walked → End → Result
settle listen w exhausted = exit_failure w.calls
settle listen w (broke e) = listen_on listen (w.calls ++ (freed ∷ [])) w.descriptor
settle listen w died = exit_failure w.calls

unfoldable pub raw_try : Entry → Attempt
unfolding attempt
raw_try e = attempt e e.socket

-- `get_listener`: the argument is the list of getaddrinfo(3), or none for its error.
unfoldable pub get_listener : (List Call → Descriptor → Bool) → Option (List Entry) → Result
unfolding settle raw_try
get_listener listen none = exit_failure []
get_listener listen (some es) = let w = walk raw_try unset es in settle listen w w.ended

-- `listener <= 0`.
abbrev pub not_positive : Descriptor → Bool
not_positive unset = false
not_positive minus_one = true
not_positive (fd zero) = true
not_positive (fd (suc n)) = false

-- `main` up to its first poll(2): the listener that it goes on with, or its exit.
unfoldable pub check_listener : Result → Result
check_listener (exit_failure cs) = exit_failure cs
check_listener (returned cs d) = if not_positive d then exit_failure cs else returned cs d

unfoldable pub main_start : (List Call → Descriptor → Bool) → Option (List Entry) → Result
main_start listen list = check_listener (get_listener listen list)

-- The loop never ends at an entry with another descriptor than 0.
abbrev Zero : Walked → End → Type 0
Zero w (broke e) = w.descriptor ≡ fd 0
Zero w _ = Unit

attempt-Zero :
    (e : Entry) (o : Option ℕ) (w : Walked)
    → Zero w w.ended
    → let a = attempt e o in let f = follow e a.calls a.descriptor a.verdict w in Zero f f.ended
unfolding attempt
attempt-Zero e none w z = z
attempt-Zero e (some n) w z = elim (Bool-cases e.bind) [
  | inl good ↦ rw good refl
  | inr bad ↦ rw bad z
]

walk-Zero : (d : Descriptor) (es : List Entry) → Zero (walk raw_try d es) (walk raw_try d es).ended
unfolding walk raw_try
walk-Zero d [] = tt
walk-Zero d (e ∷ es) =
    attempt-Zero e e.socket (walk raw_try (raw_try e).descriptor es)
      (walk-Zero (raw_try e).descriptor es)

settle-exits :
    (listen : List Call → Descriptor → Bool) (w : Walked) (end : End)
    → Zero w end
    → (cs : List Call) × (check_listener (settle listen w end) ≡ exit_failure cs)
unfolding check_listener settle listen_on
settle-exits listen w exhausted z = (w.calls, refl)
settle-exits listen w (broke e) z = (w.calls ++ (freed ∷ []), ground arith)
settle-exits listen w died z = (w.calls, refl)

-- Whatever the kernel answers, the raw socket server exits with failure before it polls: no list of
-- addresses and no outcome of socket(2), bind(2) and listen(2) gives `main` a listener that it
-- keeps.
pub main_start-exits :
    (listen : List Call → Descriptor → Bool) (list : Option (List Entry))
    → (cs : List Call) × (main_start listen list ≡ exit_failure cs)
unfolding main_start get_listener check_listener
main_start-exits listen none = ([], refl)
main_start-exits listen (some es) =
    settle-exits listen (walk raw_try unset es) (walk raw_try unset es).ended (walk-Zero unset es)
