-- ===== src/Sockets/Walk.antt =====
-- The loop `for (pointer = list; pointer != NULL; pointer = pointer->ai_next)` that the socket
-- programs share, over what the kernel answers for each entry of the list.
use c_basics.Prelude.{ℕ, ◌+◌, Bool, Option, List, [], ◌∷◌, ◌++◌, ◌==◌, if◌then◌else◌}

-- One `struct addrinfo` of the list, with the answers to the calls made for it: `socket` is none
-- for -1, the others are true for success.
pub record Entry : Type 0 where
  pub ai_family : ℕ
  pub socket : Option ℕ
  pub setsockopt : Bool
  pub bind : Bool
  pub connect : Bool

-- A C variable for a descriptor: never assigned, -1, or a descriptor.
pub data Descriptor : Type 0 where
  unset minus_one : Descriptor
  fd : ℕ → Descriptor

pub data Call : Type 0 where
  opened : ℕ → Call
  closed : ℕ → Call
  freed : Call

-- `continue`, `break`, and exit(3).
pub data Verdict : Type 0 where
  next stop die : Verdict

-- The body of the loop at one entry.
pub record Attempt : Type 0 where
  pub calls : List Call
  pub descriptor : Descriptor
  pub verdict : Verdict

-- How the loop ends: `pointer` is NULL, or stands at an entry, or the program has exited.
pub data End : Type 0 where
  exhausted : End
  broke : Entry → End
  died : End

pub record Walked : Type 0 where
  pub calls : List Call
  pub descriptor : Descriptor
  pub ended : End

abbrev pub follow : Entry → List Call → Descriptor → Verdict → Walked → Walked
follow e cs d next rest = record rest { calls = cs ++ rest.calls }
follow e cs d stop rest = record { calls = cs; descriptor = d; ended = broke e }
follow e cs d die rest = record { calls = cs; descriptor = d; ended = died }

unfoldable pub walk : (Entry → Attempt) → Descriptor → List Entry → Walked
walk try d [] = record { calls = []; descriptor = d; ended = exhausted }
walk try d (e ∷ es) =
    follow e (try e).calls (try e).descriptor (try e).verdict (walk try (try e).descriptor es)

-- How often the calls open and close a descriptor.
unfoldable pub opens : ℕ → List Call → ℕ
opens d [] = 0
opens d (opened n ∷ cs) = (if n == d then 1 else 0) + opens d cs
opens d (_ ∷ cs) = opens d cs

unfoldable pub closes : ℕ → List Call → ℕ
closes d [] = 0
closes d (closed n ∷ cs) = (if n == d then 1 else 0) + closes d cs
closes d (_ ∷ cs) = closes d cs

-- What a listener function does: `exit(EXIT_FAILURE)` or a return, after its calls.
pub data Result : Type 0 where
  exit_failure : List Call → Result
  returned : List Call → Descriptor → Result

-- `socket` failed: the variable holds -1 and the loop goes on.
abbrev pub no_socket : Attempt
no_socket = record { calls = []; descriptor = minus_one; verdict = next }

-- listen(2), given the calls made before it, and the last lines of every listener function.
unfoldable pub listen_on : (List Call → Descriptor → Bool) → List Call → Descriptor → Result
listen_on listen cs d = if listen cs d then returned cs d else exit_failure cs
