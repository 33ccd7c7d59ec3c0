-- ===== src/SelectServer/Limit.antt =====
-- What the walk of the select server does once a descriptor 1023 is in use.
use c_basics.Prelude.{
  ℕ, zero, suc, ◌+◌, ◌≤◌, ◌≡◌, refl, ap, ◌∙◌, Bool, Option, none, some, List, ◌++◌, arith, leb,
  ◌>>=◌,
}
use c_basics.SelectServer.Loop.{
  Event, State, Answers, visit, walk, turn, finish, ready, faulted, fd_setsize, cleared,
}
use c_basics.SelectServer.Members.{IsListening, if-true}
use c_basics.SelectServer.Invariant.{Keeps, kept, visit-Keeps}
use c_basics.SelectServer.Turns.{cleared-IsListening}

Keeps-none :
    {listener low : ℕ} (o : Option (State × List Event))
    (f : State × List Event → Option (State × List Event))
    → Keeps listener low o
    → ((s : State) (events : List Event)
        → IsListening listener s
        → low ≤ s.fd_max
        → f (s, events) ≡ none)
    → o >>= f ≡ none
Keeps-none none f h k = refl
Keeps-none (some (s, events)) f (kept h le) k = k s events h le

-- No visit lowers `fd_max`, so that the walk comes to 1024.
walk-limit :
    (a : Answers) (select_set : ℕ → Bool) (listener fuel : ℕ) (s : State) (i : ℕ)
    → IsListening listener s
    → 1023 ≤ s.fd_max
    → fuel + i ≡ fd_setsize
    → walk a select_set listener fuel s i ≡ none
unfolding walk
walk-limit a select_set listener zero s i h full rounds = ground arith
walk-limit a select_set listener (suc fuel) s i h full rounds =
    if-true {b = leb i (s.fd_max + 1)} _ _ (ground arith)
    ∙ Keeps-none (visit a select_set listener s i) _ (visit-Keeps a select_set listener s i h)
        (λ s' now h' le.
          ap (λ o. o >>= (λ (s'', later). some (s'', now ++ later)))
            (walk-limit a select_set listener fuel s' (suc i) h' (omega (arith, le, full))
              (omega arith)))

-- In a listening state with `fd_max` at 1023, the largest that there is, every turn in which
-- select(2) answers descriptors faults, whatever these are and whatever they bring: at the latest,
-- FD_ISSET is asked for 1024.
pub turn-limit :
    (a : Answers) (select_set : ℕ → Bool) (listener : ℕ) (s : State)
    → IsListening listener s
    → s.fd_max ≡ 1023
    → turn (ready select_set) a listener s ≡ faulted
unfolding turn
turn-limit a select_set listener s h full = ap finish (
    walk-limit a select_set listener fd_setsize (cleared s) 0 (cleared-IsListening listener s h)
      (omega (arith, full)) (omega arith))
