-- ===== src/Raw/Server.antt =====
-- `main` of UnixRawNetworkLayerSocketServer.c with its loop and `handle_client_connection`.
use c_basics.Prelude.{
  ℕ, ◌+◌, ◌/◌, ◌%◌, ◌≤◌, ◌≡◌, refl, ap, Bool, true, false, Option, none, some, List, [], ◌∷◌, ◌++◌,
  arith, if◌then◌else◌, length,
}
use c_basics.Sockets.Walk.{
  Entry, Descriptor, Call, opened, closed, opens, closes, Result, exit_failure, returned,
}
use c_basics.Sockets.RawListener.{main_start, main_start-exits}

-- `header`, the bytes of htons(3) of the length of the greeting, as the comma expression gives it;
-- nothing is sent.
unfoldable pub handle_client_connection : List ℕ → List ℕ
handle_client_connection welcome_msg =
    length welcome_msg / 256 % 256 ∷ length welcome_msg % 256 ∷ []

-- The answer of fork(2): -1, or the process that goes on.
pub data Fork : Type 0 where
  fork_failed in_child in_parent : Fork

-- The answers in one round of the loop.
pub record Round : Type 0 where
  pub sigaction : Bool
  pub accept : Option ℕ
  pub fork : Fork

-- Where the process is after the rounds: in the loop, out of it by a failure, or in a child that
-- has exited after `handle_client_connection`.
pub data Ending : Type 0 where
  looping : Ending
  failed : Ending
  child_exited : Ending

pub record Served : Type 0 where
  pub calls : List Call
  pub ending : Ending

-- From accept(2) on, with what the later rounds give.
unfoldable pub connect : Option ℕ → Fork → Served → Served
connect none fork rest = record { calls = []; ending = failed }
connect (some new_fd) in_child rest = record { calls = opened new_fd ∷ []; ending = child_exited }
connect (some new_fd) fork rest = record rest { calls = opened new_fd ∷ closed new_fd ∷ rest.calls }

-- The loop, with whether the one poll(2) before it has set revents to POLLIN.
unfoldable pub serve : Bool → List Round → Served
unfolding connect
serve pollin [] = record { calls = []; ending = looping }
serve pollin (r ∷ rounds) =
    let rest = serve pollin rounds in
    if r.sigaction
    then (if pollin then connect r.accept r.fork rest else rest)
    else record { calls = []; ending = failed }

-- After poll(2), where none is -1.
unfoldable pub poll_then_serve : List Call → Option Bool → List Round → Served
unfolding serve
poll_then_serve cs none rounds = record { calls = cs; ending = failed }
poll_then_serve cs (some pollin) rounds =
    let served = serve pollin rounds in record served { calls = cs ++ served.calls }

unfoldable pub main_from : Result → Option Bool → List Round → Served
unfolding poll_then_serve
main_from (exit_failure cs) poll rounds = record { calls = cs; ending = failed }
main_from (returned cs d) poll rounds = poll_then_serve cs poll rounds

-- `main`, whole.
unfoldable pub main :
    (List Call → Descriptor → Bool) → Option (List Entry) → Option Bool → List Round → Served
unfolding main_from
main listen list poll rounds = main_from (main_start listen list) poll rounds

serve-deaf : (rounds : List Round) → (serve false rounds).calls ≡ []
unfolding serve
serve-deaf [] = refl
serve-deaf (r ∷ rounds) = ground (arith, serve-deaf rounds)

-- 1 in a child, which exits with its connection open.
abbrev pub kept : Ending → ℕ
kept child_exited = 1
kept _ = 0

connect-closes :
    (d : ℕ) (accept : Option ℕ) (fork : Fork) (rest : Served)
    → closes d rest.calls ≤ opens d rest.calls
    → opens d rest.calls ≤ closes d rest.calls + kept rest.ending
    → (closes d (connect accept fork rest).calls ≤ opens d (connect accept fork rest).calls)
      × (opens d (connect accept fork rest).calls
          ≤ closes d (connect accept fork rest).calls + kept (connect accept fork rest).ending)
unfolding connect opens closes
connect-closes d none fork rest low high = (omega arith, omega arith)
connect-closes d (some n) in_child rest low high = ground arith
connect-closes d (some n) fork rest low high = ground (arith, low, high)

serve-closes :
    (d : ℕ) (rounds : List Round)
    → (closes d (serve true rounds).calls ≤ opens d (serve true rounds).calls)
      × (opens d (serve true rounds).calls
          ≤ closes d (serve true rounds).calls + kept (serve true rounds).ending)
unfolding serve opens closes
serve-closes d [] = (omega arith, omega arith)
serve-closes d (r ∷ rounds) =
    let ih = serve-closes d rounds in
    ground (arith, connect-closes d r.accept r.fork (serve true rounds) ih.0 ih.1)

-- Whatever the kernel answers, `main` fails before it polls, with the calls of its start alone. Its
-- loop would never accept a connection if the one poll(2) did not give POLLIN, however many rounds
-- it made; and if it did, it would close each connection that it accepts, but for the one of a
-- child.
pub main_lem :
    (listen : List Call → Descriptor → Bool) (list : Option (List Entry)) (poll : Option Bool)
    (rounds : List Round) (d : ℕ)
    → ((cs : List Call) × (main_start listen list ≡ exit_failure cs)
        × (main listen list poll rounds ≡ record { calls = cs; ending = failed }))
      × ((serve false rounds).calls ≡ [])
      × (closes d (serve true rounds).calls ≤ opens d (serve true rounds).calls)
      × (opens d (serve true rounds).calls
          ≤ closes d (serve true rounds).calls + kept (serve true rounds).ending)
unfolding main main_from
main_lem listen list poll rounds d =
    let (cs, e) = main_start-exits listen list in
    (
      (cs, e, ap (λ r. main_from r poll rounds) e),
      serve-deaf rounds,
      (serve-closes d rounds).0,
      (serve-closes d rounds).1,
    )
