-- ===== src/SelectServer/Invariant.antt =====
-- Every operation of the select server keeps its descriptor set in order, and its walk ends.
use c_basics.Prelude.{
  ℕ, zero, suc, ◌+◌, ◌-◌, ◌%◌, ◌^◌, ◌≤◌, ◌<◌, ◌≡◌, ◌≢◌, refl, Bool, true, false, Option, none, some,
  List, [], ◌∷◌, ◌++◌, arith, ltb, leb, ◌==◌, if◌then◌else◌, ◌>>=◌,
}
use c_basics.Kernel.{Recv, failed, got}
use c_basics.SelectServer.Text.{
  c_string, sprintf, store, user, decimal, joined_text, left_text, zeros,
}
use c_basics.SelectServer.Loop.{
  Event, State, first_bytes, mark, greet, say_goodbye, pass_on, serve_client, serve_listener,
  Answers, visit, walk, fd_setsize,
}
use c_basics.SelectServer.Members.{IsListening}

-- What an operation leaves, unless it faults; `fd_max` is not below `low`.
pub data Keeps (listener low : ℕ) : Option (State × List Event) → Type 0 where
  fault : Keeps listener low none
  kept :
      {s : State} {events : List Event}
      → IsListening listener s
      → low ≤ s.fd_max
      → Keeps listener low (some (s, events))

Keeps-bind :
    {listener low : ℕ} (o : Option (List ℕ)) (f : List ℕ → Option (State × List Event))
    → ((a : List ℕ) → Keeps listener low (f a))
    → Keeps listener low (o >>= f)
Keeps-bind none f h = fault
Keeps-bind (some a) f h = h a

Keeps-if :
    {listener low : ℕ} (b : Bool) (x y : Option (State × List Event))
    → (b ≡ true → Keeps listener low x)
    → (b ≡ false → Keeps listener low y)
    → Keeps listener low (if b then x else y)
Keeps-if true x y h k = h refl
Keeps-if false x y h k = k refl

pub greeted-IsListening :
    (listener new_fd : ℕ) (s : State) (message : List ℕ)
    → IsListening listener s
    → new_fd < fd_setsize
    → IsListening listener (record s {
      master = mark s.master new_fd true;
      fd_max = if ltb s.fd_max new_fd then new_fd else s.fd_max;
      server_message = message;
    })
greeted-IsListening listener new_fd s message h small = record {
  bounded = λ j. ground (arith, h.bounded j);
  fits = ground (arith, h.fits);
  listens = ground (arith, h.listens);
}

pub left-IsListening :
    (listener i : ℕ) (s : State) (message : List ℕ)
    → IsListening listener s
    → i ≢ listener
    → IsListening listener (record s { master = mark s.master i false; server_message = message })
left-IsListening listener i s message h other = record {
  bounded = λ j. ground (arith, h.bounded j);
  fits = h.fits;
  listens = ground (arith, h.listens, other);
}

pub filled-IsListening :
    (listener : ℕ) (s : State) (buffer : List ℕ)
    → IsListening listener s
    → IsListening listener (record s { buffer = buffer })
filled-IsListening listener s buffer h = record {
  bounded = h.bounded;
  fits = h.fits;
  listens = h.listens;
}

greet-Keeps :
    (listener : ℕ) (s : State) (new_fd : ℕ)
    → IsListening listener s
    → Keeps listener s.fd_max (greet listener s new_fd)
unfolding greet
greet-Keeps listener s new_fd h =
    Keeps-if (ltb new_fd fd_setsize) _ _
      (λ small.
        Keeps-bind (sprintf s.server_message (user ++ (decimal new_fd ++ joined_text))) _
          (λ message.
            kept (greeted-IsListening listener new_fd s message h (ground (arith, small)))
              (ground arith)))
      (λ large. fault)

say_goodbye-Keeps :
    (listener : ℕ) (s : State) (i : ℕ)
    → IsListening listener s
    → i ≢ listener
    → Keeps listener s.fd_max (say_goodbye listener s i)
unfolding say_goodbye
say_goodbye-Keeps listener s i h other =
    Keeps-bind (sprintf s.server_message (user ++ (decimal i ++ left_text))) _ (λ message.
      Keeps-bind (c_string message) _
        (λ text. kept (left-IsListening listener i s message h other) (omega arith)))

pass_on-Keeps :
    (listener : ℕ) (s : State) (i n : ℕ)
    → IsListening listener s
    → Keeps listener s.fd_max (pass_on listener s i n)
unfolding pass_on
pass_on-Keeps listener s i n h = Keeps-bind (c_string s.buffer) _ (λ message.
    Keeps-bind (sprintf (zeros 10) (user ++ (decimal i ++ (58 ∷ [])))) _ (λ prepend_string.
      Keeps-bind (c_string prepend_string) _ (λ prefix.
        Keeps-bind (sprintf s.buffer (prefix ++ (32 ∷ message))) _ (λ buffer.
          Keeps-bind (first_bytes ((n + 10) % 2 ^ 64) buffer) _
            (λ out. kept (filled-IsListening listener s buffer h) (omega arith))))))

serve_client-Keeps :
    (listener : ℕ) (s : State) (i : ℕ) (answer : Recv)
    → IsListening listener s
    → i ≢ listener
    → Keeps listener s.fd_max (serve_client listener s i answer)
unfolding serve_client
serve_client-Keeps listener s i failed h other = pass_on-Keeps listener s i (2 ^ 64 - 1) h
serve_client-Keeps listener s i (got []) h other = say_goodbye-Keeps listener s i h other
serve_client-Keeps listener s i (got (b ∷ bs)) h other =
    Keeps-bind (store s.buffer (b ∷ bs)) _ (λ buffer.
      pass_on-Keeps listener (record s { buffer = buffer }) i _
        (filled-IsListening listener s buffer h))

serve_listener-Keeps :
    (listener : ℕ) (s : State) (answer : Option ℕ)
    → IsListening listener s
    → Keeps listener s.fd_max (serve_listener listener s answer)
unfolding serve_listener
serve_listener-Keeps listener s none h = kept h (omega arith)
serve_listener-Keeps listener s (some new_fd) h = greet-Keeps listener s new_fd h

pub visit-Keeps :
    (a : Answers) (select_set : ℕ → Bool) (listener : ℕ) (s : State) (i : ℕ)
    → IsListening listener s
    → Keeps listener s.fd_max (visit a select_set listener s i)
unfolding visit
visit-Keeps a select_set listener s i h =
    Keeps-if (ltb i fd_setsize) _ _
      (λ inside.
        Keeps-if (select_set i) _ _
          (λ ready.
            Keeps-if (i == listener) _ _ (λ same. serve_listener-Keeps listener s a.accept h)
              (λ other. serve_client-Keeps listener s i (a.recv i) h (ground (arith, other))))
          (λ idle. kept h (omega arith)))
      (λ outside. fault)

pub Keeps-next :
    {listener low end : ℕ} (o : Option (State × List Event))
    (f : State × List Event → Option (State × List Event))
    → Keeps listener low o
    → ((s : State) (events : List Event)
        → IsListening listener s
        → low ≤ s.fd_max
        → Keeps listener end (f (s, events)))
    → Keeps listener end (o >>= f)
Keeps-next none f h k = fault
Keeps-next (some (s, events)) f (kept h le) k = k s events h le

pub walk-Keeps :
    (a : Answers) (select_set : ℕ → Bool) (listener fuel : ℕ) (s : State) (i : ℕ)
    → IsListening listener s
    → Keeps listener s.fd_max (walk a select_set listener fuel s i)
unfolding walk
walk-Keeps a select_set listener zero s i h =
    Keeps-if (leb i (s.fd_max + 1)) _ _ (λ outside. fault) (λ stop. kept h (omega arith))
walk-Keeps a select_set listener (suc fuel) s i h =
    Keeps-if (leb i (s.fd_max + 1)) _ _
      (λ go.
        Keeps-next (visit a select_set listener s i) _ (visit-Keeps a select_set listener s i h)
          (λ s' now h' le.
            Keeps-next (walk a select_set listener fuel s' (suc i)) _
              (walk-Keeps a select_set listener fuel s' (suc i) h')
              (λ s'' later h'' le'. kept h'' (omega (arith, le, le')))))
      (λ stop. kept h (omega arith))
