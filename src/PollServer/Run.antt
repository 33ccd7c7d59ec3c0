-- ===== src/PollServer/Run.antt =====
-- The poll server over its whole run: every turn of its endless loop, from the start.
use c_basics.Prelude.{
  ℕ, zero, suc, ◌+◌, ◌≡◌, refl, sym, ap, ap₂, ◌∙◌, Option, none, some, List, [], ◌∷◌, arith, length,
  get_elem?, take, ◌>>=◌,
}
use c_basics.Prelude.{subst, some-injective}
use c_basics.Kernel.{occurs}
use c_basics.PollServer.Table.{PollFd, Table, pollin}
use c_basics.PollServer.Refine.{fds}
use c_basics.PollServer.Round.{
  Event, Answers, Outcome, exited, running, finish, turn, install, start,
}
use c_basics.PollServer.Serving.{IsServing, Served}
use c_basics.PollServer.Walk.{IsKernel, walk-Walks}

-- poll(2) writes `revents` only.
abbrev pub KeepsFds : (List PollFd → ℕ → Option (List PollFd)) → Type 0
KeepsFds poll =
    (xs : List PollFd) (n : ℕ) (ys : List PollFd) → poll xs n ≡ some ys → fds ys ≡ fds xs

pub fds-take : (n : ℕ) (xs ys : List PollFd) → fds ys ≡ fds xs → fds (take n ys) ≡ fds (take n xs)
fds-take zero xs ys e = refl
fds-take (suc n) [] [] e = refl
fds-take (suc n) [] (y ∷ ys) e = cc
fds-take (suc n) (x ∷ xs) [] e = cc
fds-take (suc n) (x ∷ xs) (y ∷ ys) e = ap₂ ◌∷◌ (ground arith) (fds-take n xs ys (ground arith))

fds-length : (xs ys : List PollFd) → fds ys ≡ fds xs → length ys ≡ length xs
fds-length [] [] e = refl
fds-length [] (y ∷ ys) e = cc
fds-length (x ∷ xs) [] e = cc
fds-length (x ∷ xs) (y ∷ ys) e = ap suc (fds-length xs ys (ground arith))

fds-first :
    (xs ys : List PollFd) (p : PollFd)
    → fds ys ≡ fds xs
    → get_elem? xs 0 ≡ some p
    → (q : PollFd) × (get_elem? ys 0 ≡ some q) × (q.fd ≡ p.fd)
fds-first [] ys p e h = cc
fds-first (x ∷ xs) [] p e h = cc
fds-first (x ∷ xs) (y ∷ ys) p e h = (y, refl, ground arith)

pub polled-IsServing :
    (listener : ℕ) (t : Table) (ys : List PollFd)
    → fds ys ≡ fds t.slots
    → IsServing listener t
    → IsServing listener (record t { slots = ys })
polled-IsServing listener t ys e s =
    let (q, at, same) = fds-first t.slots ys s.first.0 e s.first.1 in
    record {
      fits = record {
        full = fds-length t.slots ys e ∙ s.fits.full;
        room = s.fits.room;
        some_room = s.fits.some_room;
      };
      first = (q, at, same ∙ s.first.2);
      in_use = s.in_use;
      once = λ d. rw (fds-take t.fd_count t.slots ys e) (s.once d);
    }

-- How a turn ends: the program exits only if poll(2) failed, and otherwise goes on with a good
-- table and the same connections, plus those that joined, less those that were closed.
abbrev pub Turns : ℕ → Table → Option (List PollFd) → Outcome → Type 0
Turns listener t none o = o ≡ exited
Turns listener t (some ys) o =
    (t' : Table) × (events : List Event) × (o ≡ running t' events)
    × Served listener (record t { slots = ys }) t' events

turn-cases :
    (a : Answers) (listener : ℕ) (t : Table) (poll : List PollFd → ℕ → Option (List PollFd))
    (o : Option (List PollFd))
    → poll t.slots t.fd_size ≡ o
    → ((ys : List PollFd) → o ≡ some ys → fds ys ≡ fds t.slots)
    → IsKernel a t
    → IsServing listener t
    → Turns listener t o (turn poll a listener t)
unfolding turn
turn-cases a listener t poll none e law k s = rw (e, turn) refl
turn-cases a listener t poll (some ys) e law k s =
    let same = law ys refl in
    let u : Table = record t { slots = ys } in
    let kept : IsKernel a u = record {
      keeps = k.keeps;
      allocates = k.allocates;
      unused = λ n h. rw (fds-take t.fd_count t.slots ys same) (k.unused n h);
    } in
    let (t', events, made, served) =
      walk-Walks a listener (t.fd_count + 2) u kept (polled-IsServing listener t ys same s)
        (omega arith) in
    (t', events, rw (e, turn, made, finish) refl, served)

-- A turn of the endless loop never faults: it exits when poll(2) fails, and otherwise it ends with
-- a good table in which a descriptor stands as often as before, plus its joins, less its closes.
pub turn-Turns :
    (poll : List PollFd → ℕ → Option (List PollFd)) (a : Answers) (listener : ℕ) (t : Table)
    → KeepsFds poll
    → IsKernel a t
    → IsServing listener t
    → Turns listener t (poll t.slots t.fd_size) (turn poll a listener t)
turn-Turns poll a listener t law k s =
    turn-cases a listener t poll (poll t.slots t.fd_size) refl (λ ys e. law t.slots t.fd_size ys e)
      k s

-- The tables that the server can reach with kernels that keep their promises.
pub data Reach (malloc : ℕ → Option (List PollFd)) (listener : ℕ) : Table → Type 0 where
  booted : {t : Table} → start malloc listener ≡ some t → Reach malloc listener t
  turned :
      {t t' : Table} {events : List Event} (poll : List PollFd → ℕ → Option (List PollFd))
      (a : Answers)
      → Reach malloc listener t
      → KeepsFds poll
      → IsKernel a t
      → turn poll a listener t ≡ running t' events
      → Reach malloc listener t'

install-IsServing :
    (listener : ℕ) (xs : List PollFd) (t : Table)
    → length xs ≡ 5
    → install listener xs ≡ some t
    → IsServing listener t
unfolding install occurs
install-IsServing listener [] t five e = cc
install-IsServing listener (x ∷ xs) t five e =
    subst (IsServing listener) (some-injective _ _ e) (record {
      fits = record { full = five; room = omega arith; some_room = omega arith };
      first = (record x { fd = listener; events = pollin }, refl, refl);
      in_use = omega arith;
      once = λ d. ground arith;
    })

start-IsServing :
    (malloc : ℕ → Option (List PollFd)) (listener : ℕ) (t : Table) (o : Option (List PollFd))
    → malloc 5 ≡ o
    → ((xs : List PollFd) → o ≡ some xs → length xs ≡ 5)
    → (o >>= install listener) ≡ some t
    → IsServing listener t
start-IsServing malloc listener t none e law h = cc
start-IsServing malloc listener t (some xs) e law h =
    install-IsServing listener xs t (law xs refl) h

running-IsServing :
    (listener : ℕ) (t t' : Table) (o : Option (List PollFd)) (r : Outcome) (events : List Event)
    → Turns listener t o r
    → r ≡ running t' events
    → IsServing listener t'
running-IsServing listener t t' none r events turns e = absurd (exited≢running (sym turns ∙ e))
  where
    exited≢running : exited ≡ running t' events → ⊥
    exited≢running h = cc
running-IsServing listener t t' (some ys) r events (u, es, made, served) e =
    subst (IsServing listener) (tables (sym made ∙ e)) served.serving
  where
    tables : running u es ≡ running t' events → u ≡ t'
    tables h = ground arith

-- Started with as much memory as it asks for, the server never leaves the good tables: in every
-- state that it reaches the listener has slot 0, no descriptor is in the table twice, and the
-- counters fit the memory.
pub Reach-IsServing :
    {malloc : ℕ → Option (List PollFd)} {listener : ℕ} {t : Table}
    → ((xs : List PollFd) → malloc 5 ≡ some xs → length xs ≡ 5)
    → Reach malloc listener t
    → IsServing listener t
unfolding start
Reach-IsServing {malloc} {listener} {t} law (booted e) =
    start-IsServing malloc listener t (malloc 5) refl law e
Reach-IsServing {listener = listener} {t} law (turned {t = u} {events} poll a r keeps k e) =
    running-IsServing listener u t (poll u.slots u.fd_size) (turn poll a listener u) events
      (turn-Turns poll a listener u keeps k (Reach-IsServing law r)) e
