-- ===== src/PollServer/Serving.antt =====
-- What one walk over the table of the poll server does to the connections.
use c_basics.Prelude.{
  ℕ, zero, suc, ◌+◌, ◌≤◌, ◌<◌, ◌≡◌, ◌≢◌, sym, ◌∙◌, ◌||◌, some, List, [], ◌∷◌, ◌++◌, arith, ◌==◌,
  if◌then◌else◌, get_elem?, take,
}
use c_basics.Kernel.{occurs}
use c_basics.PollServer.Table.{PollFd, Table, active, del_pfds}
use c_basics.PollServer.Refine.{fds, Fits, del_pfds-Deleted}
use c_basics.PollServer.Round.{Event, joined, closed, sent, broadcast}

-- How often the events hold a close(2) of `d`, a connection `d`, a send(2) to `d`.
unfoldable pub closes : ℕ → List Event → ℕ
closes d [] = 0
closes d (closed e ∷ es) = (if e == d then 1 else 0) + closes d es
closes d (_ ∷ es) = closes d es

unfoldable pub joins : ℕ → List Event → ℕ
joins d [] = 0
joins d (joined e ∷ es) = (if e == d then 1 else 0) + joins d es
joins d (_ ∷ es) = joins d es

unfoldable pub sends : ℕ → List Event → ℕ
sends d [] = 0
sends d (sent e m ∷ es) = (if e == d then 1 else 0) + sends d es
sends d (_ ∷ es) = sends d es

-- Every send(2) carries `message`.
abbrev pub Carries : List ℕ → List Event → Type 0
Carries message [] = Unit
Carries message (sent e m ∷ es) = (m ≡ message) × Carries message es
Carries message (_ ∷ es) = Carries message es

Carries-broadcast :
    (listener sender : ℕ) (m : List ℕ) (dests : List ℕ)
    → Carries m (broadcast listener sender m dests)
unfolding broadcast
Carries-broadcast listener sender m [] = tt
Carries-broadcast listener sender m (x ∷ xs) =
    ground (arith, Carries-broadcast listener sender m xs)

sends-broadcast_count :
    (listener sender : ℕ) (m : List ℕ) (dests : List ℕ) (d : ℕ)
    → sends d (broadcast listener sender m dests)
      ≡ (if d == listener || d == sender then 0 else occurs d dests)
unfolding broadcast occurs sends
sends-broadcast_count listener sender m [] d = ground arith
sends-broadcast_count listener sender m (x ∷ xs) d =
    ground (arith, sends-broadcast_count listener sender m xs d)

-- A message goes exactly once to each slot in use whose descriptor is neither the listener's nor
-- the sender's, and to no other, and nothing else is sent.
pub sends-broadcast :
    (listener sender : ℕ) (m : List ℕ) (dests : List ℕ)
    → Carries m (broadcast listener sender m dests)
      × ((d : ℕ)
          → sends d (broadcast listener sender m dests)
            ≡ (if d == listener || d == sender then 0 else occurs d dests))
sends-broadcast listener sender m dests =
    (Carries-broadcast listener sender m dests, sends-broadcast_count listener sender m dests)

pub closes-broadcast :
    (listener sender : ℕ) (m : List ℕ) (dests : List ℕ) (d : ℕ)
    → (closes d (broadcast listener sender m dests) ≡ 0)
      × (joins d (broadcast listener sender m dests) ≡ 0)
unfolding broadcast closes joins
closes-broadcast listener sender m [] d = ground arith
closes-broadcast listener sender m (x ∷ xs) d =
    ground (arith, closes-broadcast listener sender m xs d)

pub closes-append :
    (d : ℕ) (xs ys : List Event)
    → (closes d (xs ++ ys) ≡ closes d xs + closes d ys)
      × (joins d (xs ++ ys) ≡ joins d xs + joins d ys)
unfolding closes joins
closes-append d [] ys = omega arith
closes-append d (x ∷ xs) ys = ground (arith, closes-append d xs ys)

-- The table as the walk needs it: within its memory, with the listener in slot 0, and no descriptor
-- in use twice.
pub record IsServing (listener : ℕ) (t : Table) : Type 0 where
  pub fits : Fits t
  pub first : (p : PollFd) × (get_elem? t.slots 0 ≡ some p) × (p.fd ≡ listener)
  pub in_use : 0 < t.fd_count
  pub once : (d : ℕ) → occurs d (active t) ≤ 1

occurs-get :
    (xs : List PollFd) (n i : ℕ) (p : PollFd)
    → get_elem? xs i ≡ some p
    → i < n
    → 1 ≤ occurs p.fd (fds (take n xs))
unfolding occurs
occurs-get [] n i p e h = cc
occurs-get (x ∷ xs) zero i p e h = absurd (omega arith)
occurs-get (x ∷ xs) (suc n) zero p e h = ground arith
occurs-get (x ∷ xs) (suc n) (suc i) p e h = ground (arith, occurs-get xs n i p e (omega arith))

occurs-get_first :
    (xs : List PollFd) (n i : ℕ) (p q : PollFd)
    → get_elem? xs (suc i) ≡ some p
    → get_elem? xs 0 ≡ some q
    → suc i < n
    → q.fd ≡ p.fd
    → 2 ≤ occurs p.fd (fds (take n xs))
unfolding occurs
occurs-get_first [] n i p q e f h same = cc
occurs-get_first (x ∷ xs) zero i p q e f h same = absurd (omega arith)
occurs-get_first (x ∷ xs) (suc n) i p q e f h same =
    ground (arith, occurs-get xs n i p e (omega arith))

-- Only slot 0 holds the listener.
pub not_listener :
    (listener : ℕ) (t : Table) (i : ℕ) (p : PollFd)
    → IsServing listener t
    → get_elem? t.slots (suc i) ≡ some p
    → suc i < t.fd_count
    → p.fd ≢ listener
not_listener listener t i p s e h same =
    let (q, f, is) = s.first in
    absurd
      (omega (arith, s.once p.fd, occurs-get_first t.slots t.fd_count i p q e f h (is ∙ sym same)))

-- What a step of the walk does: the table stays good, and a connection is in it exactly if it was
-- there or has joined, and has not been closed.
pub record Served (listener : ℕ) (t : Table) (t' : Table) (events : List Event) : Type 0 where
  pub serving : IsServing listener t'
  pub balance :
      (d : ℕ) → occurs d (active t') + closes d events ≡ occurs d (active t) + joins d events

pub del_pfds-Served :
    (listener : ℕ) (t : Table) (i : ℕ) (p : PollFd) (e : Event)
    → IsServing listener t
    → suc i < t.fd_count
    → get_elem? t.slots (suc i) ≡ some p
    → ((d : ℕ)
        → (closes d (e ∷ closed p.fd ∷ []) ≡ (if p.fd == d then 1 else 0))
          × (joins d (e ∷ closed p.fd ∷ []) ≡ 0))
    → (t' : Table) × (del_pfds t (suc i) ≡ some t')
      × Served listener t t' (e ∷ closed p.fd ∷ [])
      × (suc t'.fd_count ≡ t.fd_count)
del_pfds-Served listener t i p e s h at counts =
    let (t', made, d) = del_pfds-Deleted t (suc i) p s.fits h at in
    (
      t',
      made,
      record {
        serving = record {
          fits = d.fits;
          first = (s.first.0, d.kept 0 (omega arith) ∙ s.first.1, s.first.2);
          in_use = omega (arith, d.counted);
          once = λ x. omega (arith, d.removed x, s.once x);
        };
        balance = λ x. omega (arith, d.removed x, counts x);
      },
      d.counted,
    )
