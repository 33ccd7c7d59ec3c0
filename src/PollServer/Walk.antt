-- ===== src/PollServer/Walk.antt =====
-- The walk of the poll server ends, keeps its table good and accounts for every connection.
use c_basics.Prelude.{
  ℕ, zero, suc, ◌+◌, ◌*◌, ◌≤◌, ◌<◌, ◌≡◌, ◌≢◌, inl, inr, refl, ◌∙◌, true, false, Option, none, some,
  List, [], ◌∷◌, ◌++◌, arith, ltb, ◌==◌, get_elem?, Bool-cases, dec_lt,
}
use c_basics.Prelude.{bit_and}
use c_basics.Kernel.{Recv, failed, got, occurs}
use c_basics.PollServer.Table.{PollFd, Table, active, pollin}
use c_basics.PollServer.Refine.{KeepsContents, Added-occurs, get_elem?-lt, add_to_pfds-Added}
use c_basics.PollServer.Round.{
  Event, accept_failed, joined, hung_up, recv_failed, closed, Answers, broadcast, serve_client,
  serve_listener, handle, visit, walk,
}
use c_basics.PollServer.Serving.{
  closes, joins, closes-broadcast, closes-append, IsServing, Served, not_listener, del_pfds-Served,
}

Served-same : (listener : ℕ) (t : Table) → IsServing listener t → Served listener t t []
unfolding closes joins
Served-same listener t s = record { serving = s; balance = λ d. refl }

-- The result of a step that neither faults nor adds a connection.
abbrev Steps : ℕ → Table → Option (Table × List Event) → Type 0
Steps listener t r =
    (t' : Table) × (events : List Event) × (r ≡ some (t', events))
    × Served listener t t' events
    × (t'.fd_count ≤ t.fd_count)

serve_client-Steps :
    (a : Answers) (listener : ℕ) (t : Table) (i : ℕ) (p : PollFd) (r : Recv)
    → IsServing listener t
    → suc i < t.fd_count
    → get_elem? t.slots (suc i) ≡ some p
    → Steps listener t (serve_client a listener t (suc i) p.fd r)
unfolding serve_client closes joins
serve_client-Steps a listener t i p failed s h at =
    let (t', made, served, less) =
      del_pfds-Served listener t i p (recv_failed p.fd) s h at (λ d. ground arith) in
    (t', recv_failed p.fd ∷ closed p.fd ∷ [], rw made refl, served, omega arith)
serve_client-Steps a listener t i p (got []) s h at =
    let (t', made, served, less) =
      del_pfds-Served listener t i p (hung_up p.fd) s h at (λ d. ground arith) in
    (t', hung_up p.fd ∷ closed p.fd ∷ [], rw made refl, served, omega arith)
serve_client-Steps a listener t i p (got (b ∷ bs)) s h at = (
  t,
  broadcast listener p.fd (b ∷ bs) (active t),
  refl,
  record {
    serving = s;
    balance = λ d. omega (arith, closes-broadcast listener p.fd (b ∷ bs) (active t) d);
  },
  omega arith,
)

handle-Steps :
    (a : Answers) (listener : ℕ) (t : Table) (i : ℕ) (p : PollFd)
    → IsServing listener t
    → suc i < t.fd_count
    → get_elem? t.slots (suc i) ≡ some p
    → Steps listener t (handle a listener (suc i) t p)
unfolding handle
handle-Steps a listener t i p s h at = elim (Bool-cases (bit_and p.revents pollin == 0)) [
  | inl idle ↦ (t, [], rw idle refl, Served-same listener t s, omega arith)
  | inr ready ↦
      let client : (p.fd == listener) ≡ false =
        ground (arith, not_listener listener t i p s at h) in
      let (t', events, made, served, le) =
        serve_client-Steps a listener t i p (a.recv (suc i)) s h at in
      (t', events, rw (ready, client) made, served, le)
]

visit-Steps :
    (a : Answers) (listener : ℕ) (t : Table) (i : ℕ)
    → IsServing listener t
    → suc i < t.fd_count
    → Steps listener t (visit a listener (suc i) t)
unfolding visit
visit-Steps a listener t i s h =
    let (p, at) = get_elem?-lt t.slots (suc i) (omega (arith, s.fits.full, s.fits.room)) in
    let (t', events, made, served, le) = handle-Steps a listener t i p s h at in
    (t', events, rw at made, served, le)

Served-trans :
    (listener : ℕ) (t u v : Table) (xs ys : List Event)
    → Served listener t u xs
    → Served listener u v ys
    → Served listener t v (xs ++ ys)
Served-trans listener t u v xs ys f g = record {
  serving = g.serving;
  balance = λ d. omega (arith, f.balance d, g.balance d, closes-append d xs ys);
}

pub walk-suc :
    (a : Answers) (listener fuel i : ℕ) (t u v : Table) (xs ys : List Event)
    → i < t.fd_count
    → visit a listener i t ≡ some (u, xs)
    → walk a listener fuel (suc i) u ≡ some (v, ys)
    → walk a listener (suc fuel) i t ≡ some (v, xs ++ ys)
unfolding walk
walk-suc a listener fuel i t u v xs ys h e f =
    let more : ltb i t.fd_count ≡ true = ground arith in rw (more, e, f) refl

-- Past slot 0 the walk accepts nothing.
walk_clients :
    (a : Answers) (listener fuel i : ℕ) (t : Table)
    → IsServing listener t
    → t.fd_count < fuel + suc i
    → 0 < fuel
    → Steps listener t (walk a listener fuel (suc i) t)
walk_clients a listener zero i t s h pos = absurd (omega arith)
walk_clients a listener (suc fuel) i t s h pos = elim (dec_lt (suc i) t.fd_count) [
  | yes more ↦
      let (u, xs, e, f, le) = visit-Steps a listener t i s more in
      let (v, ys, e', g, le') =
        walk_clients a listener fuel (suc i) u f.serving (omega arith) (omega arith) in
      (
        v,
        xs ++ ys,
        walk-suc a listener fuel (suc i) t u v xs ys more e e',
        Served-trans listener t u v xs ys f g,
        omega arith,
      )
  | no done ↦
      let stop : ltb (suc i) t.fd_count ≡ false = ground arith in
      (t, [], unfold walk in rw stop refl, Served-same listener t s, omega arith)
]

-- What is assumed of the kernel in one walk: realloc(3) succeeds and keeps contents, and accept(2)
-- answers a descriptor that is not in use.
pub record IsKernel (a : Answers) (t : Table) : Type 0 where
  pub keeps : KeepsContents a.realloc
  pub allocates : (xs : List PollFd) (n : ℕ) → a.realloc xs n ≢ none
  pub unused : (n : ℕ) → a.accept ≡ some n → occurs n (active t) ≡ 0

serve_listener-Served :
    (a : Answers) (listener : ℕ) (t : Table) (o : Option ℕ)
    → a.accept ≡ o
    → IsKernel a t
    → IsServing listener t
    → (t' : Table) × (events : List Event) × (serve_listener a t o ≡ some (t', events))
      × Served listener t t' events
      × (t'.fd_count ≤ suc t.fd_count)
unfolding serve_listener closes joins occurs
serve_listener-Served a listener t none e k s =
    (t, accept_failed ∷ [], refl, record { serving = s; balance = λ d. refl }, omega arith)
serve_listener-Served a listener t (some n) e k s =
    elim (add_to_pfds-Added a.realloc k.keeps t n s.fits) [
      | inl (_, _, null) ↦ absurd (k.allocates t.slots (t.fd_size * 2) null)
      | inr (t', made, d) ↦ (
        t',
        joined n ∷ [],
        rw made refl,
        record {
          serving = record {
            fits = d.fits;
            first = (s.first.0, d.kept_first s.in_use ∙ s.first.1, s.first.2);
            in_use = omega (arith, d.counted);
            once = λ x. ground (arith, Added-occurs d x, s.once x, k.unused n e);
          };
          balance = λ x. ground (arith, Added-occurs d x);
        },
        omega (arith, d.counted),
      )
    ]

-- A step that may add one connection.
abbrev pub Walks : ℕ → Table → Option (Table × List Event) → Type 0
Walks listener t r =
    (t' : Table) × (events : List Event) × (r ≡ some (t', events)) × Served listener t t' events

visit_first :
    (a : Answers) (listener : ℕ) (t : Table)
    → IsKernel a t
    → IsServing listener t
    → (t' : Table) × (events : List Event) × (visit a listener 0 t ≡ some (t', events))
      × Served listener t t' events
      × (t'.fd_count ≤ suc t.fd_count)
unfolding visit handle
visit_first a listener t k s =
    let (p, at, is) = s.first in
    let same : (p.fd == listener) ≡ true = ground arith in
    elim (Bool-cases (bit_and p.revents pollin == 0)) [
      | inl idle ↦ (t, [], rw (at, idle) refl, Served-same listener t s, omega arith)
      | inr ready ↦
          let (t', events, made, served, le) =
            serve_listener-Served a listener t a.accept refl k s in
          (t', events, rw (at, ready, same) made, served, le)
    ]

-- With the listener in slot 0, no descriptor twice, realloc(3) that succeeds and accept(2) that
-- answers an unused descriptor, the walk ends within `fd_count + 2` tests of its bound and faults
-- nowhere, whatever the clients do. The table stays as good, and a descriptor is in it afterwards
-- exactly as often as before, plus its joins, less its closes.
pub walk-Walks :
    (a : Answers) (listener fuel : ℕ) (t : Table)
    → IsKernel a t
    → IsServing listener t
    → t.fd_count + 1 < fuel
    → Walks listener t (walk a listener fuel 0 t)
walk-Walks a listener zero t k s h = absurd (omega arith)
walk-Walks a listener (suc fuel) t k s h =
    let (u, xs, e, f, le) = visit_first a listener t k s in
    let (v, ys, e', g, le') =
      walk_clients a listener fuel 0 u f.serving (omega arith) (omega arith) in
    (
      v,
      xs ++ ys,
      walk-suc a listener fuel 0 t u v xs ys s.in_use e e',
      Served-trans listener t u v xs ys f g,
    )
