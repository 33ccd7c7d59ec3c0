-- ===== src/SelectServer/Turns.antt =====
-- Turns of the select server in which select(2) answers one descriptor, and the states that it
-- reaches.
use c_basics.Prelude.{
  ℕ, zero, suc, ◌+◌, ◌≤◌, ◌<◌, ◌≡◌, ◌≢◌, sym, ap, ◌∙◌, Bool, true, false, Option, none, some, List,
  [], ◌++◌, arith, leb, ◌==◌, ◌>>=◌, dec_lt, append-nil, subst, ℕ_discrete,
}
use c_basics.Prelude.{lt→ltb}
use c_basics.SelectServer.Loop.{
  Event, State, Answers, visit, walk, turn, finish, Select, ready, timed_out, select_failed,
  running, fd_setsize, first_state, cleared, serve_client, serve_listener,
}
use c_basics.SelectServer.Members.{IsListening, if-true, if-false}
use c_basics.SelectServer.Invariant.{Keeps, fault, kept, walk-Keeps}

pub cleared-IsListening :
    (listener : ℕ) (s : State) → IsListening listener s → IsListening listener (cleared s)
cleared-IsListening listener s h = record {
  bounded = h.bounded;
  fits = h.fits;
  listens = h.listens;
}

walk-step :
    (a : Answers) (select_set : ℕ → Bool) (listener fuel j : ℕ) (s : State) {s' s'' : State}
    {now later : List Event}
    → j ≤ s.fd_max + 1
    → visit a select_set listener s j ≡ some (s', now)
    → walk a select_set listener fuel s' (suc j) ≡ some (s'', later)
    → walk a select_set listener (suc fuel) s j ≡ some (s'', now ++ later)
unfolding walk
walk-step a select_set listener fuel j s {s'} {s''} {now} {later} le v w =
    if-true {b = leb j (s.fd_max + 1)} _ (some (s, [])) (ground arith)
    ∙ ap
        (λ o. o >>= (λ (t, first).
          walk a select_set listener fuel t (suc j) >>= (λ (t', rest). some (t', first ++ rest))))
        v
    ∙ ap (λ o. o >>= (λ (t', rest). some (t', now ++ rest))) w

walk-stop :
    (a : Answers) (select_set : ℕ → Bool) (listener fuel j : ℕ) (s : State)
    → s.fd_max + 1 < j
    → walk a select_set listener (suc fuel) s j ≡ some (s, [])
unfolding walk
walk-stop a select_set listener fuel j s far =
    if-false {b = leb j (s.fd_max + 1)}
      (visit a select_set listener s j >>= (λ (t, first).
        walk a select_set listener fuel t (suc j) >>= (λ (t', rest). some (t', first ++ rest))))
      (some (s, [])) (ground (arith, far))

visit-idle :
    (a : Answers) (select_set : ℕ → Bool) (listener j : ℕ) (s : State)
    → j < fd_setsize
    → select_set j ≡ false
    → visit a select_set listener s j ≡ some (s, [])
unfolding visit
visit-idle a select_set listener j s inside off =
    if-true _ none (lt→ltb j fd_setsize inside) ∙ if-false _ (some (s, [])) off

walk-end :
    (a : Answers) (select_set : ℕ → Bool) (listener j : ℕ) (s : State)
    → s.fd_max + 1 < j
    → walk a select_set listener zero s j ≡ some (s, [])
unfolding walk
walk-end a select_set listener j s far = ground (arith, far)

walk-idle :
    (a : Answers) (select_set : ℕ → Bool) (listener fuel : ℕ) (s : State) (j : ℕ)
    → ((k : ℕ) → j ≤ k → select_set k ≡ false)
    → fuel + j ≡ fd_setsize
    → s.fd_max + 1 < fd_setsize
    → walk a select_set listener fuel s j ≡ some (s, [])
walk-idle a select_set listener zero s j idle rounds small =
    walk-end a select_set listener j s (omega arith)
walk-idle a select_set listener (suc fuel) s j idle rounds small = elim (dec_lt (s.fd_max + 1) j) [
  | yes far ↦ walk-stop a select_set listener fuel j s far
  | no near ↦
      walk-step a select_set listener fuel j s (omega (arith, near))
        (visit-idle a select_set listener j s (omega arith) (idle j (omega arith)))
        (walk-idle a select_set listener fuel s (suc j) (λ k le. idle k (omega arith)) (omega arith)
          small)
]

-- One descriptor answered, the walk comes to it and does what its visit does.
pub walk-single :
    (a : Answers) (select_set : ℕ → Bool) (listener fuel : ℕ) (s : State) {s' : State}
    {events : List Event} (i j : ℕ)
    → ((k : ℕ) → k ≢ i → select_set k ≡ false)
    → visit a select_set listener s i ≡ some (s', events)
    → j ≤ i
    → i ≤ s.fd_max
    → fuel + j ≡ fd_setsize
    → s.fd_max + 1 < fd_setsize
    → s'.fd_max + 1 < fd_setsize
    → walk a select_set listener fuel s j ≡ some (s', events)
walk-single a select_set listener zero s i j off now le bound rounds small small' =
    absurd (omega arith)
walk-single a select_set listener (suc fuel) s {s'} {events} i j off now le bound rounds small
      small' =
    elim (ℕ_discrete j i) [
      | yes e ↦
          walk-step a select_set listener fuel j s (omega arith)
            (subst (λ k. visit a select_set listener s k ≡ some (s', events)) (sym e) now)
            (walk-idle a select_set listener fuel s' (suc j)
              (λ k above. off k (λ same. absurd (omega (arith, same)))) (omega arith) small')
          ∙ ap (λ es. some (s', es)) (append-nil events)
      | no ne ↦
          walk-step a select_set listener fuel j s (omega arith)
            (visit-idle a select_set listener j s (omega arith) (off j ne))
            (walk-single a select_set listener fuel s i (suc j) off now (omega (arith, ne)) bound
              (omega arith) small small')
    ]

-- So does the turn.
pub turn-single :
    (a : Answers) (select_set : ℕ → Bool) (listener i : ℕ) (s : State) {s' : State}
    {events : List Event}
    → IsListening listener s
    → ((k : ℕ) → k ≢ i → select_set k ≡ false)
    → i ≤ s.fd_max
    → s.fd_max + 1 < fd_setsize
    → s'.fd_max + 1 < fd_setsize
    → visit a select_set listener (cleared s) i ≡ some (s', events)
    → turn (ready select_set) a listener s ≡ running s' events
unfolding turn
turn-single a select_set listener i s h off bound small small' now = ap finish (
    walk-single a select_set listener fd_setsize (cleared s) i 0 off now (omega arith) bound
      (omega arith) small small')

pub visit-client :
    (a : Answers) (select_set : ℕ → Bool) (listener i : ℕ) (s : State)
    → i < fd_setsize
    → select_set i ≡ true
    → i ≢ listener
    → visit a select_set listener s i ≡ serve_client listener s i (a.recv i)
unfolding visit
visit-client a select_set listener i s inside on other =
    if-true _ none (lt→ltb i fd_setsize inside)
    ∙ if-true _ (some (s, [])) on
    ∙ if-false {b = i == listener} (serve_listener listener s a.accept)
        (serve_client listener s i (a.recv i)) (ground (arith, other))

pub visit-listener :
    (a : Answers) (select_set : ℕ → Bool) (listener : ℕ) (s : State)
    → listener < fd_setsize
    → select_set listener ≡ true
    → visit a select_set listener s listener ≡ serve_listener listener s a.accept
unfolding visit
visit-listener a select_set listener s inside on =
    if-true _ none (lt→ltb listener fd_setsize inside)
    ∙ if-true _ (some (s, [])) on
    ∙ if-true {b = listener == listener} (serve_listener listener s a.accept)
        (serve_client listener s listener (a.recv listener)) (ground arith)

first_state-IsListening :
    (listener : ℕ) → listener < fd_setsize → IsListening listener (first_state listener)
unfolding first_state
first_state-IsListening listener small = record {
  bounded = λ j. ground arith;
  fits = small;
  listens = ground arith;
}

Keeps-running :
    (listener low : ℕ) (o : Option (State × List Event)) {s : State} {events : List Event}
    → Keeps listener low o
    → finish o ≡ running s events
    → IsListening listener s
unfolding finish
Keeps-running listener low none fault e = cc
Keeps-running listener low (some (s, events)) (kept h le) e =
    subst (λ o. elim o [ running t _ ↦ IsListening listener t | _ ↦ Unit ]) e h

-- The states that the loop reaches.
pub data Reach (listener : ℕ) : State → Type 0 where
  started : Reach listener (first_state listener)
  turned :
      {s s' : State} {events : List Event} (answer : Select) (a : Answers)
      → Reach listener s
      → turn answer a listener s ≡ running s' events
      → Reach listener s'

turn-IsListening :
    (answer : Select) (a : Answers) (listener : ℕ) (s : State) {s' : State} {events : List Event}
    → IsListening listener s
    → turn answer a listener s ≡ running s' events
    → IsListening listener s'
unfolding turn
turn-IsListening select_failed a listener s h e = cc
turn-IsListening timed_out a listener s h e =
    Keeps-running listener 0 (some (cleared s, []))
      (kept (cleared-IsListening listener s h) (omega arith)) e
turn-IsListening (ready select_set) a listener s h e =
    Keeps-running listener s.fd_max _
      (walk-Keeps a select_set listener fd_setsize (cleared s) 0 (cleared-IsListening listener s h))
      e

-- With a listener below 1024, in every state that the select server reaches all descriptors of the
-- set are at most `fd_max`, `fd_max` is below 1024, and the listener is in the set.
pub Reach-IsListening :
    {listener : ℕ} {s : State} → listener < fd_setsize → Reach listener s → IsListening listener s
Reach-IsListening small started = first_state-IsListening _ small
Reach-IsListening small (turned {s = s} answer a r e) =
    turn-IsListening answer a _ s (Reach-IsListening small r) e
