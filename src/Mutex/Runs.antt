-- ===== src/Mutex/Runs.antt =====
-- Every run of the threads of UnixMutex.c comes to its end, with the counter at 100.
use c_basics.Prelude.{
  ℕ, zero, suc, ◌+◌, ◌-◌, ◌*◌, ◌≤◌, ◌<◌, ◌≡◌, ◌⊎◌, inl, inr, refl, ap, ◌∙◌, Bool, true, false, some,
  List, [], ◌∷◌, arith, length, get_elem?, Bool-cases, dec_lt, some-injective, length-replicate,
}
use c_basics.Threads.Schedule.{
  System, Reach, Enabled, steps, steps_bound, drive, created, Reach-length, Reach-trans,
}
use c_basics.Threads.Totals.{total, total-replicate, total_positive}
use c_basics.Threads.Start.{all_succeed-each, exit_success}
use c_basics.Mutex.Threads.{
  Thread, waiting, looping, loaded, ended, Shared, thread_step, initial, unix_mutex,
}
use c_basics.Mutex.Exclusion.{IsExclusive, Reach-IsExclusive, done, inside}

-- The steps that a thread has left.
unfoldable pub work : Thread → ℕ
work waiting = 22
work (looping i) = suc (2 * (10 - i))
work (loaded i v) = 2 + 2 * (9 - i)
work ended = 0

work-step :
    (t : Thread) (m : Shared) (t' : Thread) (m' : Shared)
    → thread_step t m ≡ some (t', m')
    → work t' < work t
unfolding work thread_step
work-step waiting m t' m' e = ground (arith, e)
work-step (looping i) m t' m' e = ground (arith, e)
work-step (loaded i v) m t' m' e = ground (arith, e)
work-step ended m t' m' e = cc

-- A thread that is inside can step.
inside-Enabled :
    (s : System Thread Shared) (k : ℕ) (t : Thread)
    → get_elem? s.threads k ≡ some t
    → 0 < inside t
    → Enabled thread_step s
unfolding inside thread_step
inside-Enabled s k waiting g h = absurd (omega arith)
inside-Enabled s k (looping i) g h = elim (dec_lt i 10) [
  | yes p ↦ record {
    index = k;
    before = looping i;
    after = loaded i s.shared.counter;
    memory = s.shared;
    found = g;
    moves = ground (arith, p);
  }
  | no p ↦ record {
    index = k;
    before = looping i;
    after = ended;
    memory = record (s.shared) { held = false };
    found = g;
    moves = ground (arith, p);
  }
]
inside-Enabled s k (loaded i v) g h = record {
  index = k;
  before = loaded i v;
  after = looping (suc i);
  memory = record (s.shared) { counter = suc v };
  found = g;
  moves = refl;
}
inside-Enabled s k ended g h = absurd (omega arith)

free-Enabled :
    (s : System Thread Shared) (k : ℕ) (t : Thread)
    → get_elem? s.threads k ≡ some t
    → 0 < work t
    → s.shared.held ≡ false
    → Enabled thread_step s
unfolding work inside thread_step
free-Enabled s k waiting g h free = record {
  index = k;
  before = waiting;
  after = looping 0;
  memory = record (s.shared) { held = true };
  found = g;
  moves = ground (arith, free);
}
free-Enabled s k (looping i) g h free = inside-Enabled s k (looping i) g (omega arith)
free-Enabled s k (loaded i v) g h free = inside-Enabled s k (loaded i v) g (omega arith)
free-Enabled s k ended g h free = absurd (omega arith)

IsExclusive-live :
    (s : System Thread Shared) → IsExclusive s → (total work s.threads ≡ 0) ⊎ Enabled thread_step s
IsExclusive-live s h = elim (dec_lt 0 (total work s.threads)) [
  | no none_left ↦ inl (omega (arith, none_left))
  | yes some_left ↦ elim (Bool-cases s.shared.held) [
    | inl held ↦
        let (k, t, g, p) = total_positive inside s.threads (ground (arith, h.owner, held)) in
        inr (inside-Enabled s k t g p)
    | inr free ↦
        let (k, t, g, p) = total_positive work s.threads some_left in
        inr (free-Enabled s k t g p free)
  ]
]

work-ended : (t : Thread) → work t ≡ 0 → t ≡ ended
unfolding work
work-ended waiting h = absurd (omega arith)
work-ended (looping i) h = absurd (omega arith)
work-ended (loaded i v) h = absurd (omega arith)
work-ended ended h = refl

all-ended :
    (ts : List Thread) → total work ts ≡ 0 → (k : ℕ) → k < length ts → get_elem? ts k ≡ some ended
all-ended [] h k lt = absurd (omega arith)
all-ended (t ∷ ts) h zero lt = ap some (work-ended t (omega arith))
all-ended (t ∷ ts) h (suc k) lt = all-ended ts (omega arith) k (omega arith)

-- The threads of the mutex program never deadlock: from every state that they reach, more steps lead
-- to where every thread has ended; and no run of `n` threads makes more than 22 * n steps.
pub unix_mutex_ends :
    (n : ℕ) {s : System Thread Shared} (r : Reach thread_step (initial n) s)
    → (steps r ≤ 22 * n)
      × ((s' : System Thread Shared) × Reach thread_step s s'
          × ((k : ℕ) → k < n → get_elem? s'.threads k ≡ some ended))
unfolding work
unix_mutex_ends n {s} r =
    let live = λ (t : System Thread Shared) (q : Reach thread_step s t).
      IsExclusive-live t (Reach-IsExclusive n (Reach-trans r q)) in
    let (s', r', e) =
      drive work work-step live (total work s.threads) {s = s} created (omega arith) in
    (
      omega (arith, steps_bound work work-step r, total-replicate work n waiting),
      (
        s',
        r',
        λ k lt.
            all-ended s'.threads e k
              (omega (arith, lt, Reach-length (Reach-trans r r'), length-replicate n waiting)),
      ),
    )

done-ended :
    (ts : List Thread)
    → ((k : ℕ) → k < length ts → get_elem? ts k ≡ some ended)
    → total done ts ≡ 10 * length ts
unfolding done
done-ended [] h = refl
done-ended (t ∷ ts) h = omega (
  arith,
  ap done (some-injective _ _ (h 0 (omega arith))),
  done-ended ts (λ k lt. h (suc k) (omega arith)),
)

joined-each :
    (init : Bool) (create join : ℕ → Bool) (k : ℕ)
    → unix_mutex init create join ≡ exit_success
    → k < 10
    → join k ≡ true
unfolding unix_mutex
joined-each init create join k e lt =
    all_succeed-each join 10 0 k (ground (arith, e)) (omega arith) (omega arith)

-- If unixMutex exits with success then the counter is 100, whatever the order of the steps of its
-- ten threads. Assumed: a thread that pthread_join answers 0 for has ended.
pub unix_mutex-counts :
    (init : Bool) (create join : ℕ → Bool) (s : System Thread Shared)
    → Reach thread_step (initial 10) s
    → ((k : ℕ) → k < 10 → join k ≡ true → get_elem? s.threads k ≡ some ended)
    → unix_mutex init create join ≡ exit_success
    → s.shared.counter ≡ 100
unix_mutex-counts init create join s r ends e =
    let size = Reach-length r ∙ length-replicate 10 waiting in
    omega (
      arith,
      (Reach-IsExclusive 10 r).sums,
      size,
      done-ended s.threads (λ k lt.
          ends k (omega (arith, lt, size))
            (joined-each init create join k e (omega (arith, lt, size)))),
    )
