-- ===== src/Mutex/Exclusion.antt =====
-- The mutex of UnixMutex.c keeps the counter exact, and every run of its threads comes to an end.
use c_basics.Prelude.{
  ℕ, suc, ◌≡◌, refl, ◌&&◌, some, arith, ltb, leb, ◌==◌, if◌then◌else◌, get_elem?, set,
}
use c_basics.Threads.Schedule.{System, Reach, created, stepped}
use c_basics.Threads.Totals.{total, total-set, le-total, total-replicate, total-set_alone}
use c_basics.Mutex.Threads.{Thread, waiting, looping, loaded, ended, Shared, thread_step, initial}

-- What a thread has added; whether it holds the mutex; whether it has read another value than `c`.
unfoldable pub done : Thread → ℕ
done waiting = 0
done (looping i) = i
done (loaded i v) = i
done ended = 10

unfoldable pub inside : Thread → ℕ
inside waiting = 0
inside (looping i) = 1
inside (loaded i v) = 1
inside ended = 0

unfoldable pub stale : ℕ → Thread → ℕ
stale c (loaded i v) = if v == c && ltb i 10 then 0 else 1
stale c (looping i) = if leb i 10 then 0 else 1
stale c _ = 0

stale-outside : (c : ℕ) (t : Thread) → inside t ≡ 0 → stale c t ≡ 0
unfolding inside stale
stale-outside c waiting h = refl
stale-outside c (looping i) h = absurd (omega arith)
stale-outside c (loaded i v) h = absurd (omega arith)
stale-outside c ended h = refl

-- The counter is the sum of what the threads have added, one thread at most is inside, with the
-- mutex, and what it has read is the counter.
pub record IsExclusive (s : System Thread Shared) : Type 0 where
  pub sums : s.shared.counter ≡ total done s.threads
  pub owner : total inside s.threads ≡ (if s.shared.held then 1 else 0)
  pub fresh : total (stale s.shared.counter) s.threads ≡ 0

step-IsExclusive :
    (s : System Thread Shared) (k : ℕ) (t t' : Thread) (m : Shared)
    → IsExclusive s
    → get_elem? s.threads k ≡ some t
    → thread_step t s.shared ≡ some (t', m)
    → (m.counter ≡ total done (set s.threads k t'))
      × (total inside (set s.threads k t') ≡ (if m.held then 1 else 0))
      × (total (stale m.counter) (set s.threads k t') ≡ 0)
unfolding thread_step done inside stale
step-IsExclusive s k waiting t' m h g e = ground (
  arith,
  h.sums,
  h.owner,
  h.fresh,
  e,
  total-set done s.threads k waiting (looping 0) g,
  total-set inside s.threads k waiting (looping 0) g,
  total-set (stale s.shared.counter) s.threads k waiting (looping 0) g,
)
step-IsExclusive s k (looping i) t' m h g e = ground (
  arith,
  h.sums,
  h.owner,
  h.fresh,
  e,
  le-total (stale s.shared.counter) s.threads k (looping i) g,
  le-total inside s.threads k (looping i) g,
  total-set done s.threads k (looping i) (loaded i s.shared.counter) g,
  total-set inside s.threads k (looping i) (loaded i s.shared.counter) g,
  total-set (stale s.shared.counter) s.threads k (looping i) (loaded i s.shared.counter) g,
  total-set done s.threads k (looping i) ended g,
  total-set inside s.threads k (looping i) ended g,
  total-set (stale s.shared.counter) s.threads k (looping i) ended g,
)
step-IsExclusive s k (loaded i v) t' m h g e = ground (
  arith,
  h.sums,
  h.owner,
  h.fresh,
  e,
  le-total (stale s.shared.counter) s.threads k (loaded i v) g,
  total-set done s.threads k (loaded i v) (looping (suc i)) g,
  total-set inside s.threads k (loaded i v) (looping (suc i)) g,
  total-set_alone inside (stale (suc v)) (stale-outside (suc v)) s.threads k (loaded i v)
      (looping (suc i)) g (ground (arith, h.owner)),
)
step-IsExclusive s k ended t' m h g e = cc

-- In every state that the threads of the mutex program reach the counter is the sum of what they
-- have added, at most one of them is inside, exactly while the mutex is held, and what it has read
-- is the counter.
pub Reach-IsExclusive :
    (n : ℕ) {s : System Thread Shared} → Reach thread_step (initial n) s → IsExclusive s
unfolding done inside stale
Reach-IsExclusive n created = record {
  sums = omega (arith, total-replicate done n waiting);
  owner = omega (arith, total-replicate inside n waiting);
  fresh = omega (arith, total-replicate (stale 0) n waiting);
}
Reach-IsExclusive n (stepped {s = s} k {t} {t'} {m} r g e) =
    let (sums, owner, fresh) = step-IsExclusive s k t t' m (Reach-IsExclusive n r) g e in
    record { sums = sums; owner = owner; fresh = fresh }
