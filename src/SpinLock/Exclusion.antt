-- ===== src/SpinLock/Exclusion.antt =====
-- The spin lock keeps the counter of UnixSpinLocks.c at 0 or 1.
use c_basics.Prelude.{
  ℕ, ◌+◌, ◌%◌, ◌≤◌, ◌≡◌, ◌≢◌, inl, inr, refl, ◌∙◌, Bool, true, false, some, List, [], ◌∷◌, arith,
  ◌==◌, if◌then◌else◌, get_elem?, set, Bool-cases, subst, some-injective,
}
use c_basics.Threads.Schedule.{System, Reach, created, stepped}
use c_basics.Threads.Totals.{total, total-set, le-total, total-replicate, total-set_alone}
use c_basics.SpinLock.Threads.{
  Thread, arriving, waiting, entered, read_up, raised, read_down, lowered, leaving, ended, failing,
  Shared, thread_step, initial,
}

-- Whether a thread holds the lock; has raised the counter; has read another value than `c`; has
-- failed.
unfoldable pub inside : Thread → ℕ
inside entered = 1
inside (read_up v) = 1
inside raised = 1
inside (read_down v) = 1
inside lowered = 1
inside _ = 0

unfoldable pub up : Thread → ℕ
up raised = 1
up (read_down v) = 1
up _ = 0

unfoldable pub stale : ℕ → Thread → ℕ
stale c (read_up v) = if v == c then 0 else 1
stale c (read_down v) = if v == c then 0 else 1
stale c _ = 0

unfoldable pub failed : Thread → ℕ
failed failing = 1
failed _ = 0

stale-outside : (c : ℕ) (t : Thread) → inside t ≡ 0 → stale c t ≡ 0
unfolding inside stale
stale-outside c arriving h = refl
stale-outside c waiting h = refl
stale-outside c entered h = refl
stale-outside c (read_up v) h = absurd (omega arith)
stale-outside c raised h = refl
stale-outside c (read_down v) h = absurd (omega arith)
stale-outside c lowered h = refl
stale-outside c leaving h = refl
stale-outside c ended h = refl
stale-outside c failing h = refl

up-le-inside : (ts : List Thread) → total up ts ≤ total inside ts
unfolding up inside
up-le-inside [] = omega arith
up-le-inside (t ∷ ts) = ground (arith, up-le-inside ts)

-- One thread at most holds the lock; the counter is 1 while it is raised and 0 else; what a thread
-- has read is the counter; no thread has failed.
pub record IsSpinning (s : System Thread Shared) : Type 0 where
  pub owner : total inside s.threads ≡ (if s.shared.held then 1 else 0)
  pub counts : s.shared.cannot_go_over_2 ≡ total up s.threads
  pub fresh : total (stale s.shared.cannot_go_over_2) s.threads ≡ 0
  pub sound : total failed s.threads ≡ 0

module _ (s : System Thread Shared) (k : ℕ) (t : Thread) (h : IsSpinning s)
    (g : get_elem? s.threads k ≡ some t) where
  -- A step that leaves the counter alone.
  quiet-IsSpinning :
      (t' : Thread) (held : Bool)
      → inside t' + (if s.shared.held then 1 else 0) ≡ inside t + (if held then 1 else 0)
      → up t' ≡ up t
      → stale s.shared.cannot_go_over_2 t' ≡ 0
      → failed t' ≡ 0
      → IsSpinning
          (record { threads = set s.threads k t'; shared = record (s.shared) { held = held } })
  quiet-IsSpinning t' held a b c d = record {
    owner = omega (arith, h.owner, total-set inside s.threads k t t' g);
    counts = omega (arith, h.counts, total-set up s.threads k t t' g);
    fresh = omega (arith, h.fresh, total-set (stale s.shared.cannot_go_over_2) s.threads k t t' g);
    sound = omega (arith, h.sound, total-set failed s.threads k t t' g);
  }

  -- A write of the counter, by the thread that holds the lock.
  write-IsSpinning :
      (t' : Thread) (c : ℕ)
      → inside t ≡ 1
      → inside t' ≡ 1
      → c + up t ≡ s.shared.cannot_go_over_2 + up t'
      → stale c t' ≡ 0
      → failed t' ≡ 0
      → IsSpinning (record {
        threads = set s.threads k t';
        shared = record (s.shared) { cannot_go_over_2 = c };
      })
  write-IsSpinning t' c a a' b n d = record {
    owner = omega (arith, h.owner, total-set inside s.threads k t t' g);
    counts = omega (arith, h.counts, total-set up s.threads k t t' g);
    fresh =
        total-set_alone inside (stale c) (stale-outside c) s.threads k t t' g
          (ground (arith, h.owner))
        ∙ n;
    sound = omega (arith, h.sound, total-set failed s.threads k t t' g);
  }

-- A thread's next place and memory, put in.
abbrev after : System Thread Shared → ℕ → Thread × Shared → System Thread Shared
after s k p = record { threads = set s.threads k p.0; shared = p.1 }

counter-le-one : (s : System Thread Shared) → IsSpinning s → s.shared.cannot_go_over_2 ≤ 1
counter-le-one s h = ground (arith, h.owner, h.counts, up-le-inside s.threads)

-- What a thread inside has read is the counter.
read-fresh :
    (s : System Thread Shared) (k : ℕ) (t : Thread)
    → IsSpinning s
    → get_elem? s.threads k ≡ some t
    → stale s.shared.cannot_go_over_2 t ≡ 0
read-fresh s k t h g =
    omega (arith, h.fresh, le-total (stale s.shared.cannot_go_over_2) s.threads k t g)

taken-IsSpinning :
    (s : System Thread Shared) (k : ℕ) (t : Thread)
    → IsSpinning s
    → get_elem? s.threads k ≡ some t
    → (p : Thread × Shared) → thread_step t s.shared ≡ some p
    → IsSpinning (after s k p)
unfolding thread_step inside up stale failed
taken-IsSpinning s k arriving h g p e =
    let low = counter-le-one s h in
    subst (λ q. IsSpinning (after s k q)) (ground (arith, low, some-injective _ _ e))
      (quiet-IsSpinning s k arriving h g waiting s.shared.held refl refl refl refl)
taken-IsSpinning s k waiting h g p e = elim (Bool-cases s.shared.held) [
  | inl held ↦ cc
  | inr free ↦
      subst (λ q. IsSpinning (after s k q)) (ground (arith, free, e))
        (quiet-IsSpinning s k waiting h g entered true (ground (arith, free)) refl refl refl)
]
taken-IsSpinning s k entered h g p e =
    subst (λ q. IsSpinning (after s k q)) (some-injective _ _ e)
      (quiet-IsSpinning s k entered h g (read_up s.shared.cannot_go_over_2) s.shared.held refl refl
        (ground arith) refl)
taken-IsSpinning s k (read_up v) h g p e =
    subst (λ q. IsSpinning (after s k q)) (some-injective _ _ e)
      (write-IsSpinning s k (read_up v) h g raised ((v + 1) % 256) refl refl
        (ground (arith, read-fresh s k (read_up v) h g, counter-le-one s h)) refl refl)
taken-IsSpinning s k raised h g p e =
    subst (λ q. IsSpinning (after s k q)) (some-injective _ _ e)
      (quiet-IsSpinning s k raised h g (read_down s.shared.cannot_go_over_2) s.shared.held refl refl
        (ground arith) refl)
taken-IsSpinning s k (read_down v) h g p e =
    subst (λ q. IsSpinning (after s k q)) (some-injective _ _ e)
      (write-IsSpinning s k (read_down v) h g lowered ((v + 255) % 256) refl refl
        (ground (
          arith,
          read-fresh s k (read_down v) h g,
          counter-le-one s h,
          h.counts,
          le-total up s.threads k (read_down v) g,
        ))
        refl refl)
taken-IsSpinning s k lowered h g p e =
    subst (λ q. IsSpinning (after s k q)) (some-injective _ _ e)
      (quiet-IsSpinning s k lowered h g leaving false
        (ground (arith, h.owner, le-total inside s.threads k lowered g)) refl refl refl)
taken-IsSpinning s k leaving h g p e =
    let low = counter-le-one s h in
    subst (λ q. IsSpinning (after s k q)) (ground (arith, low, some-injective _ _ e))
      (quiet-IsSpinning s k leaving h g ended s.shared.held refl refl refl refl)
taken-IsSpinning s k ended h g p e = cc
taken-IsSpinning s k failing h g p e = cc

Reach-IsSpinning :
    (n : ℕ) {s : System Thread Shared} → Reach thread_step (initial n) s → IsSpinning s
unfolding inside up stale failed
Reach-IsSpinning n created = record {
  owner = omega (arith, total-replicate inside n arriving);
  counts = omega (arith, total-replicate up n arriving);
  fresh = omega (arith, total-replicate (stale 0) n arriving);
  sound = omega (arith, total-replicate failed n arriving);
}
Reach-IsSpinning n (stepped {s = s} k {t} {t'} {m} r g e) =
    taken-IsSpinning s k t (Reach-IsSpinning n r) g (t', m) e

-- However many threads run `pthread_function_example`, and in whatever order, the counter is 0 or
-- 1, one thread at most holds the lock, and no thread fails one of its two tests.
pub spin_lock_holds :
    (n : ℕ) {s : System Thread Shared}
    → Reach thread_step (initial n) s
    → (s.shared.cannot_go_over_2 ≤ 1)
      × (total inside s.threads ≤ 1)
      × ((k : ℕ) → get_elem? s.threads k ≢ some failing)
unfolding failed
spin_lock_holds n {s} r =
    let h = Reach-IsSpinning n r in
    (
      counter-le-one s h,
      ground (arith, h.owner),
      λ k g. absurd (omega (arith, h.sound, le-total failed s.threads k failing g)),
    )
