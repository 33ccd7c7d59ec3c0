-- ===== src/Semaphore/Calm.antt =====
-- The number of UnixSemaphores.c in the runs where no two shifts overlap.
use c_basics.Prelude.{
  ℕ, zero, suc, ◌-◌, ◌*◌, ◌/◌, ◌≤◌, ◌≡◌, ◌≢◌, refl, sym, ap, ◌∙◌, some, List, [], ◌∷◌, arith, ◌==◌,
  if◌then◌else◌, get_elem?, set, subst, some-injective, ℕ_discrete, replicate,
}
use c_basics.Threads.Schedule.{System, Reach, created, stepped}
use c_basics.Threads.Totals.{total, total-set, le-total, total-replicate, total-set_alone}
use c_basics.Semaphore.Threads.{
  Thread, waiting, entered, read_left, shifted, asleep, read_right, leaving, ended, failing, Shared,
  thread_step, initial,
}
use c_basics.Semaphore.Limit.{inside, semaphore_adds}

-- Between a read and its write.
unfoldable pub shifting : Thread → ℕ
shifting (read_left v) = 1
shifting (read_right v) = 1
shifting _ = 0

-- The runs in which no two threads are between a read and its write at once.
pub data CalmReach (n : ℕ) : System Thread Shared → Type 0 where
  calm_start : CalmReach n (initial n)
  calm_step :
      {s : System Thread Shared} (k : ℕ) {t t' : Thread} {m : Shared}
      → CalmReach n s
      → get_elem? s.threads k ≡ some t
      → thread_step t s.shared ≡ some (t', m)
      → total shifting (set s.threads k t') ≤ 1
      → CalmReach n (record { threads = set s.threads k t'; shared = m })

CalmReach-Reach :
    (n : ℕ) {s : System Thread Shared} → CalmReach n s → Reach thread_step (initial n) s
CalmReach-Reach n calm_start = created
CalmReach-Reach n (calm_step k r g e small) = stepped k (CalmReach-Reach n r) g e

-- Whether a thread has shifted to the left and not back; has read another value than `c`; has
-- failed.
unfoldable pub up : Thread → ℕ
up shifted = 1
up asleep = 1
up (read_right v) = 1
up _ = 0

unfoldable pub stale : ℕ → Thread → ℕ
stale c (read_left v) = if v == c then 0 else 1
stale c (read_right v) = if v == c then 0 else 1
stale c _ = 0

unfoldable pub failed : Thread → ℕ
failed failing = 1
failed _ = 0

-- 7, two bits to the left for each thread that has shifted.
unfoldable pub level : ℕ → ℕ
level zero = 7
level (suc n) = level n * 4

pub record IsCalm (s : System Thread Shared) : Type 0 where
  pub counts : s.shared.binary ≡ level (total up s.threads)
  pub fresh : total (stale s.shared.binary) s.threads ≡ 0
  pub sound : total failed s.threads ≡ 0
  pub one : total shifting s.threads ≤ 1
  pub few : total inside s.threads ≤ 2

stale-still : (c : ℕ) (t : Thread) → shifting t ≡ 0 → stale c t ≡ 0
unfolding shifting stale
stale-still c waiting h = refl
stale-still c entered h = refl
stale-still c (read_left v) h = absurd (omega arith)
stale-still c shifted h = refl
stale-still c asleep h = refl
stale-still c (read_right v) h = absurd (omega arith)
stale-still c leaving h = refl
stale-still c ended h = refl
stale-still c failing h = refl

up-le-inside : (ts : List Thread) → total up ts ≤ total inside ts
unfolding up inside
up-le-inside [] = omega arith
up-le-inside (t ∷ ts) = ground (arith, up-le-inside ts)

level-low : (n : ℕ) → n ≤ 2 → level n ≤ 112
unfolding level
level-low zero h = omega arith
level-low (suc zero) h = omega arith
level-low (suc (suc zero)) h = omega arith
level-low (suc (suc (suc n))) h = absurd (omega arith)

binary-low : (s : System Thread Shared) → IsCalm s → s.shared.binary ≤ 112
binary-low s h =
    omega (
      arith,
      h.counts,
      level-low (total up s.threads) (omega (arith, up-le-inside s.threads, h.few)),
    )

-- A thread's next place and memory, put in.
abbrev after : System Thread Shared → ℕ → Thread × Shared → System Thread Shared
after s k p = record { threads = set s.threads k p.0; shared = p.1 }

-- What remains to be shown of the next state.
record StaysCalm (s : System Thread Shared) : Type 0 where
  counts : s.shared.binary ≡ level (total up s.threads)
  fresh : total (stale s.shared.binary) s.threads ≡ 0
  sound : total failed s.threads ≡ 0

module _ (s : System Thread Shared) (k : ℕ) (t : Thread) (h : IsCalm s)
    (g : get_elem? s.threads k ≡ some t) where
  -- A step that leaves the number alone.
  quiet-StaysCalm :
      (t' : Thread) (value : ℕ)
      → up t' ≡ up t
      → stale s.shared.binary t' ≡ 0
      → failed t' ≡ 0
      → StaysCalm (after s k (t', record (s.shared) { semaphore = value }))
  quiet-StaysCalm t' value b c d = record {
    counts = h.counts ∙ ap level (omega (arith, total-set up s.threads k t t' g));
    fresh = omega (arith, h.fresh, total-set (stale s.shared.binary) s.threads k t t' g);
    sound = omega (arith, h.sound, total-set failed s.threads k t t' g);
  }

  -- The write of a shift.
  write-StaysCalm :
      (t' : Thread) (c : ℕ)
      → shifting t ≡ 1
      → c ≡ level (total up (set s.threads k t'))
      → stale c t' ≡ 0
      → failed t' ≡ 0
      → StaysCalm (after s k (t', record (s.shared) { binary = c }))
  write-StaysCalm t' c a b n d = record {
    counts = b;
    fresh =
        total-set_alone shifting (stale c) (stale-still c) s.threads k t t' g
          (omega (arith, a, h.one))
        ∙ n;
    sound = omega (arith, h.sound, total-set failed s.threads k t t' g);
  }

  -- What a thread has read is the number.
  read-fresh : stale s.shared.binary t ≡ 0
  read-fresh = omega (arith, h.fresh, le-total (stale s.shared.binary) s.threads k t g)

left-level :
    (s : System Thread Shared) (k v : ℕ)
    → IsCalm s
    → get_elem? s.threads k ≡ some (read_left v)
    → v * 4 ≡ level (total up (set s.threads k shifted))
unfolding up stale level
left-level s k v h g =
    let same : v ≡ s.shared.binary = ground (arith, read-fresh s k (read_left v) h g) in
    let more : total up (set s.threads k shifted) ≡ suc (total up s.threads) =
      omega (arith, total-set up s.threads k (read_left v) shifted g) in
    ap (λ n. n * 4) (same ∙ h.counts) ∙ sym (ap level more)

right-level :
    (s : System Thread Shared) (k v : ℕ)
    → IsCalm s
    → get_elem? s.threads k ≡ some (read_right v)
    → v / 4 ≡ level (total up (set s.threads k leaving))
unfolding up stale level
right-level s k v h g =
    let same : v ≡ s.shared.binary = ground (arith, read-fresh s k (read_right v) h g) in
    let less : total up s.threads ≡ suc (total up (set s.threads k leaving)) =
      omega (arith, total-set up s.threads k (read_right v) leaving g) in
    let here : v ≡ level (total up (set s.threads k leaving)) * 4 =
      same ∙ h.counts ∙ ap level less in
    omega (arith, here)

taken-StaysCalm :
    (s : System Thread Shared) (k : ℕ) (t : Thread)
    → IsCalm s
    → get_elem? s.threads k ≡ some t
    → (p : Thread × Shared) → thread_step t s.shared ≡ some p
    → StaysCalm (after s k p)
unfolding thread_step up stale failed shifting
taken-StaysCalm s k waiting h g p e = elim (ℕ_discrete s.shared.semaphore 0) [
  | yes none_left ↦ absurd (ground (arith, none_left, e))
  | no some_left ↦
      subst (λ q. StaysCalm (after s k q)) (ground (arith, some_left, e))
        (quiet-StaysCalm s k waiting h g entered (s.shared.semaphore - 1) refl refl refl)
]
taken-StaysCalm s k entered h g p e =
    subst (λ q. StaysCalm (after s k q)) (some-injective _ _ e)
      (quiet-StaysCalm s k entered h g (read_left s.shared.binary) s.shared.semaphore refl
        (ground arith) refl)
taken-StaysCalm s k (read_left v) h g p e =
    subst (λ q. StaysCalm (after s k q)) (some-injective _ _ e)
      (write-StaysCalm s k (read_left v) h g shifted (v * 4) refl (left-level s k v h g) refl refl)
taken-StaysCalm s k shifted h g p e =
    let low = binary-low s h in
    subst (λ q. StaysCalm (after s k q)) (ground (arith, low, some-injective _ _ e))
      (quiet-StaysCalm s k shifted h g asleep s.shared.semaphore refl refl refl)
taken-StaysCalm s k asleep h g p e =
    subst (λ q. StaysCalm (after s k q)) (some-injective _ _ e)
      (quiet-StaysCalm s k asleep h g (read_right s.shared.binary) s.shared.semaphore refl
        (ground arith) refl)
taken-StaysCalm s k (read_right v) h g p e =
    subst (λ q. StaysCalm (after s k q)) (some-injective _ _ e)
      (write-StaysCalm s k (read_right v) h g leaving (v / 4) refl (right-level s k v h g) refl
        refl)
taken-StaysCalm s k leaving h g p e =
    subst (λ q. StaysCalm (after s k q)) (some-injective _ _ e)
      (quiet-StaysCalm s k leaving h g ended (suc s.shared.semaphore) refl refl refl)
taken-StaysCalm s k ended h g p e = cc
taken-StaysCalm s k failing h g p e = cc

CalmReach-IsCalm : (n : ℕ) {s : System Thread Shared} → CalmReach n s → IsCalm s
unfolding inside up stale failed level shifting
CalmReach-IsCalm n calm_start =
    let none_up : total up (replicate n waiting) ≡ 0 =
      omega (arith, total-replicate up n waiting) in
    record {
      counts = sym (ap level none_up);
      fresh = omega (arith, total-replicate (stale 7) n waiting);
      sound = omega (arith, total-replicate failed n waiting);
      one = omega (arith, total-replicate shifting n waiting);
      few = omega (arith, total-replicate inside n waiting);
    }
CalmReach-IsCalm n (calm_step {s = s} k {t} {t'} {m} r g e small) =
    let next = taken-StaysCalm s k t (CalmReach-IsCalm n r) g (t', m) e in
    record {
      counts = next.counts;
      fresh = next.fresh;
      sound = next.sound;
      one = small;
      few = omega (arith, semaphore_adds n (stepped k (CalmReach-Reach n r) g e));
    }

-- However many threads run `thread_routine`, in a run in which no two of them are between a read
-- and its write at once, two at most are between sem_wait and sem_post, two at most have shifted to
-- the left and not back, the number is 7, 28 or 112 by how many these are, and no thread fails its
-- test.
pub semaphore_holds :
    (n : ℕ) {s : System Thread Shared}
    → CalmReach n s
    → (total inside s.threads ≤ 2)
      × (total up s.threads ≤ 2)
      × (s.shared.binary ≡ level (total up s.threads))
      × ((k : ℕ) → get_elem? s.threads k ≢ some failing)
unfolding failed
semaphore_holds n {s} r =
    let h = CalmReach-IsCalm n r in
    (
      h.few,
      omega (arith, h.few, up-le-inside s.threads),
      h.counts,
      λ k g. absurd (omega (arith, h.sound, le-total failed s.threads k failing g)),
    )
