-- ===== src/Threads/Schedule.antt =====
-- Threads over shared memory, of which one at a time makes a step.
use c_basics.Prelude.{
  ℕ, zero, suc, ◌+◌, ◌≤◌, ◌<◌, ◌≡◌, ◌⊎◌, inl, inr, refl, ◌∙◌, Option, none, some, List, [], ◌∷◌,
  arith, length, get_elem?, set, Option-cases, length-set,
}
use c_basics.Threads.Totals.{total, total-set}

pub record System (T S : Type 0) : Type 0 where
  pub threads : List T
  pub shared : S

-- What is reached from a first system when any thread that can step does.
pub data Reach {T S : Type 0} (step : T → S → Option (T × S)) (first : System T S)
    : System T S → Type 0 where
  created : Reach step first first
  stepped :
      {s : System T S} (k : ℕ) {t t' : T} {m : S}
      → Reach step first s
      → get_elem? s.threads k ≡ some t
      → step t s.shared ≡ some (t', m)
      → Reach step first (record { threads = set s.threads k t'; shared = m })

-- How many steps were made.
unfoldable pub steps :
    {T S : Type 0} {step : T → S → Option (T × S)} {first s : System T S} → Reach step first s → ℕ
steps created = 0
steps (stepped k r g e) = suc (steps r)

-- Some thread can step.
pub record Enabled {T S : Type 0} (step : T → S → Option (T × S)) (s : System T S) : Type 0 where
  pub index : ℕ
  pub before : T
  pub after : T
  pub memory : S
  pub found : get_elem? s.threads index ≡ some before
  pub moves : step before s.shared ≡ some (after, memory)

module _ {T S : Type 0} {step : T → S → Option (T × S)} {first : System T S} where
  pub Reach-length : {s : System T S} → Reach step first s → length s.threads ≡ length first.threads
  Reach-length created = refl
  Reach-length (stepped {s = s} k {t} {t'} r g e) = length-set s.threads k t' ∙ Reach-length r

  pub Reach-trans : {s t : System T S} → Reach step first s → Reach step s t → Reach step first t
  Reach-trans r created = r
  Reach-trans r (stepped k q g e) = stepped k (Reach-trans r q) g e

-- The threads of a list step one after the other; one that cannot is passed over.
unfoldable pub step_at : {T S : Type 0} → (T → S → Option (T × S)) → System T S → ℕ → System T S
step_at step s k = elim (get_elem? s.threads k) [
  | none ↦ s
  | some t ↦ elim (step t s.shared) [
    | none ↦ s
    | some (t', m) ↦ record { threads = set s.threads k t'; shared = m }
  ]
]

unfoldable pub play : {T S : Type 0} → (T → S → Option (T × S)) → System T S → List ℕ → System T S
unfolding step_at
play step s [] = s
play step s (k ∷ ks) = play step (step_at step s k) ks

module _ {T S : Type 0} {step : T → S → Option (T × S)} {first : System T S} where
  step_at-Reach :
      (s : System T S) (k : ℕ) → Reach step first s → Reach step first (step_at step s k)
  unfolding step_at
  step_at-Reach s k r = elim (Option-cases (get_elem? s.threads k)) [
    | inl e ↦ rw (e, step_at) r
    | inr (t, e) ↦ elim (Option-cases (step t s.shared)) [
      | inl f ↦ rw (e, step_at) (rw f r)
      | inr ((t', m), f) ↦ rw (e, step_at) (rw f (stepped k r e f))
    ]
  ]

  pub play-Reach :
      (s : System T S) (ks : List ℕ) → Reach step first s → Reach step first (play step s ks)
  unfolding play
  play-Reach s [] r = r
  play-Reach s (k ∷ ks) r = play-Reach (step_at step s k) ks (step_at-Reach s k r)

-- Each step takes at least one from the work that is left.
module _ {T S : Type 0} {step : T → S → Option (T × S)} (work : T → ℕ)
    (works : (t : T) (m : S) (t' : T) (m' : S) → step t m ≡ some (t', m') → work t' < work t) where
  -- Then there is an end to the steps,
  pub steps_bound :
      {first s : System T S} (r : Reach step first s)
      → steps r + total work s.threads ≤ total work first.threads
  unfolding steps
  steps_bound created = omega arith
  steps_bound (stepped {s = s} k {t} {t'} {m} r g e) =
      omega (arith, steps_bound r, works t s.shared t' m e, total-set work s.threads k t t' g)

  -- and if some thread can always step while work is left then all of it gets done.
  pub drive :
      {first : System T S}
      → ((s : System T S) → Reach step first s → (total work s.threads ≡ 0) ⊎ Enabled step s)
      → (fuel : ℕ) {s : System T S} → Reach step first s
      → total work s.threads ≤ fuel
      → (s' : System T S) × Reach step first s' × (total work s'.threads ≡ 0)
  drive live zero {s} r le = (s, r, omega arith)
  drive live (suc fuel) {s} r le = elim (live s r) [
    | inl finished ↦ (s, r, finished)
    | inr go ↦ drive live fuel (stepped go.index r go.found go.moves) (
        omega (
          arith,
          works go.before s.shared go.after go.memory go.moves,
          total-set work s.threads go.index go.before go.after go.found,
        ))
  ]
