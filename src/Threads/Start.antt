-- ===== src/Threads/Start.antt =====
-- The loops over pthread_create and pthread_join.
use c_basics.Prelude.{
  ℕ, zero, suc, ◌+◌, ◌≤◌, ◌<◌, ◌≡◌, inl, inr, Bool, true, false, arith, if◌then◌else◌, Bool-cases,
  subst, ℕ_discrete,
}

-- A loop over `i` that exits at the first call that fails.
unfoldable pub all_succeed : (ℕ → Bool) → ℕ → ℕ → Bool
all_succeed call zero i = true
all_succeed call (suc left) i =
    let rest = all_succeed call left (suc i) in if call i then rest else false

pub data Exit : Type 0 where
  exit_failure exit_success : Exit

pub all_succeed-each :
    (call : ℕ → Bool) (left i k : ℕ)
    → all_succeed call left i ≡ true
    → i ≤ k
    → k < i + left
    → call k ≡ true
unfolding all_succeed
all_succeed-each call zero i k e le lt = absurd (omega arith)
all_succeed-each call (suc left) i k e le lt = elim (Bool-cases (call i)) [
  | inl on ↦ elim (ℕ_discrete i k) [
    | yes same ↦ subst (λ j. call j ≡ true) same on
    | no ne ↦
        all_succeed-each call left (suc i) k (ground (arith, e, on)) (omega (arith, ne))
          (omega arith)
  ]
  | inr off ↦ absurd (ground (arith, e, off))
]
