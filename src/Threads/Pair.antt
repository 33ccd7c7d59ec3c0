-- ===== src/Threads/Pair.antt =====
-- A parent and its child over what they share, of which one at a time makes a step.
use c_basics.Prelude.{ℕ, suc, ◌≡◌, ◌≢◌, ◌⊎◌, inl, inr, Option, none, some, arith, Option-cases}

pub record Pair (P C S : Type 0) : Type 0 where
  pub parent : P
  pub child : C
  pub shared : S

-- Every order of the steps from a first state, with their number.
pub data Runs {P C S : Type 0} (parent_step : C → P → S → Option (P × S))
    (child_step : C → S → Option (C × S)) (first : Pair P C S) : ℕ → Pair P C S → Type 0 where
  begun : Runs parent_step child_step first 0 first
  by_parent :
      {n : ℕ} {s : Pair P C S} {after : P} {m : S}
      → Runs parent_step child_step first n s
      → parent_step s.child s.parent s.shared ≡ some (after, m)
      → Runs parent_step child_step first (suc n) (record s { parent = after; shared = m })
  by_child :
      {n : ℕ} {s : Pair P C S} {after : C} {m : S}
      → Runs parent_step child_step first n s
      → child_step s.child s.shared ≡ some (after, m)
      → Runs parent_step child_step first (suc n) (record s { child = after; shared = m })

module _ {P C S : Type 0} (parent_step : C → P → S → Option (P × S))
    (child_step : C → S → Option (C × S)) where
  -- One of the two can go on.
  abbrev pub CanStep : Pair P C S → Type 0
  CanStep s = (child_step s.child s.shared ≢ none) ⊎ (parent_step s.child s.parent s.shared ≢ none)

  not_none : {A : Type 0} {o : Option A} {a : A} → o ≡ some a → o ≢ none
  not_none e z = ground (arith, e, z)

  -- What is final when none of the two can go on has them go on until then.
  pub final-CanStep :
      (s final : Pair P C S)
      → (child_step s.child s.shared ≡ none
          → parent_step s.child s.parent s.shared ≡ none
          → s ≡ final)
      → (s ≡ final) ⊎ CanStep s
  final-CanStep s final stuck = elim (Option-cases (child_step s.child s.shared)) [
    | inr (a, e) ↦ inr (inl (not_none e))
    | inl e ↦ elim (Option-cases (parent_step s.child s.parent s.shared)) [
      | inr (a, f) ↦ inr (inr (not_none f))
      | inl f ↦ inl (stuck e f)
    ]
  ]

  -- What holds first and is kept by each step holds in every run.
  pub Runs-invariant :
      (I : ℕ → P → C → S → Type 0) (first : Pair P C S)
      → I 0 first.parent first.child first.shared
      → ((n : ℕ) (p : P) (c : C) (m : S) (r : P × S)
          → I n p c m
          → parent_step c p m ≡ some r
          → I (suc n) r.0 c r.1)
      → ((n : ℕ) (p : P) (c : C) (m : S) (r : C × S)
          → I n p c m
          → child_step c m ≡ some r
          → I (suc n) p r.0 r.1)
      → {n : ℕ} {s : Pair P C S} → Runs parent_step child_step first n s
      → I n s.parent s.child s.shared
  Runs-invariant I first start keep keep' begun = start
  Runs-invariant I first start keep keep' (by_parent {n} {s} r e) =
      keep n s.parent s.child s.shared _ (Runs-invariant I first start keep keep' r) e
  Runs-invariant I first start keep keep' (by_child {n} {s} r e) =
      keep' n s.parent s.child s.shared _ (Runs-invariant I first start keep keep' r) e
