-- ===== src/Threads/Totals.antt =====
-- Sums over threads, and what a change of one of them does to the sum.
use c_basics.Prelude.{
  ℕ, zero, suc, ◌+◌, ◌*◌, ◌≤◌, ◌<◌, ◌≡◌, refl, ap, some, List, [], ◌∷◌, arith, get_elem?, set,
  dec_lt, some-injective, replicate,
}

module _ {T : Type 0} (f : T → ℕ) where
  abbrev pub total : List T → ℕ
  total [] = 0
  total (t ∷ ts) = f t + total ts

  pub total-set :
      (ts : List T) (k : ℕ) (t t' : T)
      → get_elem? ts k ≡ some t
      → total (set ts k t') + f t ≡ total ts + f t'
  total-set [] k t t' e = cc
  total-set (x ∷ ts) zero t t' e = omega (arith, ap f (some-injective _ _ e))
  total-set (x ∷ ts) (suc k) t t' e = omega (arith, total-set ts k t t' e)

  pub le-total : (ts : List T) (k : ℕ) (t : T) → get_elem? ts k ≡ some t → f t ≤ total ts
  le-total [] k t e = cc
  le-total (x ∷ ts) zero t e = omega (arith, ap f (some-injective _ _ e))
  le-total (x ∷ ts) (suc k) t e = omega (arith, le-total ts k t e)

  pub total-replicate : (n : ℕ) (t : T) → total (replicate n t) ≡ n * f t
  total-replicate zero t = omega arith
  total-replicate (suc n) t = grind (arith, total-replicate n t)

  -- A sum above 0 has a summand above 0.
  pub total_positive :
      (ts : List T) → 0 < total ts → (k : ℕ) × (t : T) × (get_elem? ts k ≡ some t) × (0 < f t)
  total_positive [] h = absurd (omega arith)
  total_positive (x ∷ ts) h = elim (dec_lt 0 (f x)) [
    | yes p ↦ (0, x, refl, p)
    | no p ↦ let (k, t, e, q) = total_positive ts (omega (arith, p)) in (suc k, t, e, q)
  ]

-- Where `g` is 0 wherever `f` is.
module _ {T : Type 0} (f g : T → ℕ) (below : (x : T) → f x ≡ 0 → g x ≡ 0) where
  pub total_zero : (ts : List T) → total f ts ≡ 0 → total g ts ≡ 0
  total_zero [] e = refl
  total_zero (x ∷ ts) e = omega (arith, below x (omega arith), total_zero ts (omega arith))

  -- If `t` alone counts for `f`, then what becomes of it is all that counts for `g`.
  pub total-set_alone :
      (ts : List T) (k : ℕ) (t t' : T)
      → get_elem? ts k ≡ some t
      → total f ts ≤ f t
      → total g (set ts k t') ≡ g t'
  total-set_alone [] k t t' e le = cc
  total-set_alone (x ∷ ts) zero t t' e le =
      omega (arith, total_zero ts (omega (arith, ap f (some-injective _ _ e))))
  total-set_alone (x ∷ ts) (suc k) t t' e le = omega (
    arith,
    below x (omega (arith, le-total f ts k t e)),
    total-set_alone ts k t t' e (omega arith),
  )
