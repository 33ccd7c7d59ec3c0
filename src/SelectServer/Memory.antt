-- ===== src/SelectServer/Memory.antt =====
-- Texts in zeroed memory.
use c_basics.Prelude.{
  ℕ, zero, suc, ◌+◌, ◌≤◌, ◌<◌, ◌≡◌, ◌≢◌, refl, ap, ◌∙◌, some, List, [], ◌∷◌, ◌++◌, arith, length,
  take, append_assoc, length-append, subst,
}
use c_basics.SelectServer.Text.{c_string, sprintf, store, zeros, decimal}

-- No byte is NUL.
abbrev pub NulFree : List ℕ → Type 0
NulFree [] = Unit
NulFree (b ∷ bs) = (b ≢ 0) × NulFree bs

pub NulFree-append : (xs ys : List ℕ) → NulFree xs → NulFree ys → NulFree (xs ++ ys)
NulFree-append [] ys h k = k
NulFree-append (x ∷ xs) ys h k = (h.0, NulFree-append xs ys h.1 k)

-- A longer text over a shorter one, in memory that ends in zeros.
pub store-zeros :
    (old new : List ℕ) (k r : ℕ)
    → length old ≤ length new
    → length new + r ≡ length old + k
    → store (old ++ zeros k) new ≡ some (new ++ zeros r)
unfolding store
store-zeros [] [] k r h g = ap (λ n. some (zeros n)) (omega arith)
store-zeros [] (b ∷ new) zero r h g = absurd (omega arith)
store-zeros [] (b ∷ new) (suc k) r h g = rw (store-zeros [] new k r (omega arith) (omega arith))
store-zeros (a ∷ old) [] k r h g = absurd (omega arith)
store-zeros (a ∷ old) (b ∷ new) k r h g = rw (store-zeros old new k r (omega arith) (omega arith))

pub c_string-text :
    (text : List ℕ) (k : ℕ) → NulFree text → c_string (text ++ zeros (suc k)) ≡ some text
unfolding c_string
c_string-text [] k h = refl
c_string-text (b ∷ text) k h = ground (arith, c_string-text text k h.1)

pub take-zeros : (n k z : ℕ) → k ≡ n + z → take n (zeros k) ≡ zeros n
take-zeros zero k z h = refl
take-zeros (suc n) zero z h = absurd (omega arith)
take-zeros (suc n) (suc k) z h = ap (λ xs. 0 ∷ xs) (take-zeros n k z (omega arith))

pub take-text :
    (text : List ℕ) (n m k z : ℕ)
    → n ≡ length text + m
    → k ≡ m + z
    → take n (text ++ zeros k) ≡ text ++ zeros m
take-text [] n m k z h g =
    subst (λ x. take x (zeros k) ≡ zeros m) (omega arith) (take-zeros m k z g)
take-text (b ∷ text) zero m k z h g = absurd (omega arith)
take-text (b ∷ text) (suc n) m k z h g = ap (λ xs. b ∷ xs) (take-text text n m k z (omega arith) g)

pub length-zeros : (k : ℕ) → length (zeros k) ≡ k
length-zeros zero = refl
length-zeros (suc k) = ap suc (length-zeros k)

pub sprintf-zeros :
    (old text : List ℕ) (k r : ℕ)
    → length old ≤ length text
    → length text + suc r ≡ length old + k
    → sprintf (old ++ zeros k) text ≡ some (text ++ zeros (suc r))
unfolding sprintf
sprintf-zeros old text k r h g =
    store-zeros old (text ++ (0 ∷ [])) k r (omega (arith, length-append text (0 ∷ [])))
      (omega (arith, length-append text (0 ∷ [])))
    ∙ ap some (append_assoc text (0 ∷ []) (zeros r))

pub decimal-NulFree : (n : ℕ) → NulFree (decimal n)
unfolding decimal
decimal-NulFree n = ground arith

pub length-decimal : (n : ℕ) → n < 1000 → (1 ≤ length (decimal n)) × (length (decimal n) ≤ 3)
unfolding decimal
length-decimal n h = ground arith

-- A string ends at the first NUL, whatever stands behind it.
pub c_string-NulFree :
    (text rest : List ℕ) → NulFree text → c_string (text ++ (0 ∷ rest)) ≡ some text
unfolding c_string
c_string-NulFree [] rest h = refl
c_string-NulFree (b ∷ text) rest h = ground (arith, c_string-NulFree text rest h.1)

-- Bytes over the start of longer memory.
pub store-over :
    (memory bytes : List ℕ)
    → length bytes ≤ length memory
    → (rest : List ℕ) × (store memory bytes ≡ some (bytes ++ rest))
      × (length (bytes ++ rest) ≡ length memory)
unfolding store
store-over memory [] h = (memory, refl, refl)
store-over [] (b ∷ bytes) h = absurd (omega arith)
store-over (m ∷ memory) (b ∷ bytes) h =
    let (rest, e, l) = store-over memory bytes (omega arith) in (rest, rw e, omega (arith, l))
