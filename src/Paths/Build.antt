-- ===== src/Paths/Build.antt =====
-- Texts that are cut to the memory they are built in.
use c_basics.Prelude.{
  ℕ, zero, suc, ◌-◌, ◌≤◌, ◌≡◌, refl, ap, List, [], ◌∷◌, ◌++◌, arith, length, take,
}

-- snprintf(3) of a text into `size` bytes, of which one is for the NUL; and strncpy(3) with a NUL
-- put at the end.
unfoldable pub snprintf : ℕ → List ℕ → List ℕ
snprintf size text = take (size - 1) text

pub take-long : (n : ℕ) (xs : List ℕ) → length xs ≤ n → take n xs ≡ xs
take-long zero [] h = refl
take-long zero (x ∷ xs) h = absurd (omega (arith, h))
take-long (suc n) [] h = refl
take-long (suc n) (x ∷ xs) h = ap (λ ys. x ∷ ys) (take-long n xs (omega (arith, h)))

-- What is cut first is cut all the same.
pub take-take-append : (n : ℕ) (xs ys : List ℕ) → take n (take n xs ++ ys) ≡ take n (xs ++ ys)
take-take-append zero xs ys = refl
take-take-append (suc n) [] ys = refl
take-take-append (suc n) (x ∷ xs) ys = ap (λ zs. x ∷ zs) (take-take-append n xs ys)
