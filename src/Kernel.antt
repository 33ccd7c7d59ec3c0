-- ===== src/Kernel.antt =====
-- What system calls answer, as the programs of this repository read it.
use c_basics.Prelude.{ℕ, ◌≡◌, refl, ◌⊎◌, inl, inr, List, [], ◌∷◌, if◌then◌else◌, ◌==◌, ◌+◌}

-- `recv(2)` and `read(2)`: -1, or the bytes put into the buffer. No bytes is end of file.
pub data Recv : Type 0 where
  failed : Recv
  got : List ℕ → Recv

-- How often `d` stands in a list of descriptors.
unfoldable pub occurs : ℕ → List ℕ → ℕ
occurs d [] = 0
occurs d (x ∷ xs) = (if x == d then 1 else 0) + occurs d xs

pub Recv-cases : (r : Recv) → (r ≡ failed) ⊎ ((bytes : List ℕ) × (r ≡ got bytes))
Recv-cases failed = inl refl
Recv-cases (got bytes) = inr (bytes, refl)
