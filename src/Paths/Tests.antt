-- ===== src/Paths/Tests.antt =====
-- A short home directory.
use c_basics.Prelude.{ℕ, ◌≡◌, refl, true, List, [], ◌∷◌, ◌++◌, arith, take}
use c_basics.Paths.FileIo.{example, test_line, digits_line, file_path, fileio, fileio-prints}

-- "/root".
abbrev root : List ℕ
root = 47 ∷ 114 ∷ 111 ∷ 111 ∷ 116 ∷ []

fileio-prints_example :
    (root ++ example ≡ take 149 (root ++ example))
    × (test_line ++ digits_line ≡ test_line ++ digits_line)
    × (true ≡ true)
    × (file_path root ≡ root ++ example)
unfolding fileio
fileio-prints_example =
    fileio-prints root root (λ p. true) 15 6 true true (root ++ example) (test_line ++ digits_line)
      refl (omega arith) (omega arith) (omega arith)
