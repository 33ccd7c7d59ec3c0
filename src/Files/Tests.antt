-- ===== src/Files/Tests.antt =====
-- A word of two letters, and a kernel that takes half of it.
use c_basics.Prelude.{
  ℕ, ◌≡◌, ◌≢◌, refl, true, false, none, some, List, [], ◌∷◌, arith, ltb, take, replicate, length,
}
use c_basics.Files.Mapping.{
  Answers, succeeds, faulted, IsWhole, memory_mapping, up_to_nul, memory_mapping-shows,
}
use c_basics.Files.Position.{lseek_demo, offsets, exit_failure}

abbrev whole : Answers
whole = record {
  open_file = true;
  write = λ n. some n;
  fstat = true;
  mmap = λ n. ltb 0 n;
  write_out = λ n. some n;
}

abbrev halved : Answers
halved = record whole { write = λ n. some 1 }

whole-IsWhole : IsWhole whole
whole-IsWhole = record {
  opens = refl;
  writes = λ n. refl;
  stats = refl;
  maps = λ n h. ground (arith, h);
  writes_out = λ n. refl;
}

abbrev hi : List ℕ
hi = 104 ∷ 105 ∷ []

half : memory_mapping halved (some hi) ≡ succeeds (104 ∷ [])
unfolding memory_mapping up_to_nul
half = refl

memory_mapping-shows_example :
    (memory_mapping whole (some hi) ≡ succeeds hi)
    × ((n : ℕ) × (halved.write (length (up_to_nul hi)) ≡ some n)
        × (104 ∷ [] ≡ take n (up_to_nul hi))
        × (◌≢◌ {A = List ℕ} (104 ∷ []) []))
    × (memory_mapping whole (some (replicate 100 97)) ≡ faulted)
memory_mapping-shows_example =
    memory_mapping-shows whole halved hi hi (replicate 100 97) (104 ∷ []) whole-IsWhole
      (omega arith) (omega arith) (omega arith) refl half (omega arith)

six_then_start : lseek_demo true (some 6) true true ≡ offsets 6 (some 0)
unfolding lseek_demo
six_then_start = refl

not_opened : lseek_demo false none true true ≡ exit_failure
unfolding lseek_demo
not_opened = refl
