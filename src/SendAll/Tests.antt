-- ===== src/SendAll/Tests.antt =====
-- A message of ten bytes, taken by eight and eight.
use c_basics.Prelude.{ℕ, false, List, [], ◌∷◌, take}
use c_basics.SendAll.Rounds.{Sent}

abbrev digits : List ℕ
digits = 1 ∷ 2 ∷ 3 ∷ 4 ∷ 5 ∷ 6 ∷ 7 ∷ 8 ∷ 9 ∷ 10 ∷ []

abbrev twice : Sent
twice = record { calls = take 8 digits ∷ take 8 digits ∷ []; total = 16; fails = false }
