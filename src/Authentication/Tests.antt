-- ===== src/Authentication/Tests.antt =====
-- A shadow file of two users, of which the second has no password.
use c_basics.Prelude.{
  ℕ, ◌<◌, ◌≡◌, ◌↔◌, Option, none, some, List, [], ◌∷◌, ◌++◌, arith, ◌==◌, if◌then◌else◌, take,
  length,
}
use c_basics.Authentication.Login.{
  authenticated, exited, faulted, unix_user_auth, unix_user_auth-empty,
}

abbrev stored : List ℕ → Option (List ℕ)
stored (c ∷ []) = if c == 97 then some (36 ∷ 54 ∷ []) else if c == 98 then some [] else none
stored _ = none

abbrev second_user : List ℕ
second_user = 98 ∷ []

unix_user_auth-empty_example :
    (unix_user_auth stored (second_user ++ (10 ∷ 1 ∷ 10 ∷ [])) ≡ authenticated
      ↔ stored (take 99 second_user) ≡ some [])
    × (unix_user_auth stored (second_user ++ (10 ∷ 1 ∷ 10 ∷ [])) ≡ exited
        ↔ stored (take 99 second_user) ≡ none)
    × (length second_user < 99 → unix_user_auth stored (second_user ++ (10 ∷ [])) ≡ faulted)
unix_user_auth-empty_example =
    unix_user_auth-empty stored second_user (1 ∷ 10 ∷ []) (ground arith) (omega arith)
