-- ===== src/SelectServer/Text.antt =====
-- C strings in fixed memory, as UnixStreamTelnetServerWithSelect.c uses them, over bytes.
use c_basics.Prelude.{
  ℕ, zero, suc, ◌+◌, ◌/◌, ◌%◌, Option, none, some, List, [], ◌∷◌, ◌++◌, ltb, ◌==◌, if◌then◌else◌,
  ◌>>=◌,
}

-- Bytes written from the start of a piece of memory; `none` is a write past its end.
unfoldable pub store : List ℕ → List ℕ → Option (List ℕ)
store memory [] = some memory
store [] (b ∷ bytes) = none
store (m ∷ memory) (b ∷ bytes) = do rest ← store memory bytes; some (b ∷ rest)

-- The string that begins a piece of memory; `none` where no NUL ends it.
unfoldable pub c_string : List ℕ → Option (List ℕ)
c_string [] = none
c_string (m ∷ memory) =
    let rest = c_string memory in if m == 0 then some [] else (rest >>= λ text. some (m ∷ text))

-- The digits of `%d` for descriptors, which have at most four.
unfoldable pub decimal : ℕ → List ℕ
decimal n =
    if ltb n 10
    then (48 + n) ∷ []
    else if ltb n 100
    then (48 + n / 10) ∷ (48 + n % 10) ∷ []
    else if ltb n 1000
    then (48 + n / 100) ∷ (48 + n / 10 % 10) ∷ (48 + n % 10) ∷ []
    else (48 + n / 1000) ∷ (48 + n / 100 % 10) ∷ (48 + n / 10 % 10) ∷ (48 + n % 10) ∷ []

-- "User ".
abbrev pub user : List ℕ
user = 85 ∷ 115 ∷ 101 ∷ 114 ∷ 32 ∷ []

-- " joined\n" and " left\n".
abbrev pub joined_text : List ℕ
joined_text = 32 ∷ 106 ∷ 111 ∷ 105 ∷ 110 ∷ 101 ∷ 100 ∷ 10 ∷ []

abbrev pub left_text : List ℕ
left_text = 32 ∷ 108 ∷ 101 ∷ 102 ∷ 116 ∷ 10 ∷ []

abbrev pub zeros : ℕ → List ℕ
zeros zero = []
zeros (suc n) = 0 ∷ zeros n

-- sprintf(3): the text and its NUL.
unfoldable pub sprintf : List ℕ → List ℕ → Option (List ℕ)
unfolding store
sprintf memory text = store memory (text ++ (0 ∷ []))
