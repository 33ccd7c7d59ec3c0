-- ===== src/SelectServer/Greetings.antt =====
-- What the other users read when a user joins or leaves.
use c_basics.Prelude.{
  bind-some, ℕ, suc, ◌+◌, ◌-◌, ◌≤◌, ◌<◌, ◌≡◌, refl, ap, ◌∙◌, true, false, none, some, List, [], ◌∷◌,
  ◌++◌, arith, ltb, if◌then◌else◌, length, length-append,
}
use c_basics.SelectServer.Text.{c_string, sprintf, user, decimal, zeros, joined_text, left_text}
use c_basics.SelectServer.Loop.{
  State, to_all, greet, say_goodbye, mark, buffer_size, fd_setsize, closed,
}
use c_basics.SelectServer.Memory.{
  NulFree, NulFree-append, sprintf-zeros, c_string-text, decimal-NulFree,
}
use c_basics.SelectServer.Members.{if-true}

-- "User n" and a text.
abbrev pub notice : ℕ → List ℕ → List ℕ
notice n text = user ++ (decimal n ++ text)

notice-NulFree : (n : ℕ) (text : List ℕ) → NulFree text → NulFree (notice n text)
notice-NulFree n text free =
    NulFree-append user (decimal n ++ text) (ground arith)
      (NulFree-append (decimal n) text (decimal-NulFree n) free)

length-decimal_four : (n : ℕ) → length (decimal n) ≤ 4
unfolding decimal
length-decimal_four n = ground arith

length-notice : (n : ℕ) (text : List ℕ) → length text ≤ 8 → length (notice n text) ≤ 17
length-notice n text short = omega (arith, length-append (decimal n) text, length-decimal_four n)

-- The state after a join.
abbrev pub with_user : State → ℕ → List ℕ → State
with_user s new_fd message = record s {
  master = mark s.master new_fd true;
  fd_max = if ltb s.fd_max new_fd then new_fd else s.fd_max;
  server_message = message;
}

abbrev pub without_user : State → ℕ → List ℕ → State
without_user s i message = record s { master = mark s.master i false; server_message = message }

pub greet-joined :
    (listener : ℕ) (s : State) (new_fd : ℕ)
    → s.server_message ≡ zeros buffer_size
    → new_fd < fd_setsize
    → (r : ℕ) × (length (notice new_fd joined_text) + suc r ≡ buffer_size)
      × (greet listener s new_fd
          ≡ some (
            with_user s new_fd (notice new_fd joined_text ++ zeros (suc r)),
            to_all
                (with_user s new_fd (notice new_fd joined_text ++ zeros (suc r)))
                listener
                new_fd
                (notice new_fd joined_text ++ zeros (suc r)),
          ))
unfolding greet
greet-joined listener s new_fd memory small =
    let text = notice new_fd joined_text in
    let r = 1023 - length text in
    let short = length-notice new_fd joined_text (omega arith) in
    (
      r,
      omega arith,
      if-true {b = ltb new_fd fd_setsize} _ none (ground arith)
          ∙ bind-some (sprintf s.server_message text) (text ++ zeros (suc r)) _ _
              (ap (λ x. sprintf x text) memory
                ∙ sprintf-zeros [] text 1024 r (omega arith) (omega arith))
              refl,
    )

pub say_goodbye-left :
    (listener : ℕ) (s : State) (i : ℕ)
    → s.server_message ≡ zeros buffer_size
    → (r : ℕ) × (length (notice i left_text) + suc r ≡ buffer_size)
      × (say_goodbye listener s i
          ≡ some (
            without_user s i (notice i left_text ++ zeros (suc r)),
            to_all s listener i (notice i left_text) ++ (closed i ∷ []),
          ))
unfolding say_goodbye
say_goodbye-left listener s i memory =
    let text = notice i left_text in
    let r = 1023 - length text in
    let short = length-notice i left_text (omega arith) in
    (
      r,
      omega arith,
      bind-some (sprintf s.server_message text) (text ++ zeros (suc r)) _ _
          (ap (λ x. sprintf x text) memory
            ∙ sprintf-zeros [] text 1024 r (omega arith) (omega arith))
          (bind-some (c_string (text ++ zeros (suc r))) text _ _
            (c_string-text text r (notice-NulFree i left_text (ground arith))) refl),
    )
