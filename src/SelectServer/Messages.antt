-- ===== src/SelectServer/Messages.antt =====
-- What the other users read when one user writes.
use c_basics.Prelude.{
  bind-some, ℕ, suc, ◌+◌, ◌-◌, ◌%◌, ◌^◌, ◌≤◌, ◌<◌, ◌≡◌, refl, ap, ◌∙◌, some, List, [], ◌∷◌, ◌++◌,
  arith, length, take, length-append,
}
use c_basics.Kernel.{failed, got}
use c_basics.SelectServer.Text.{c_string, sprintf, store, user, decimal, zeros}
use c_basics.SelectServer.Loop.{State, to_all, first_bytes, pass_on, serve_client, buffer_size}
use c_basics.SelectServer.Memory.{
  NulFree, NulFree-append, store-zeros, sprintf-zeros, c_string-text, take-text, length-zeros,
  decimal-NulFree, length-decimal,
}

-- "User i:".
abbrev pub label : ℕ → List ℕ
label i = user ++ (decimal i ++ (58 ∷ []))

-- "User i: " and the bytes.
abbrev pub line : ℕ → List ℕ → List ℕ
line i bytes = label i ++ (32 ∷ bytes)

label-NulFree : (i : ℕ) → NulFree (label i)
label-NulFree i =
    NulFree-append user (decimal i ++ (58 ∷ [])) (ground arith)
      (NulFree-append (decimal i) (58 ∷ []) (decimal-NulFree i) (ground arith))

pub line-NulFree : (i : ℕ) (bytes : List ℕ) → NulFree bytes → NulFree (line i bytes)
line-NulFree i bytes h =
    NulFree-append (label i) (32 ∷ bytes) (label-NulFree i) ((λ e. absurd (omega (arith, e))), h)

length-label : (i : ℕ) → length (label i) ≡ 6 + length (decimal i)
length-label i = omega (arith, length-append (decimal i) (58 ∷ []))

length-line :
    (i : ℕ) (bytes : List ℕ) → length (line i bytes) ≡ 7 + length (decimal i) + length bytes
length-line i bytes = omega (arith, length-label i, length-append (label i) (32 ∷ bytes))

first_bytes-text :
    (text : List ℕ) (n m k z : ℕ)
    → n ≡ length text + m
    → k ≡ m + z
    → first_bytes n (text ++ zeros k) ≡ some (text ++ zeros m)
unfolding first_bytes
first_bytes-text text n m k z h g =
    ground (arith, take-text text n m k z h g, length-append text (zeros k), length-zeros k)

-- With the bytes in a buffer that ends in zeros, and `n` as the length that recv(2) answered.
pass_on-line :
    (listener : ℕ) (s : State) (i n : ℕ) (bytes out : List ℕ) (z r : ℕ)
    → s.buffer ≡ bytes ++ zeros (suc z)
    → NulFree bytes
    → length (decimal i) ≤ 3
    → length bytes + z ≡ 1023
    → length (line i bytes) + suc r ≡ 1024
    → first_bytes ((n + 10) % 2 ^ 64) (line i bytes ++ zeros (suc r)) ≡ some out
    → pass_on listener s i n
      ≡ some (
        record s { buffer = line i bytes ++ zeros (suc r) },
        to_all (record s { buffer = line i bytes ++ zeros (suc r) }) listener i out,
      )
unfolding pass_on
pass_on-line listener s i n bytes out z r memory free digits size long cut =
    let d = 3 - length (decimal i) in
    bind-some (c_string s.buffer) bytes _ _ (ap c_string memory ∙ c_string-text bytes z free) (
      bind-some (sprintf (zeros 10) (label i)) (label i ++ zeros (suc d)) _ _
        (sprintf-zeros [] (label i) 10 d (omega arith) (omega (arith, length-label i)))
        (bind-some (c_string (label i ++ zeros (suc d))) (label i) _ _
          (c_string-text (label i) d (label-NulFree i))
          (bind-some (sprintf s.buffer (line i bytes)) (line i bytes ++ zeros (suc r)) _ _
            (ap (λ x. sprintf x (line i bytes)) memory
              ∙ sprintf-zeros bytes (line i bytes) (suc z) r (omega (arith, length-line i bytes))
                  (omega arith))
            (bind-some (first_bytes ((n + 10) % 2 ^ 64) (line i bytes ++ zeros (suc r))) out _ _ cut
              refl))))

-- A client's message in a cleared buffer: the others get "User i: ", the bytes, and zeros up to ten
-- bytes more than were received.
pub serve_client-line :
    (listener : ℕ) (s : State) (i : ℕ) (bytes : List ℕ)
    → s.buffer ≡ zeros buffer_size
    → i < 1000
    → NulFree bytes
    → 0 < length bytes
    → length bytes ≤ 1013
    → (r : ℕ) × (d : ℕ) × (length (line i bytes) + suc r ≡ buffer_size)
      × (length (line i bytes) + d ≡ length bytes + 10)
      × (serve_client listener s i (got bytes)
          ≡ some (
            record s { buffer = line i bytes ++ zeros (suc r) },
            to_all
                (record s { buffer = line i bytes ++ zeros (suc r) })
                listener
                i
                (line i bytes ++ zeros d),
          ))
unfolding serve_client
serve_client-line listener s i [] memory small free some_bytes short = absurd (omega arith)
serve_client-line listener s i (b ∷ bs) memory small free some_bytes short =
    let r = 1023 - length (line i (b ∷ bs)) in
    let d = 3 - length (decimal i) in
    let z = 1023 - length (b ∷ bs) in
    let (digits_low, digits_high) = length-decimal i small in
    let long = length-line i (b ∷ bs) in
    (
      r,
      d,
      omega arith,
      omega arith,
      bind-some (store s.buffer (b ∷ bs)) ((b ∷ bs) ++ zeros (suc z)) _ _
          (ap (λ x. store x (b ∷ bs)) memory
            ∙ store-zeros [] (b ∷ bs) 1024 (suc z) (omega arith) (omega arith))
          (pass_on-line listener (record s { buffer = (b ∷ bs) ++ zeros (suc z) }) i _ (b ∷ bs)
            (line i (b ∷ bs) ++ zeros d) z r refl free digits_high (omega arith) (omega arith)
            (first_bytes-text (line i (b ∷ bs)) _ d (suc r) (suc r - d) (omega arith)
              (omega arith))),
    )

-- An error of recv(2) on a cleared buffer: the client stays in the set, nothing is closed, and the
-- others get nine bytes that begin "User i:".
pub serve_client-failed :
    (listener : ℕ) (s : State) (i : ℕ)
    → s.buffer ≡ zeros buffer_size
    → i < 1000
    → (r : ℕ) × (length (line i []) + suc r ≡ buffer_size)
      × (serve_client listener s i failed
          ≡ some (
            record s { buffer = line i [] ++ zeros (suc r) },
            to_all
                (record s { buffer = line i [] ++ zeros (suc r) })
                listener
                i
                (take 9 (line i [] ++ zeros (suc r))),
          ))
unfolding serve_client first_bytes
serve_client-failed listener s i memory small =
    let r = 1023 - length (line i []) in
    let (digits_low, digits_high) = length-decimal i small in
    let long = length-line i [] in
    let nine = length-append (line i []) (zeros (suc r)) in
    (
      r,
      omega arith,
      pass_on-line listener s i (2 ^ 64 - 1) [] (take 9 (line i [] ++ zeros (suc r))) 1023 r memory
          tt digits_high (omega arith) (omega arith) (ground (arith, length-zeros (suc r))),
    )
