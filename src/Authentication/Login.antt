-- ===== src/Authentication/Login.antt =====
-- UnixUserAuthentication.c, over the bytes of the standard input. getspnam(3) is an argument.
use c_basics.Prelude.{
  ℕ, zero, suc, ◌<◌, ◌≡◌, ◌≢◌, ◌↔◌, refl, ap, Option, none, some, List, [], ◌∷◌, ◌++◌, arith, ◌==◌,
  ◌||◌, if◌then◌else◌, subst, sym, take, length,
}

-- How a login ends; `faulted` is a read of a buffer that fgets(3) has left without a value.
pub data Outcome : Type 0 where
  exited : Outcome
  authenticated : Outcome
  refused : Outcome
  faulted : Outcome

-- `authenticate_user`. The call of crypt(3) is commented out in the code: the encrypted password is
-- "".
unfoldable pub authenticate_user : (List ℕ → Option (List ℕ)) → List ℕ → List ℕ → Outcome
authenticate_user getspnam username password = elim (getspnam username) [
  | none ↦ exited
  | some [] ↦ authenticated
  | some (b ∷ bs) ↦ refused
]

-- `s[strcspn(s, "\n")] = '\0'`: what stands before the first newline or NUL.
unfoldable pub cut_line : List ℕ → List ℕ
cut_line [] = []
cut_line (b ∷ bs) = let rest = cut_line bs in if (b == 10) || (b == 0) then [] else b ∷ rest

-- What fgets(3) takes of the input for a buffer with room for `n` bytes and a NUL, up to and with a
-- newline, and what it leaves.
unfoldable pub fgets : ℕ → List ℕ → List ℕ × List ℕ
fgets zero input = ([], input)
fgets (suc n) [] = ([], [])
fgets (suc n) (b ∷ bs) =
    let (line, rest) = fgets n bs in if b == 10 then (b ∷ [], bs) else (b ∷ line, rest)

-- A call of `fgets` with a buffer of 100 bytes, and the cut. At the end of the input nothing is
-- stored, which is not tested for, and the cut reads what was never written.
unfoldable pub next_line : List ℕ → Option (List ℕ × List ℕ)
unfolding cut_line fgets
next_line [] = none
next_line (b ∷ bs) = let (line, rest) = fgets 99 (b ∷ bs) in some (cut_line line, rest)

-- `unixUserAuth`, with all that the standard input holds.
unfoldable pub unix_user_auth : (List ℕ → Option (List ℕ)) → List ℕ → Outcome
unfolding authenticate_user next_line
unix_user_auth getspnam input = elim (next_line input) [
  | none ↦ faulted
  | some (username, rest) ↦ elim (next_line rest) [
    | none ↦ faulted
    | some (password, more) ↦ authenticate_user getspnam username password
  ]
]

-- Neither a newline nor NUL.
abbrev pub IsName : List ℕ → Type 0
IsName [] = Unit
IsName (b ∷ bs) = (b ≢ 10) × (b ≢ 0) × IsName bs

-- The buffer holds what fits of the name.
cut_line-fgets :
    (n : ℕ) (name rest : List ℕ)
    → IsName name
    → cut_line ((fgets n (name ++ (10 ∷ rest))).0) ≡ take n name
unfolding cut_line fgets
cut_line-fgets zero [] rest h = refl
cut_line-fgets zero (b ∷ name) rest h = refl
cut_line-fgets (suc n) [] rest h = refl
cut_line-fgets (suc n) (b ∷ name) rest h = ground (arith, cut_line-fgets n name rest h.2)

-- The second call has input left where the first line is followed by any.
fgets-leaves :
    (n : ℕ) (name rest : List ℕ)
    → IsName name
    → 0 < length rest
    → 0 < length ((fgets n (name ++ (10 ∷ rest))).1)
unfolding fgets
fgets-leaves zero [] rest h more = omega arith
fgets-leaves zero (b ∷ name) rest h more = omega arith
fgets-leaves (suc n) [] rest h more = more
fgets-leaves (suc n) (b ∷ name) rest h more = ground (arith, fgets-leaves n name rest h.2 more)

fgets-all :
    (n : ℕ) (name : List ℕ) → IsName name → length name < n → (fgets n (name ++ (10 ∷ []))).1 ≡ []
unfolding fgets
fgets-all zero name h short = absurd (omega (arith, short))
fgets-all (suc n) [] h short = refl
fgets-all (suc n) (b ∷ name) h short = ground (arith, fgets-all n name h.2 (omega (arith, short)))

next_line-typed :
    (name rest : List ℕ)
    → IsName name
    → next_line (name ++ (10 ∷ rest)) ≡ some (take 99 name, (fgets 99 (name ++ (10 ∷ rest))).1)
unfolding next_line
next_line-typed [] rest h =
    ap (λ l. some (l, (fgets 99 (10 ∷ rest)).1)) (cut_line-fgets 99 [] rest h)
next_line-typed (b ∷ name) rest h =
    ap (λ l. some (l, (fgets 99 (b ∷ (name ++ (10 ∷ rest)))).1))
      (cut_line-fgets 99 (b ∷ name) rest h)

next_line-more :
    (input : List ℕ)
    → 0 < length input
    → (line rest : List ℕ) × (next_line input ≡ some (line, rest))
unfolding next_line
next_line-more [] h = absurd (omega (arith, h))
next_line-more (b ∷ bs) h = (cut_line ((fgets 99 (b ∷ bs)).0), (fgets 99 (b ∷ bs)).1, refl)

authenticate_user-found :
    (getspnam : List ℕ → Option (List ℕ)) (username password : List ℕ)
    → (authenticate_user getspnam username password ≡ authenticated ↔ getspnam username ≡ some [])
      × (authenticate_user getspnam username password ≡ exited ↔ getspnam username ≡ none)
unfolding authenticate_user
authenticate_user-found getspnam username password = ground arith

-- Two lines reach `authenticate_user`.
lines-reach :
    (getspnam : List ℕ → Option (List ℕ)) (name rest : List ℕ)
    → IsName name
    → 0 < length rest
    → (password : List ℕ) × (unix_user_auth getspnam (name ++ (10 ∷ rest))
        ≡ authenticate_user getspnam (take 99 name) password)
unfolding unix_user_auth
lines-reach getspnam name rest h more =
    let (password, left, second) =
      next_line-more ((fgets 99 (name ++ (10 ∷ rest))).1) (fgets-leaves 99 name rest h more) in
    (password, rw (next_line-typed name rest h, second, unix_user_auth) refl)

line-missing :
    (getspnam : List ℕ → Option (List ℕ)) (name : List ℕ)
    → IsName name
    → length name < 99
    → unix_user_auth getspnam (name ++ (10 ∷ [])) ≡ faulted
unfolding unix_user_auth next_line
line-missing getspnam name h short =
    rw (next_line-typed name [] h, fgets-all 99 name h short, unix_user_auth) refl

-- A name without a newline and NUL is typed, and then a newline. Of the name only the first 99
-- bytes are looked up. Where more input follows, whatever it holds, the user is authenticated
-- exactly if the password stored for these bytes is empty, and the program exits exactly if there
-- is none stored. Where nothing follows a name of less than 99 bytes, the program reads a buffer
-- that has no value.
pub unix_user_auth-empty :
    (getspnam : List ℕ → Option (List ℕ)) (name rest : List ℕ)
    → IsName name
    → 0 < length rest
    → (unix_user_auth getspnam (name ++ (10 ∷ rest)) ≡ authenticated
        ↔ getspnam (take 99 name) ≡ some [])
      × (unix_user_auth getspnam (name ++ (10 ∷ rest)) ≡ exited ↔ getspnam (take 99 name) ≡ none)
      × (length name < 99 → unix_user_auth getspnam (name ++ (10 ∷ [])) ≡ faulted)
unix_user_auth-empty getspnam name rest h more =
    let (password, e) = lines-reach getspnam name rest h more in
    let (found, missing) = authenticate_user-found getspnam (take 99 name) password in
    (
      subst (λ o. (o ≡ authenticated ↔ getspnam (take 99 name) ≡ some [])) (sym e) found,
      subst (λ o. (o ≡ exited ↔ getspnam (take 99 name) ≡ none)) (sym e) missing,
      line-missing getspnam name h,
    )
