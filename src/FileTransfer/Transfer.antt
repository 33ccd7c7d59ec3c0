-- ===== src/FileTransfer/Transfer.antt =====
-- A file that the client sends arrives whole, however TCP cuts the stream.
use c_basics.Prelude.{
  ℕ, zero, suc, ◌+◌, ◌<◌, ◌≡◌, ◌⊎◌, inl, inr, refl, sym, ap, ap₂, ◌∙◌, true, false, Option, none,
  some, List, [], ◌∷◌, ◌++◌, arith, ◌==◌, length, take, drop, Option-cases, append_assoc,
  append-nil,
}
use c_basics.Prelude.{take-append-drop}
use c_basics.Kernel.{Recv, got}
use c_basics.FileTransfer.Send.{
  buffsize, Sent, send_failed, no_fuel, finished, send_loop, send_file,
}
use c_basics.FileTransfer.Receive.{done, receive_loop, handle_file_transfer}

-- send(2) takes every chunk whole.
abbrev pub TakesAll : (ℕ → List ℕ → Option ℕ) → Type 0
TakesAll send = (k : ℕ) (chunk : List ℕ) → send k chunk ≡ some (length chunk)

take-length : (xs : List ℕ) → take (length xs) xs ≡ xs
take-length [] = refl
take-length (x ∷ xs) = ap (λ l. x ∷ l) (take-length xs)

length-take-drop : (n : ℕ) (xs : List ℕ) → length (take n xs) + length (drop n xs) ≡ length xs
length-take-drop zero xs = omega arith
length-take-drop (suc n) [] = omega arith
length-take-drop (suc n) (x ∷ xs) = omega (arith, length-take-drop n xs)

take-empty : (n : ℕ) (xs : List ℕ) → length (take (suc n) xs) ≡ 0 → xs ≡ []
take-empty n [] h = refl
take-empty n (x ∷ xs) h = absurd (omega arith)

module _ (send : ℕ → List ℕ → Option ℕ) (st_size : ℕ) where
  -- At the end of the file, and one round before it.
  send_loop-end :
      (fuel k byte_total : ℕ) (out : List ℕ)
      → send_loop send st_size (suc fuel) k [] byte_total out ≡ finished out byte_total
  unfolding send_loop
  send_loop-end fuel k byte_total out = refl

  send_loop-step :
      (fuel k byte_total n x : ℕ) (xs out : List ℕ)
      → byte_total < st_size
      → send k (take buffsize (x ∷ xs)) ≡ some n
      → send_loop send st_size (suc fuel) k (x ∷ xs) byte_total out
        ≡ send_loop send st_size fuel
            (suc k)
            (drop buffsize (x ∷ xs))
            (byte_total + length (take buffsize (x ∷ xs)))
            (out ++ take n (take buffsize (x ∷ xs)))
  unfolding send_loop
  send_loop-step fuel k byte_total n x xs out h e =
      let more : (byte_total == st_size) ≡ false = ground arith in
      let some_read : (length (take buffsize (x ∷ xs)) == 0) ≡ false = ground arith in
      rw (some_read, more, e) refl

  send_loop-failed :
      (fuel k byte_total x : ℕ) (xs out : List ℕ)
      → byte_total < st_size
      → send k (take buffsize (x ∷ xs)) ≡ none
      → send_loop send st_size (suc fuel) k (x ∷ xs) byte_total out ≡ send_failed
  unfolding send_loop
  send_loop-failed fuel k byte_total x xs out h e =
      let more : (byte_total == st_size) ≡ false = ground arith in
      let some_read : (length (take buffsize (x ∷ xs)) == 0) ≡ false = ground arith in
      rw (some_read, more, e) refl

  shorter :
      (fuel byte_total x : ℕ) (xs : List ℕ)
      → byte_total + length (x ∷ xs) ≡ st_size
      → length (x ∷ xs) < suc fuel
      → (byte_total + length (take buffsize (x ∷ xs)) + length (drop buffsize (x ∷ xs)) ≡ st_size)
        × (length (drop buffsize (x ∷ xs)) < fuel)
  shorter fuel byte_total x xs sum h = omega (arith, length-take-drop buffsize (x ∷ xs))

  send_loop-finished :
      (fuel k : ℕ) (file out : List ℕ) (byte_total : ℕ)
      → TakesAll send
      → byte_total + length file ≡ st_size
      → length file < fuel
      → send_loop send st_size fuel k file byte_total out ≡ finished (out ++ file) st_size
  send_loop-finished zero k file out byte_total all sum h = absurd (omega arith)
  send_loop-finished (suc fuel) k [] out byte_total all sum h =
      send_loop-end fuel k byte_total out ∙ ap₂ finished (sym (append-nil out)) (omega arith)
  send_loop-finished (suc fuel) k (x ∷ xs) out byte_total all sum h =
      let chunk = take buffsize (x ∷ xs) in
      let (sum', h') = shorter fuel byte_total x xs sum h in
      send_loop-step fuel k byte_total (length chunk) x xs out (omega arith) (all k chunk)
      ∙ send_loop-finished fuel (suc k) (drop buffsize (x ∷ xs)) (out ++ take (length chunk) chunk)
          (byte_total + length chunk) all sum' h'
      ∙ ap (λ l. finished l st_size) (rejoin chunk)
    where
      rejoin :
          (chunk : List ℕ)
          → (out ++ take (length (take buffsize (x ∷ xs))) (take buffsize (x ∷ xs)))
              ++ drop buffsize (x ∷ xs)
            ≡ out ++ (x ∷ xs)
      rejoin chunk = rw (take-length (take buffsize (x ∷ xs))) (
          append_assoc out (take buffsize (x ∷ xs)) (drop buffsize (x ∷ xs))
          ∙ ap (λ l. out ++ l) (take-append-drop buffsize (x ∷ xs)))

  -- Whatever send(2) takes, the loop ends with an error or reports the whole size.
  Reports : Sent → Type 0
  Reports send_failed = Unit
  Reports no_fuel = ⊥
  Reports (finished out total) = total ≡ st_size

  send_loop-Reports :
      (fuel k : ℕ) (file out : List ℕ) (byte_total : ℕ)
      → byte_total + length file ≡ st_size
      → length file < fuel
      → Reports (send_loop send st_size fuel k file byte_total out)
  unfolding Reports
  send_loop-Reports zero k file out byte_total sum h = absurd (omega arith)
  send_loop-Reports (suc fuel) k [] out byte_total sum h =
      rw (send_loop-end fuel k byte_total out) (omega arith)
  send_loop-Reports (suc fuel) k (x ∷ xs) out byte_total sum h =
      elim (Option-cases (send k (take buffsize (x ∷ xs)))) [
        | inl e ↦ rw (send_loop-failed fuel k byte_total x xs out (omega arith) e) tt
        | inr (n, e) ↦
            let (sum', h') = shorter fuel byte_total x xs sum h in
            rw (send_loop-step fuel k byte_total n x xs out (omega arith) e) (
              send_loop-Reports fuel (suc k) (drop buffsize (x ∷ xs))
                (out ++ take n (take buffsize (x ∷ xs)))
                (byte_total + length (take buffsize (x ∷ xs))) sum' h')
      ]

-- The pieces in which recv(2) hands a stream over: none is empty.
abbrev pub Pieces : List (List ℕ) → Type 0
Pieces [] = Unit
Pieces (p ∷ ps) = (0 < length p) × Pieces ps

abbrev pub join : List (List ℕ) → List ℕ
join [] = []
join (p ∷ ps) = p ++ join ps

abbrev pub hand_over : List (List ℕ) → List Recv
hand_over [] = got [] ∷ []
hand_over (p ∷ ps) = got p ∷ hand_over ps

receive_loop-done :
    (ps : List (List ℕ)) (file : List ℕ)
    → Pieces ps
    → receive_loop length file (hand_over ps) ≡ done (file ++ join ps)
unfolding receive_loop
receive_loop-done [] file h = ap done (sym (append-nil file))
receive_loop-done ([] ∷ ps) file h = absurd (omega arith)
receive_loop-done ((b ∷ bs) ∷ ps) file h =
    ap (λ l. receive_loop length (file ++ l) (hand_over ps)) (take-length (b ∷ bs))
    ∙ receive_loop-done ps (file ++ (b ∷ bs)) h.1
    ∙ ap done (append_assoc file (b ∷ bs) (join ps))

-- Where send(2) takes every chunk whole and fwrite(3) stores all that it is given, the client puts
-- the file on the wire and reports its size, and the server, once the client has hung up, has
-- stored the same file, for every file and every way in which the stream is cut into pieces.
pub transfer_whole :
    (send : ℕ → List ℕ → Option ℕ) (file : List ℕ) (ps : List (List ℕ))
    → TakesAll send
    → Pieces ps
    → join ps ≡ file
    → (send_file send file ≡ finished file (length file))
      × (handle_file_transfer true length (hand_over ps) ≡ done file)
unfolding send_file handle_file_transfer
transfer_whole send file ps all h e = (
  send_loop-finished send (length file) (suc (length file)) 0 file [] 0 all (omega arith)
      (omega arith),
  receive_loop-done ps [] h ∙ ap done e,
)

-- However few bytes send(2) takes of each chunk, the client ends with the error of send(2) or
-- reports as many bytes as the file has, so a short send goes unnoticed.
pub send_file-Reports :
    (send : ℕ → List ℕ → Option ℕ) (file : List ℕ)
    → (send_file send file ≡ send_failed)
      ⊎ ((out : List ℕ) × (send_file send file ≡ finished out (length file)))
unfolding send_file Reports
send_file-Reports send file = go (send_loop send (length file) (suc (length file)) 0 file 0 []) (
    send_loop-Reports send (length file) (suc (length file)) 0 file [] 0 (omega arith)
      (omega arith))
  where
    go :
        (s : Sent)
        → Reports send (length file) s
        → (s ≡ send_failed) ⊎ ((out : List ℕ) × (s ≡ finished out (length file)))
    go send_failed r = inl refl
    go no_fuel r = absurd r
    go (finished out total) r = inr (out, ap (finished out) r)
