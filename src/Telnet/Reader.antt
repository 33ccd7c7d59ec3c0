-- ===== src/Telnet/Reader.antt =====
-- `thread_read` of UnixTelnetClient.c: what arrives is printed.
use c_basics.Prelude.{
  ℕ, zero, suc, ◌+◌, ◌-◌, ◌<◌, ◌≡◌, refl, sym, ap, ◌∙◌, Option, none, some, List, [], ◌∷◌, ◌++◌,
  map, arith, ltb, if◌then◌else◌, length, set, ◌>>=◌, append_assoc, append-nil, length-append,
}
use c_basics.Kernel.{Recv, failed, got}
use c_basics.SelectServer.Text.{store, c_string, zeros}
use c_basics.SelectServer.Memory.{NulFree, store-zeros, c_string-text, length-zeros}

abbrev pub max_bytes : ℕ
max_bytes = 2048

-- What has been printed when the answers of recv(2) end; when the program exits after -1; when it
-- exits after a hang-up; and when a write or a read leaves the buffer.
pub data Reader : Type 0 where
  reading : List ℕ → Reader
  exited : List ℕ → Reader
  disconnected : List ℕ → Reader
  faulted : List ℕ → Reader

-- `buf[i] = '\0'`; `none` is a write past the end.
unfoldable pub put_nul : List ℕ → ℕ → Option (List ℕ)
put_nul buf i = if ltb i (length buf) then some (set buf i 0) else none

-- The text that one message leaves in the cleared buffer of `size` bytes.
unfoldable pub message_text : ℕ → List ℕ → Option (List ℕ)
unfolding put_nul
message_text size bytes = do
  buf ← store (zeros size) bytes
  terminated ← put_nul buf (length bytes)
  c_string terminated

-- The endless loop.
unfoldable pub thread_read : List ℕ → List Recv → Reader
unfolding message_text
thread_read printed [] = reading printed
thread_read printed (failed ∷ answers) = exited printed
thread_read printed (got [] ∷ answers) = disconnected printed
thread_read printed (got (b ∷ bs) ∷ answers) = elim (message_text max_bytes (b ∷ bs)) [
  | none ↦ faulted printed
  | some text ↦ thread_read (printed ++ text) answers
]

set-nul :
    (text : List ℕ) (k : ℕ) → set (text ++ zeros (suc k)) (length text) 0 ≡ text ++ zeros (suc k)
set-nul [] k = refl
set-nul (b ∷ text) k = ap (λ xs. b ∷ xs) (set-nul text k)

put_nul-zeros :
    (bytes : List ℕ) (k : ℕ)
    → put_nul (bytes ++ zeros (suc k)) (length bytes) ≡ some (bytes ++ zeros (suc k))
unfolding put_nul
put_nul-zeros bytes k =
    ground (arith, set-nul bytes k, length-append bytes (zeros (suc k)), length-zeros (suc k))

zeros-append : (d k : ℕ) → zeros d ++ zeros (suc k) ≡ zeros (suc (d + k))
zeros-append zero k = ap (λ n. zeros (suc n)) (omega arith)
zeros-append (suc d) k =
    let more : suc (d + k) ≡ suc d + k = omega arith in
    ap (λ xs. 0 ∷ xs) (zeros-append d k) ∙ ap (λ n. zeros (suc n)) more

-- A text, and any NULs behind it, in a buffer with room for one byte more.
pub message_text-text :
    (text : List ℕ) (d size : ℕ)
    → NulFree text
    → length text + d < size
    → message_text size (text ++ zeros d) ≡ some text
unfolding message_text
message_text-text text d size free short =
    let bytes = text ++ zeros d in
    let long : length bytes ≡ length text + d =
      omega (arith, length-append text (zeros d), length-zeros d) in
    let k = size - length bytes - 1 in
    ap (λ o. o >>= (λ buf. put_nul buf (length bytes) >>= c_string))
      (store-zeros [] bytes size (suc k) (omega arith) (omega (arith, long, short)))
    ∙ ap (λ o. o >>= c_string) (put_nul-zeros bytes k)
    ∙ ap c_string
        (append_assoc text (zeros d) (zeros (suc k)) ∙ ap (λ xs. text ++ xs) (zeros-append d k))
    ∙ c_string-text text (d + k) free

-- A message that fills the buffer.
pub message_text-full :
    (bytes : List ℕ) (size : ℕ) → length bytes ≡ size → message_text size bytes ≡ none
unfolding message_text put_nul
message_text-full bytes size full =
    let outside : put_nul (bytes ++ zeros 0) (length bytes) ≡ none =
      ground (arith, length-append bytes []) in
    ap (λ o. o >>= (λ buf. put_nul buf (length bytes) >>= c_string))
      (store-zeros [] bytes size 0 (omega arith) (omega (arith, full)))
    ∙ ap (λ o. o >>= c_string) outside

-- Short messages of text: not empty, without NUL, and below 2048 bytes.
abbrev pub AreTexts : List (List ℕ) → Type 0
AreTexts [] = Unit
AreTexts (m ∷ ms) = (0 < length m) × NulFree m × (length m < max_bytes) × AreTexts ms

abbrev pub concat : List (List ℕ) → List ℕ
concat [] = []
concat (m ∷ ms) = m ++ concat ms

pub thread_read-got :
    (printed text bytes : List ℕ) (answers : List Recv)
    → 0 < length bytes
    → message_text max_bytes bytes ≡ some text
    → thread_read printed (got bytes ∷ answers) ≡ thread_read (printed ++ text) answers
unfolding thread_read
thread_read-got printed text [] answers some_bytes e = absurd (omega arith)
thread_read-got printed text (b ∷ bs) answers some_bytes e = rw (e, thread_read) refl

thread_read-texts :
    (printed : List ℕ) (ms : List (List ℕ)) (answers : List Recv)
    → AreTexts ms
    → thread_read printed (map got ms ++ answers) ≡ thread_read (printed ++ concat ms) answers
thread_read-texts printed [] answers h = ap (λ p. thread_read p answers) (sym (append-nil printed))
thread_read-texts printed (m ∷ ms) answers h =
    thread_read-got printed m m (map got ms ++ answers) h.0 (
      ap (message_text max_bytes) (sym (append-nil m))
      ∙ message_text-text m 0 max_bytes h.1 (omega (arith, h.2)))
    ∙ thread_read-texts (printed ++ m) ms answers h.3
    ∙ ap (λ p. thread_read p answers) (append_assoc printed m (concat ms))

thread_read-full :
    (printed bytes : List ℕ) (answers : List Recv)
    → length bytes ≡ max_bytes
    → thread_read printed (got bytes ∷ answers) ≡ faulted printed
unfolding thread_read
thread_read-full printed [] answers long = absurd (omega (arith, long))
thread_read-full printed (b ∷ bs) answers long =
    rw (message_text-full (b ∷ bs) max_bytes long, thread_read) refl

-- After short messages of text the reader has printed just these, one after the other, and a
-- hang-up then ends the program; but a message that fills the buffer makes it write one byte past
-- it.
pub thread_read-prints :
    (ms : List (List ℕ)) (full : List ℕ) (answers : List Recv)
    → AreTexts ms
    → length full ≡ max_bytes
    → (thread_read [] (map got ms ++ (got [] ∷ answers)) ≡ disconnected (concat ms))
      × (thread_read [] (map got ms ++ (got full ∷ answers)) ≡ faulted (concat ms))
unfolding thread_read
thread_read-prints ms full answers h long = (
  thread_read-texts [] ms (got [] ∷ answers) h,
  thread_read-texts [] ms (got full ∷ answers) h ∙ thread_read-full (concat ms) full answers long,
)
