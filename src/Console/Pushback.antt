-- ===== src/Console/Pushback.antt =====
-- `putCharAndUnget` of Putchar&Ungetc.c.
use c_basics.Prelude.{
  ℕ, ◌≡◌, ◌≢◌, ◌≤◌, refl, sym, ap, ◌∙◌, List, [], ◌∷◌, ◌++◌, arith, ltb, ◌==◌, if◌then◌else◌,
  length,
}

-- Standard input: what ungetc(3) has put back, the last first, and what is still to be read.
pub record Stream : Type 0 where
  pub pushed : List ℕ
  pub rest : List ℕ

-- ungetc(3) with memory for `room` characters; where there is none left it answers EOF, which is
-- not tested. C promises room for one.
unfoldable pub ungetc : ℕ → ℕ → Stream → Stream
ungetc room c s = if ltb (length s.pushed) room then record s { pushed = c ∷ s.pushed } else s

-- What getchar(3) gives one after the other before its end of file.
abbrev pub characters : Stream → List ℕ
characters s = s.pushed ++ s.rest

-- `while ((c = getchar()) != EOF) putchar(c);`: `c` is a char of eight bits with a sign, so that
-- the byte 255 equals EOF.
unfoldable pub copy : List ℕ → List ℕ
copy [] = []
copy (b ∷ bytes) = let more = copy bytes in if b == 255 then [] else b ∷ more

-- "Hello" and a new line.
abbrev pub hello : List ℕ
hello = b'H' ∷ b'e' ∷ b'l' ∷ b'l' ∷ b'o' ∷ b'\n' ∷ []

-- What is printed: `now` is the line that printf(3) prints.
unfoldable pub put_char_and_unget : ℕ → List ℕ → List ℕ → List ℕ
unfolding ungetc copy
put_char_and_unget room now input =
    let s : Stream = record { pushed = []; rest = input } in
    let s' = ungetc room b'3' (ungetc room b'2' (ungetc room b'1' s)) in
    hello ++ (now ++ copy (characters s'))

abbrev pub IsPlain : List ℕ → Type 0
IsPlain [] = Unit
IsPlain (b ∷ bytes) = (b ≢ 255) × IsPlain bytes

copy-plain : (bytes rest : List ℕ) → IsPlain bytes → copy (bytes ++ (255 ∷ rest)) ≡ bytes
unfolding copy
copy-plain [] rest h = refl
copy-plain (b ∷ bytes) rest h = ground (arith, copy-plain bytes rest h.1, h.0)

copy-all : (bytes : List ℕ) → IsPlain bytes → copy bytes ≡ bytes
unfolding copy
copy-all [] h = refl
copy-all (b ∷ bytes) h = ground (arith, copy-all bytes h.1, h.0)

-- The three characters put back, the last first.
push_three :
    (room : ℕ) (input : List ℕ)
    → 3 ≤ room
    → characters (
        ungetc room b'3'
          (ungetc room b'2' (ungetc room b'1' (record { pushed = []; rest = input }))))
      ≡ b'3' ∷ b'2' ∷ b'1' ∷ input
unfolding ungetc
push_three room input enough = ground arith

-- With room for three characters, the three that were put back are printed in the reverse of their
-- order, and then the whole input if it has no byte 255; where it has one, nothing from there on
-- is. With the room for one that C promises, only the first of the three is printed.
pub put_char_and_unget-prints :
    (room : ℕ) (now input rest : List ℕ)
    → 3 ≤ room
    → IsPlain input
    → (put_char_and_unget room now input ≡ hello ++ (now ++ (b'3' ∷ b'2' ∷ b'1' ∷ input)))
      × (put_char_and_unget room now (input ++ (255 ∷ rest)) ≡ put_char_and_unget room now input)
      × (put_char_and_unget 1 now input ≡ hello ++ (now ++ (b'1' ∷ input)))
unfolding put_char_and_unget
put_char_and_unget-prints room now input rest enough plain =
    let three : copy (b'3' ∷ b'2' ∷ b'1' ∷ input) ≡ b'3' ∷ b'2' ∷ b'1' ∷ input =
      copy-all (b'3' ∷ b'2' ∷ b'1' ∷ input) (omega arith, (omega arith, (omega arith, plain))) in
    let cut : copy (b'3' ∷ b'2' ∷ b'1' ∷ (input ++ (255 ∷ rest))) ≡ b'3' ∷ b'2' ∷ b'1' ∷ input =
      copy-plain (b'3' ∷ b'2' ∷ b'1' ∷ input) rest
        (omega arith, (omega arith, (omega arith, plain))) in
    (
      ap (λ xs. hello ++ (now ++ copy xs)) (push_three room input enough)
          ∙ ap (λ xs. hello ++ (now ++ xs)) three,
      ap (λ xs. hello ++ (now ++ copy xs)) (push_three room (input ++ (255 ∷ rest)) enough)
          ∙ ap (λ xs. hello ++ (now ++ xs)) (cut ∙ sym three)
          ∙ ap (λ xs. hello ++ (now ++ copy xs)) (sym (push_three room input enough)),
      ap (λ xs. hello ++ (now ++ xs)) (copy-all (b'1' ∷ input) (omega arith, plain)),
    )
