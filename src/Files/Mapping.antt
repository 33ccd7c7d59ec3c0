-- ===== src/Files/Mapping.antt =====
-- `memoryMapping` of MemoryMapping.c.
use c_basics.Prelude.{
  ℕ, ◌≡◌, ◌≤◌, ◌<◌, ◌≢◌, refl, sym, ap, ◌∙◌, Bool, true, false, Option, none, some, List, [], ◌∷◌,
  arith, ltb, ◌==◌, if◌then◌else◌, length, take, inl, inr, Bool-cases,
}
use c_basics.SelectServer.Memory.{NulFree}

-- What is answered to open(2), fstat(2) and mmap(2), by its length, with true for success; to the
-- write(2) to the file and the one to standard output, the number of bytes taken, or none for -1.
pub record Answers : Type 0 where
  pub open_file : Bool
  pub write : ℕ → Option ℕ
  pub fstat : Bool
  pub mmap : ℕ → Bool
  pub write_out : ℕ → Option ℕ

-- `exit(EXIT_FAILURE)` and `exit(EXIT_SUCCESS)`, with what is on standard output; or an access
-- outside the memory of the program, or of what was never set.
pub data Run : Type 0 where
  fails : List ℕ → Run
  succeeds : List ℕ → Run
  faulted : Run

-- The write(2) from the mapping to standard output, which is to take all of `sb.st_size`.
unfoldable pub copy_out : List ℕ → Option ℕ → Run
copy_out content none = fails []
copy_out content (some n) =
    if n == length content then succeeds (take n content) else fails (take n content)

-- From fstat(2) on, with what the file holds: the mapping shows that.
unfoldable pub map_file : Answers → List ℕ → Run
unfolding copy_out
map_file a content =
    if a.fstat
    then (if a.mmap (length content)
        then copy_out content (a.write_out (length content))
        else fails [])
    else fails []

-- The write(2) of the text to the file, which open(2) has emptied.
unfoldable pub write_file : Answers → List ℕ → Option ℕ → Run
unfolding map_file
write_file a text none = fails []
write_file a text (some n) = map_file a (take n text)

-- The text of the word that strlen(3) measures.
unfoldable pub up_to_nul : List ℕ → List ℕ
up_to_nul [] = []
up_to_nul (b ∷ bytes) = let rest = up_to_nul bytes in if b == 0 then [] else b ∷ rest

-- The word that scanf(3) reads, none at the end of the input, into memory of 100 bytes, of which
-- one is for the NUL.
unfoldable pub memory_mapping : Answers → Option (List ℕ) → Run
unfolding write_file
memory_mapping a none = if a.open_file then faulted else fails []
memory_mapping a (some word) =
    if a.open_file
    then (if ltb (length word) 100
        then write_file a (up_to_nul word) (a.write (length (up_to_nul word)))
        else faulted)
    else fails []

-- A kernel that takes every byte and refuses nothing but an empty mapping.
pub record IsWhole (a : Answers) : Type 0 where
  pub opens : a.open_file ≡ true
  pub writes : (n : ℕ) → a.write n ≡ some n
  pub stats : a.fstat ≡ true
  pub maps : (n : ℕ) → 0 < n → a.mmap n ≡ true
  pub writes_out : (n : ℕ) → a.write_out n ≡ some n

take-all : (xs : List ℕ) → take (length xs) xs ≡ xs
take-all [] = refl
take-all (x ∷ xs) = ap (λ ys. x ∷ ys) (take-all xs)

up_to_nul-NulFree : (word : List ℕ) → NulFree word → up_to_nul word ≡ word
unfolding up_to_nul
up_to_nul-NulFree [] h = refl
up_to_nul-NulFree (b ∷ word) h = ground (arith, up_to_nul-NulFree word h.1)

memory_mapping-whole :
    (a : Answers) (word : List ℕ)
    → IsWhole a
    → NulFree word
    → 0 < length word
    → length word < 100
    → memory_mapping a (some word) ≡ succeeds word
unfolding memory_mapping
memory_mapping-whole a word k free some_bytes short =
    let all = take-all word in
    let text = up_to_nul-NulFree word free in
    ground (
      arith,
      all,
      text,
      k.opens,
      k.writes (length word),
      k.stats,
      k.maps (length word) some_bytes,
      k.writes_out (length word),
    )

copy_out-prefix :
    (content printed : List ℕ) (o : Option ℕ)
    → copy_out content o ≡ succeeds printed
    → printed ≡ content
unfolding copy_out
copy_out-prefix content printed none e = absurd (ground (arith, e))
copy_out-prefix content printed (some n) e = ground (arith, e, take-all content)

-- A success shows what the file holds, which mmap(2) took for a mapping of some bytes.
map_file-shows :
    (a : Answers) (content printed : List ℕ)
    → map_file a content ≡ succeeds printed
    → (printed ≡ content) × (a.mmap (length content) ≡ true)
unfolding map_file
map_file-shows a content printed e = elim (Bool-cases a.fstat) [
  | inl stats ↦ elim (Bool-cases (a.mmap (length content))) [
    | inl maps ↦ (
      copy_out-prefix content printed (a.write_out (length content))
          (ground (arith, stats, maps, e)),
      maps,
    )
    | inr refused ↦ absurd (ground (arith, stats, refused, e))
  ]
  | inr failed ↦ absurd (ground (arith, failed, e))
]

write_file-shows :
    (a : Answers) (word printed : List ℕ) (o : Option ℕ)
    → a.mmap 0 ≡ false
    → write_file a word o ≡ succeeds printed
    → (n : ℕ) × (o ≡ some n) × (printed ≡ take n word) × (printed ≢ [])
unfolding write_file
write_file-shows a word printed none empty e = absurd (ground (arith, e))
write_file-shows a word printed (some n) empty e =
    let (shown, maps) = map_file-shows a (take n word) printed e in
    (n, refl, shown, λ none_shown. ground (arith, empty, maps, ap length (sym shown ∙ none_shown)))

-- For a word of 1 to 99 bytes without NUL, where the kernel takes every byte, memoryMapping prints
-- the word and succeeds. With any kernel that refuses empty mappings, and for any word, what a
-- successful run prints is the first part of the text before the word's first NUL that the one
-- write(2) took, not empty, however short that was. A word of 100 bytes or more leaves its memory.
pub memory_mapping-shows :
    (a b : Answers) (word typed long printed : List ℕ)
    → IsWhole a
    → NulFree word
    → 0 < length word
    → length word < 100
    → b.mmap 0 ≡ false
    → memory_mapping b (some typed) ≡ succeeds printed
    → 100 ≤ length long
    → (memory_mapping a (some word) ≡ succeeds word)
      × ((n : ℕ) × (b.write (length (up_to_nul typed)) ≡ some n)
          × (printed ≡ take n (up_to_nul typed))
          × (printed ≢ []))
      × (memory_mapping a (some long) ≡ faulted)
unfolding memory_mapping
memory_mapping-shows a b word typed long printed k free some_bytes short empty e large =
    let text = up_to_nul typed in
    (
      memory_mapping-whole a word k free some_bytes short,
      write_file-shows b text printed (b.write (length text)) empty (ground (arith, e)),
      ground (arith, k.opens),
    )
