-- ===== src/Fifo/Flow.antt =====
-- What holds of the two processes of FIFO.c and their channel after every step.
use c_basics.Prelude.{
  ℕ, zero, suc, ◌+◌, ◌≤◌, ◌<◌, ◌≡◌, inl, inr, refl, sym, ap, ◌∙◌, ◌&&◌, Option, none, some, List,
  [], ◌∷◌, arith, ltb, if◌then◌else◌, length, take, drop, Bool-cases,
}
use c_basics.SelectServer.Text.{c_string}
use c_basics.Fifo.Processes.{
  Parent, opening, waiting, reading, printing, exited, Child, arriving, awaiting, writing, closing,
  ended, killed, Channel, parent_step, child_step, unopened,
}

-- How far each has come.
unfoldable pub parent_steps : Parent → ℕ
parent_steps opening = 0
parent_steps waiting = 1
parent_steps reading = 2
parent_steps (printing bytes) = 3
parent_steps (exited text) = 4

unfoldable pub child_steps : Child → ℕ
child_steps arriving = 0
child_steps awaiting = 1
child_steps writing = 2
child_steps closing = 3
child_steps ended = 4
child_steps killed = 5

-- What the parent has read, and printed, once it has.
unfoldable pub taken : List ℕ → Parent → List ℕ
taken whole (printing bytes) = bytes
taken whole _ = whole

unfoldable pub shown : List ℕ → Parent → Option (List ℕ)
shown whole (exited text) = text
shown whole _ = c_string whole

-- The ends that are open are those that the two have; the whole message is in the channel between
-- the write and the read; nobody is ahead of what it waits for.
pub record IsFlowing (whole : List ℕ) (n : ℕ) (p : Parent) (c : Child) (f : Channel) : Type 0 where
  pub content : f.content ≡ (if ltb 2 (child_steps c) && ltb (parent_steps p) 3 then whole else [])
  pub readers : f.readers ≡ (if ltb 0 (parent_steps p) && ltb (parent_steps p) 4 then 1 else 0)
  pub writers : f.writers ≡ (if ltb 0 (child_steps c) && ltb (child_steps c) 4 then 1 else 0)
  pub reader_came : f.reader_came ≡ ltb 0 (parent_steps p)
  pub writer_came : f.writer_came ≡ ltb 0 (child_steps c)
  pub bytes : taken whole p ≡ whole
  pub text : shown whole p ≡ c_string whole
  pub count : n ≡ parent_steps p + child_steps c
  pub reads_after : 2 < parent_steps p → 2 < child_steps c
  pub opens_after : 1 < parent_steps p → 0 < child_steps c
  pub writes_after : 1 < child_steps c → 0 < parent_steps p
  pub unkilled : child_steps c ≤ 4

pub begun-IsFlowing : (whole : List ℕ) → IsFlowing whole 0 opening arriving unopened
unfolding parent_steps child_steps taken shown
begun-IsFlowing whole = ground arith

take-all : (n : ℕ) (xs : List ℕ) → length xs ≤ n → (take n xs ≡ xs) × (drop n xs ≡ [])
take-all zero [] h = (refl, refl)
take-all zero (x ∷ xs) h = absurd (omega (arith, h))
take-all (suc n) [] h = (refl, refl)
take-all (suc n) (x ∷ xs) h =
    let (kept, left) = take-all n xs (omega (arith, h)) in (ap (λ ys. x ∷ ys) kept, left)

-- A read(2) with the message in the channel takes all of it.
pub reads :
    (whole : List ℕ) (c : Child) (f : Channel)
    → 0 < length whole
    → length whole ≤ 1024
    → f.content ≡ whole
    → parent_step c reading f ≡ some (printing whole, record f { content = [] })
unfolding parent_step
reads [] c f some_bytes short e = absurd (omega (arith, some_bytes))
reads (b ∷ bs) c f some_bytes short e =
    let (kept, left) = take-all 1024 (b ∷ bs) short in rw (e, parent_step) (cc (kept, left))

read_waits :
    (c : Child) (f : Channel) → f.content ≡ [] → f.writers ≡ 1 → parent_step c reading f ≡ none
unfolding parent_step
read_waits c f e w = rw (e, parent_step) (ground (arith, w))

pub parent_step-IsFlowing :
    (whole : List ℕ) (n : ℕ) (p : Parent) (c : Child) (f : Channel) (r : Parent × Channel)
    → 0 < length whole
    → length whole ≤ 1024
    → IsFlowing whole n p c f
    → parent_step c p f ≡ some r
    → IsFlowing whole (suc n) r.0 c r.1
unfolding parent_steps taken shown parent_step
parent_step-IsFlowing whole n opening c f r some_bytes short h e =
    ground
      (arith, h.content, h.readers, h.writers, h.reader_came, h.writer_came, h.count, h.unkilled, e)
parent_step-IsFlowing whole n waiting c f r some_bytes short h e =
    ground
      (arith, h.content, h.readers, h.writers, h.reader_came, h.writer_came, h.count, h.unkilled, e)
parent_step-IsFlowing whole n reading c f r some_bytes short h e =
    elim (Bool-cases (ltb 2 (child_steps c))) [
      | inl wrote ↦
          let whole_there : f.content ≡ whole = ground (arith, h.content, wrote) in
          let now : some (printing whole, record f { content = [] }) ≡ some r =
            sym (reads whole c f some_bytes short whole_there) ∙ e in
          ground (
            arith, now, wrote, h.readers, h.writers, h.reader_came, h.writer_came, h.count,
            h.unkilled,
          )
      | inr early ↦
          let nothing : f.content ≡ [] = ground (arith, h.content, early) in
          let one : f.writers ≡ 1 = ground (arith, h.writers, early, h.opens_after) in
          let stays : none ≡ some r = sym (read_waits c f nothing one) ∙ e in cc
    ]
parent_step-IsFlowing whole n (printing bytes) c f r some_bytes short h e = ground (
  arith,
  h.content,
  h.readers,
  h.writers,
  h.reader_came,
  h.writer_came,
  h.count,
  h.unkilled,
  h.bytes,
  ap c_string h.bytes,
  e,
  h.reads_after,
  h.opens_after,
)
parent_step-IsFlowing whole n (exited text) c f r some_bytes short h e = cc

pub child_step-IsFlowing :
    (whole : List ℕ) (n : ℕ) (p : Parent) (c : Child) (f : Channel) (r : Child × Channel)
    → IsFlowing whole n p c f
    → child_step whole c f ≡ some r
    → IsFlowing whole (suc n) p r.0 r.1
unfolding child_steps child_step
child_step-IsFlowing whole n p arriving f r h e = ground (
  arith, h.content, h.readers, h.writers, h.reader_came, h.writer_came, h.count, h.bytes, h.text, e,
)
child_step-IsFlowing whole n p awaiting f r h e = ground (
  arith, h.content, h.readers, h.writers, h.reader_came, h.writer_came, h.count, h.bytes, h.text, e,
)
child_step-IsFlowing whole n p writing f r h e = ground (
  arith, h.content, h.readers, h.writers, h.reader_came, h.writer_came, h.count, h.bytes, h.text, e,
  h.reads_after, h.writes_after,
)
child_step-IsFlowing whole n p closing f r h e = ground (
  arith, h.content, h.readers, h.writers, h.reader_came, h.writer_came, h.count, h.bytes, h.text, e,
)
child_step-IsFlowing whole n p ended f r h e = cc
child_step-IsFlowing whole n p killed f r h e = cc
