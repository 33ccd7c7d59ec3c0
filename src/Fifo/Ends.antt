-- ===== src/Fifo/Ends.antt =====
-- Every run of the two processes of FIFO.c comes to its end, with the message printed.
use c_basics.Prelude.{
  ℕ, ◌+◌, ◌≤◌, ◌<◌, ◌≡◌, ◌⊎◌, refl, sym, ◌∙◌, true, none, some, List, [], ◌∷◌, arith, length,
  length-append, subst,
}
use c_basics.SelectServer.Text.{c_string}
use c_basics.SelectServer.Memory.{NulFree, c_string-NulFree}
use c_basics.Threads.Pair.{Pair, Runs, CanStep, final-CanStep, Runs-invariant}
use c_basics.Fifo.Processes.{
  Parent, opening, waiting, reading, printing, exited, Child, arriving, awaiting, writing, closing,
  ended, killed, Channel, parent_step, child_step, forked, message,
}
use c_basics.Fifo.Flow.{
  parent_steps, child_steps, shown, IsFlowing, begun-IsFlowing, reads, parent_step-IsFlowing,
  child_step-IsFlowing,
}

-- The end: both have ended, nothing is left in the FIFO or open, and the text is printed.
unfoldable pub finished : List ℕ → Pair Parent Child Channel
finished text = record {
  parent = exited (some text);
  child = ended;
  shared = record {
    content = [];
    readers = 0;
    writers = 0;
    reader_came = true;
    writer_came = true;
  };
}

-- A child that cannot go on once the parent has come has ended.
child_ends :
    (whole : List ℕ) (c : Child) (f : Channel)
    → f.reader_came ≡ true
    → child_steps c ≤ 4
    → child_step whole c f ≡ none
    → ended ≡ c
unfolding child_step child_steps
child_ends whole arriving f came alive e = cc
child_ends whole awaiting f came alive e = ground (arith, came, e)
child_ends whole writing f came alive e = ground (arith, e)
child_ends whole closing f came alive e = cc
child_ends whole ended f came alive e = refl
child_ends whole killed f came alive e = absurd (omega (arith, alive))

module _ (text whole : List ℕ) (printed : c_string whole ≡ some text)
    (some_bytes : 0 < length whole) (short : length whole ≤ 1024) where
  -- After the child's end the parent goes on until it has printed.
  ended-finished :
      (n : ℕ) (p : Parent) (f : Channel)
      → IsFlowing whole n p ended f
      → 0 < parent_steps p
      → parent_step ended p f ≡ none
      → (record { parent = p; child = ended; shared = f }) ≡ finished text
  unfolding finished parent_steps child_steps shown parent_step
  ended-finished n opening f h came e = absurd (omega (arith, came))
  ended-finished n waiting f h came e = ground (arith, h.writer_came, e)
  ended-finished n reading f h came e =
      let more = sym (reads whole ended f some_bytes short h.content) ∙ e in cc
  ended-finished n (printing bytes) f h came e = cc
  ended-finished n (exited o) f h came e =
      cc (h.text ∙ printed, h.content, h.readers, h.writers, h.reader_came, h.writer_came)

  stuck_later :
      (n : ℕ) (p : Parent) (c : Child) (f : Channel)
      → IsFlowing whole n p c f
      → 0 < parent_steps p
      → child_step whole c f ≡ none
      → parent_step c p f ≡ none
      → (record { parent = p; child = c; shared = f }) ≡ finished text
  stuck_later n p c f h later e e' =
      let a = child_ends whole c f (ground (arith, h.reader_came, later)) h.unkilled e in
      subst
        (λ c.
          IsFlowing whole n p c f
          → parent_step c p f ≡ none
          → (record { parent = p; child = c; shared = f }) ≡ finished text)
        a (λ h e'. ended-finished n p f h later e') h e'

  stuck :
      (n : ℕ) (p : Parent) (c : Child) (f : Channel)
      → IsFlowing whole n p c f
      → child_step whole c f ≡ none
      → parent_step c p f ≡ none
      → (record { parent = p; child = c; shared = f }) ≡ finished text
  unfolding parent_step parent_steps
  stuck n opening c f h e e' = cc
  stuck n waiting c f h e e' = stuck_later n waiting c f h (omega arith) e e'
  stuck n reading c f h e e' = stuck_later n reading c f h (omega arith) e e'
  stuck n (printing bytes) c f h e e' = cc
  stuck n (exited o) c f h e e' = stuck_later n (exited o) c f h (omega arith) e e'

le-parent_steps : (p : Parent) → parent_steps p ≤ 4
unfolding parent_steps
le-parent_steps opening = omega arith
le-parent_steps waiting = omega arith
le-parent_steps reading = omega arith
le-parent_steps (printing bytes) = omega arith
le-parent_steps (exited o) = omega arith

-- Whatever the order of their steps, the two processes of fifo make eight at most, and one of them
-- can go on until both have ended, the FIFO is empty and closed, and the parent has printed the
-- text. Assumed: a text without NUL of at most 1022 bytes, and any byte behind the array.
pub fifo_prints :
    (text : List ℕ) (past n : ℕ) (s : Pair Parent Child Channel)
    → NulFree text
    → length text ≤ 1022
    → Runs parent_step (child_step (message text past)) forked n s
    → (n ≤ 8) × ((s ≡ finished text) ⊎ CanStep parent_step (child_step (message text past)) s)
fifo_prints text past n s free short r =
    let whole = message text past in
    let long : length whole ≡ length text + 2 = omega (arith, length-append text (0 ∷ past ∷ [])) in
    let printed : c_string whole ≡ some text = c_string-NulFree text (past ∷ []) free in
    let h =
      Runs-invariant parent_step (child_step whole) (IsFlowing whole) forked (begun-IsFlowing whole)
        (λ n p c f r h e.
          parent_step-IsFlowing whole n p c f r (omega (arith, long)) (omega (arith, long, short)) h
            e)
        (child_step-IsFlowing whole) r in
    (
      omega (arith, h.count, h.unkilled, le-parent_steps s.parent),
      final-CanStep parent_step (child_step whole) s (finished text) (
          stuck text whole printed (omega (arith, long)) (omega (arith, long, short)) n s.parent
            s.child s.shared h),
    )
