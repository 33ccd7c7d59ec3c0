-- ===== src/Pipes/Steps.antt =====
-- Each system call of the two processes of Pipes.c keeps the invariant.
use c_basics.Prelude.{
  ℕ, zero, suc, ◌+◌, ◌*◌, ◌≡◌, refl, sym, ap, ◌∙◌, some, List, [], ◌∷◌, ◌++◌, arith, length,
  append_assoc, append-nil, length-append,
}
use c_basics.Pipes.Processes.{
  Parent, beginning, writing, finishing, waiting, exited, killed, Child, arriving, reading,
  printing, breaking, leaving, ended, Pipe, child_step, reaped, parent_step,
}
use c_basics.Pipes.Invariant.{
  sent, parent_readers, parent_writers, parent_steps, held, break, child_readers, child_writers,
  child_steps, at_end, exits, kills, IsPiping, not_at_end, before_end, to_parent, to_child,
}

write-bytes :
    (message printed content : List ℕ) (c : Child)
    → break c ≡ []
    → printed ++ (held c ++ content) ≡ break c
    → printed ++ (held c ++ (content ++ message)) ≡ message ++ break c
write-bytes message printed content c none_yet h =
    ap (λ xs. printed ++ xs) (sym (append_assoc (held c) content message))
    ∙ sym (append_assoc printed (held c ++ content) message)
    ∙ ap (λ xs. xs ++ message) (h ∙ none_yet)
    ∙ sym (append-nil message)
    ∙ ap (λ xs. message ++ xs) (sym none_yet)

write-IsPiping :
    (message : List ℕ) (n : ℕ) (c : Child) (p : Pipe) (r : Parent × Pipe)
    → IsPiping message n writing c p
    → parent_step message c writing p ≡ some r
    → IsPiping message (suc n) r.0 c r.1
unfolding sent parent_readers parent_writers parent_steps exits kills parent_step
write-IsPiping message n c p r h e =
    let open_end = not_at_end c (length p.content) h.emptied in
    let (none_yet, one_reader) = before_end c open_end in
    let goes : parent_step message c writing p
        ≡ some (finishing, record p { content = p.content ++ message }) =
      ground (arith, h.readers, one_reader) in
    to_parent message (suc n) c _ r (sym goes ∙ e) (record {
      bytes = write-bytes message p.printed p.content c none_yet h.bytes;
      readers = h.readers;
      writers = h.writers;
      count = omega (arith, h.count);
      emptied = ap (λ a. a * (length (p.content ++ message) + 1)) open_end ∙ omega arith;
      reaping = omega arith;
      unkilled = refl;
    })

pub parent_step-IsPiping :
    (message : List ℕ) (n : ℕ) (before : Parent) (c : Child) (p : Pipe) (r : Parent × Pipe)
    → IsPiping message n before c p
    → parent_step message c before p ≡ some r
    → IsPiping message (suc n) r.0 c r.1
unfolding sent parent_readers parent_writers parent_steps child_readers exits kills parent_step
    reaped
parent_step-IsPiping message n beginning c p r h e = to_parent message (suc n) c _ r e (record {
  bytes = h.bytes;
  readers = omega (arith, h.readers);
  writers = h.writers;
  count = omega (arith, h.count);
  emptied = h.emptied;
  reaping = omega arith;
  unkilled = refl;
})
parent_step-IsPiping message n writing c p r h e = write-IsPiping message n c p r h e
parent_step-IsPiping message n finishing c p r h e = to_parent message (suc n) c _ r e (record {
  bytes = h.bytes;
  readers = h.readers;
  writers = omega (arith, h.writers);
  count = omega (arith, h.count);
  emptied =
      ap (λ a. a * (length p.content + 0)) (not_at_end c (length p.content) h.emptied)
      ∙ omega arith;
  reaping = omega arith;
  unkilled = refl;
})
parent_step-IsPiping message n waiting ended p r h e =
    to_parent message (suc n) ended _ r e (record {
      bytes = h.bytes;
      readers = h.readers;
      writers = h.writers;
      count = omega (arith, h.count);
      emptied = h.emptied;
      reaping = omega arith;
      unkilled = refl;
    })
parent_step-IsPiping message n waiting arriving p r h e = ground (arith, e)
parent_step-IsPiping message n waiting reading p r h e = ground (arith, e)
parent_step-IsPiping message n waiting (printing b) p r h e = ground (arith, e)
parent_step-IsPiping message n waiting breaking p r h e = ground (arith, e)
parent_step-IsPiping message n waiting leaving p r h e = ground (arith, e)
parent_step-IsPiping message n exited c p r h e = ground (arith, e)
parent_step-IsPiping message n killed c p r h e = ground (arith, e)

read-IsPiping :
    (message : List ℕ) (n : ℕ) (before : Parent) (content : List ℕ) (readers writers : ℕ)
    (printed : List ℕ) (r : Child × Pipe)
    → IsPiping message n before reading
        (record { content = content; readers = readers; writers = writers; printed = printed })
    → child_step reading
        (record { content = content; readers = readers; writers = writers; printed = printed })
      ≡ some r
    → IsPiping message (suc n) before r.0 r.1
unfolding held break child_readers child_writers child_steps at_end child_step
read-IsPiping message n before (b ∷ bs) rs ws printed r h e =
    to_child message (suc n) before _ r e (record {
      bytes = h.bytes;
      readers = h.readers;
      writers = h.writers;
      count = omega (arith, h.count);
      emptied = omega arith;
      reaping = h.reaping;
      unkilled = h.unkilled;
    })
read-IsPiping message n before [] rs zero printed r h e =
    to_child message (suc n) before _ r e (record {
      bytes = h.bytes;
      readers = h.readers;
      writers = h.writers;
      count = omega (arith, h.count);
      emptied = omega (arith, h.writers);
      reaping = h.reaping;
      unkilled = h.unkilled;
    })
read-IsPiping message n before [] rs (suc ws) printed r h e = ground (arith, e)

break-bytes :
    (whole printed content : List ℕ)
    → length content ≡ 0
    → printed ++ content ≡ whole ++ []
    → (printed ++ (10 ∷ [])) ++ content ≡ whole ++ (10 ∷ [])
break-bytes whole printed [] none_left h =
    append-nil (printed ++ (10 ∷ []))
    ∙ ap (λ xs. xs ++ (10 ∷ [])) (sym (append-nil printed) ∙ h ∙ append-nil whole)
break-bytes whole printed (b ∷ bs) none_left h = absurd (omega (arith, none_left))

pub child_step-IsPiping :
    (message : List ℕ) (n : ℕ) (before : Parent) (c : Child) (p : Pipe) (r : Child × Pipe)
    → IsPiping message n before c p
    → child_step c p ≡ some r
    → IsPiping message (suc n) before r.0 r.1
unfolding held break child_readers child_writers child_steps at_end child_step
child_step-IsPiping message n before arriving p r h e =
    to_child message (suc n) before _ r e (record {
      bytes = h.bytes;
      readers = h.readers;
      writers = omega (arith, h.writers);
      count = omega (arith, h.count);
      emptied = omega arith;
      reaping = h.reaping;
      unkilled = h.unkilled;
    })
child_step-IsPiping message n before reading p r h e =
    read-IsPiping message n before p.content p.readers p.writers p.printed r h e
child_step-IsPiping message n before (printing b) p r h e =
    to_child message (suc n) before _ r e (record {
      bytes = append_assoc p.printed (b ∷ []) p.content ∙ h.bytes;
      readers = h.readers;
      writers = h.writers;
      count = omega (arith, h.count, length-append p.printed (b ∷ []));
      emptied = omega arith;
      reaping = h.reaping;
      unkilled = h.unkilled;
    })
child_step-IsPiping message n before breaking p r h e =
    to_child message (suc n) before _ r e (record {
      bytes =
          break-bytes (sent message before) p.printed p.content (omega (arith, h.emptied)) h.bytes;
      readers = h.readers;
      writers = h.writers;
      count = omega (arith, h.count, length-append p.printed (10 ∷ []));
      emptied = h.emptied;
      reaping = h.reaping;
      unkilled = h.unkilled;
    })
child_step-IsPiping message n before leaving p r h e =
    to_child message (suc n) before _ r e (record {
      bytes = h.bytes;
      readers = omega (arith, h.readers);
      writers = h.writers;
      count = omega (arith, h.count);
      emptied = h.emptied;
      reaping = omega arith;
      unkilled = h.unkilled;
    })
child_step-IsPiping message n before ended p r h e = ground (arith, e)
