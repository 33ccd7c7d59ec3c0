-- ===== src/FileWatch/Notices.antt =====
-- The walk of UnixFileEventWatching.c prints one message for each event.
use c_basics.Prelude.{
  ℕ, zero, suc, ◌+◌, ◌*◌, ◌/◌, ◌%◌, ◌==◌, if◌then◌else◌, ◌≤◌, ◌<◌, ◌≡◌, refl, ap, ◌∙◌, Option, none,
  some, List, [], ◌∷◌, arith, length, ◌>>=◌, lt→ltb,
}
use c_basics.FileWatch.Events.{
  Event, Message, created, deleted, accessed, written, modified, moved, notification, walk,
}

-- Events that stand one behind the other from `offset` on, and end at `last`.
abbrev pub Laid : (ℕ → Event) → ℕ → ℕ → List Event → Type 0
Laid buffer offset last [] = offset ≡ last
Laid buffer offset last (e ∷ es) = (buffer offset ≡ e) × Laid buffer (offset + (16 + e.len)) last es

-- What inotify(7) calls the six bits, by their values in its header: IN_CREATE, IN_DELETE,
-- IN_ACCESS, IN_CLOSE_WRITE, IN_MODIFY and IN_MOVE_SELF.
abbrev pub watched : List (ℕ × Message)
watched =
    (0x100, created)
    ∷ (0x200, deleted)
    ∷ (0x1, accessed)
    ∷ (0x8, written)
    ∷ (0x2, modified)
    ∷ (0x800, moved)
    ∷ []

-- The last entry of a table whose bit the mask has.
abbrev pub last_of : List (ℕ × Message) → ℕ → Option Message → Option Message
last_of [] mask m = m
last_of ((bit, t) ∷ rows) mask m = last_of rows mask (if mask / bit % 2 == 1 then some t else m)

-- The message that belongs to a mask, none if it has none of the six bits.
unfoldable pub message_of : ℕ → Option Message
message_of mask = last_of watched mask none

-- One message for each event: its own, or where it has none of the six bits the one before it
-- again.
unfoldable pub notices : List Event → Option Message → Option (List Message × Option Message)
notices [] m = some ([], m)
notices (e ∷ es) m = do
  now ← notification e.mask m
  (later, last) ← notices es (some now)
  some (now ∷ later, last)

Laid-le :
    (buffer : ℕ → Event) (offset last : ℕ) (es : List Event)
    → Laid buffer offset last es
    → offset + 16 * length es ≤ last
Laid-le buffer offset last [] h = omega (arith, h)
Laid-le buffer offset last (e ∷ es) h =
    omega (arith, Laid-le buffer (offset + (16 + e.len)) last es h.1)

bind-cong :
    {A B : Type 0} (o : Option A) (f g : A → Option B) → ((a : A) → f a ≡ g a) → o >>= f ≡ o >>= g
bind-cong none f g h = refl
bind-cong (some a) f g h = h a

-- One test of the loop that holds.
walk-step :
    (buffer : ℕ → Event) (read_length fuel offset : ℕ) (m : Option Message)
    → offset < read_length
    → walk buffer read_length (suc fuel) offset m ≡ (
        notification (buffer offset).mask m >>= (λ now.
          walk buffer read_length fuel (offset + (16 + (buffer offset).len)) (some now)
          >>= (λ (later, last). some (now ∷ later, last))))
unfolding walk
walk-step buffer read_length fuel offset m lt = rw (lt→ltb offset read_length lt, walk) refl

pub walk-notices :
    (buffer : ℕ → Event) (read_length fuel offset : ℕ) (es : List Event) (m : Option Message)
    → Laid buffer offset read_length es
    → length es < fuel
    → walk buffer read_length fuel offset m ≡ notices es m
unfolding notices
walk-notices buffer read_length zero offset es m h enough = absurd (omega arith)
walk-notices buffer read_length (suc fuel) offset [] m h enough = unfold walk in (ground (arith, h))
walk-notices buffer read_length (suc fuel) offset (e ∷ es) m h enough =
    walk-step buffer read_length fuel offset m
      (omega (arith, Laid-le buffer offset read_length (e ∷ es) h))
    ∙ ap
        (λ (ev : Event). notification ev.mask m >>= (λ now.
          walk buffer read_length fuel (offset + (16 + ev.len)) (some now)
          >>= (λ (later, last). some (now ∷ later, last))))
        h.0
    ∙ bind-cong (notification e.mask m) _ _ (λ now.
      ap (λ o. o >>= (λ (later, last). some (now ∷ later, last)))
        (walk-notices buffer read_length fuel (offset + (16 + e.len)) es (some now) h.1
          (omega arith)))

-- Each event has one of the six bits, and its message is as listed.
abbrev pub Tells : List Event → List Message → Type 0
Tells [] [] = Unit
Tells (e ∷ es) (t ∷ ts) = (message_of e.mask ≡ some t) × Tells es ts
Tells _ _ = ⊥
