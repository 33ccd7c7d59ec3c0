-- ===== src/PollServer/Refine.antt =====
-- What `add_to_pfds` and `del_pfds` do to the connections in the table.
use c_basics.Prelude.{
  ℕ, zero, suc, ◌+◌, ◌-◌, ◌*◌, ◌≤◌, ◌<◌, ◌≡◌, ◌≢◌, ◌⊎◌, inl, inr, refl, sym, ap, ap₂, ◌∙◌, true,
  false, Option, none, some, List, [], ◌∷◌, ◌++◌, map, arith, ltb, ◌==◌, if◌then◌else◌, length,
  get_elem?, set, take, Bool-cases, Option-cases, length-set, get_elem?-set_self, get_elem?-set_ne,
}
use c_basics.Kernel.{occurs}
use c_basics.PollServer.Table.{PollFd, Table, active, pollin, put_last, add_to_pfds, del_pfds}

-- What realloc(3) promises: the old contents, followed by as much as was asked for.
abbrev pub KeepsContents : (List PollFd → ℕ → Option (List PollFd)) → Type 0
KeepsContents realloc =
    (xs : List PollFd) (n : ℕ) (ys : List PollFd)
    → realloc xs n ≡ some ys
    → length xs ≤ n
    → (length ys ≡ n) × (take (length xs) ys ≡ xs)

abbrev pub fds : List PollFd → List ℕ
fds = map (λ p. p.fd)

-- The table fits its memory.
pub record Fits (t : Table) : Type 0 where
  pub full : length t.slots ≡ t.fd_size
  pub room : t.fd_count ≤ t.fd_size
  pub some_room : 0 < t.fd_size

pub occurs-append : (d : ℕ) (xs ys : List ℕ) → occurs d (xs ++ ys) ≡ occurs d xs + occurs d ys
unfolding occurs
occurs-append d [] ys = omega arith
occurs-append d (x ∷ xs) ys = ground (arith, occurs-append d xs ys)

occurs-snoc :
    (d : ℕ) (xs : List PollFd) (m : ℕ) (q : PollFd)
    → get_elem? xs m ≡ some q
    → occurs d (fds (take (suc m) xs)) ≡ (if q.fd == d then 1 else 0) + occurs d (fds (take m xs))
unfolding occurs
occurs-snoc d [] m q h = cc
occurs-snoc d (x ∷ xs) zero q h = ground arith
occurs-snoc d (x ∷ xs) (suc m) q h = ground (arith, occurs-snoc d xs m q h)

-- Writing slot `n` and counting it appends its descriptor.
fds-put :
    (xs : List PollFd) (n : ℕ) (p q : PollFd)
    → get_elem? xs n ≡ some p
    → fds (take (suc n) (set xs n q)) ≡ fds (take n xs) ++ (q.fd ∷ [])
fds-put [] n p q h = cc
fds-put (x ∷ xs) zero p q h = refl
fds-put (x ∷ xs) (suc n) p q h = ap (λ l. x.fd ∷ l) (fds-put xs n p q h)

pub get_elem?-lt :
    (xs : List PollFd) (n : ℕ) → n < length xs → (p : PollFd) × (get_elem? xs n ≡ some p)
get_elem?-lt [] n h = absurd (omega arith)
get_elem?-lt (x ∷ xs) zero h = (x, refl)
get_elem?-lt (x ∷ xs) (suc n) h = get_elem?-lt xs n (omega arith)

take_of_take :
    (xs ys : List PollFd) (n : ℕ) → take (length xs) ys ≡ xs → n ≤ length xs → take n ys ≡ take n xs
take_of_take xs ys zero e h = refl
take_of_take [] ys (suc n) e h = absurd (omega arith)
take_of_take (x ∷ xs) [] (suc n) e h = cc
take_of_take (x ∷ xs) (y ∷ ys) (suc n) e h =
    ap₂ ◌∷◌ (ground arith) (take_of_take xs ys n (ground arith) (omega arith))

-- The last slot copied over slot `i`: one occurrence of the descriptor of slot `i` is gone.
fds-swap :
    (d : ℕ) (xs : List PollFd) (m i : ℕ) (p q : PollFd)
    → get_elem? xs m ≡ some q
    → get_elem? xs i ≡ some p
    → i ≤ m
    → occurs d (fds (take (suc m) xs))
      ≡ (if p.fd == d then 1 else 0) + occurs d (fds (take m (set xs i q)))
unfolding occurs
fds-swap d [] m i p q hm hi le = cc
fds-swap d (x ∷ xs) zero zero p q hm hi le = ground arith
fds-swap d (x ∷ xs) zero (suc i) p q hm hi le = absurd (omega arith)
fds-swap d (x ∷ xs) (suc m) zero p q hm hi le = ground (arith, occurs-snoc d xs m q hm)
fds-swap d (x ∷ xs) (suc m) (suc i) p q hm hi le =
    ground (arith, fds-swap d xs m i p q hm hi (omega arith))

-- What `add_to_pfds` leaves behind.
pub record Added (t : Table) (new_fd : ℕ) (t' : Table) : Type 0 where
  pub fits : Fits t'
  pub appended : active t' ≡ active t ++ (new_fd ∷ [])
  pub counted : t'.fd_count ≡ suc t.fd_count
  pub kept_first : 0 < t.fd_count → get_elem? t'.slots 0 ≡ get_elem? t.slots 0

pub Added-occurs :
    {t t' : Table} {n : ℕ}
    → Added t n t'
    → (d : ℕ) → occurs d (active t') ≡ occurs d (active t) + (if n == d then 1 else 0)
unfolding occurs
Added-occurs {t} {n = n} a d =
    ap (occurs d) a.appended ∙ omega (arith, occurs-append d (active t) (n ∷ []))

get_elem?-set_first :
    (xs : List PollFd) (n : ℕ) (q : PollFd) → 0 < n → get_elem? (set xs n q) 0 ≡ get_elem? xs 0
get_elem?-set_first [] n q h = refl
get_elem?-set_first (x ∷ xs) zero q h = absurd (omega arith)
get_elem?-set_first (x ∷ xs) (suc n) q h = refl

get_elem?-take_first :
    (xs ys : List PollFd)
    → take (length xs) ys ≡ xs
    → 0 < length xs
    → get_elem? ys 0 ≡ get_elem? xs 0
get_elem?-take_first [] ys e h = absurd (omega arith)
get_elem?-take_first (x ∷ xs) [] e h = cc
get_elem?-take_first (x ∷ xs) (y ∷ ys) e h = ground arith

put_last-Added :
    (t : Table) (new_fd : ℕ)
    → Fits t
    → t.fd_count < t.fd_size
    → (t' : Table) × (put_last t new_fd ≡ some t') × Added t new_fd t'
unfolding put_last
put_last-Added t new_fd f h =
    let (p, e) = get_elem?-lt t.slots t.fd_count (omega (arith, f.full)) in
    let q : PollFd = record p { fd = new_fd; events = pollin } in
    (
      record t { slots = set t.slots t.fd_count q; fd_count = suc t.fd_count },
      rw e refl,
      record {
        fits = record {
          full = length-set t.slots t.fd_count q ∙ f.full;
          room = h;
          some_room = f.some_room;
        };
        appended = fds-put t.slots t.fd_count p q e;
        counted = refl;
        kept_first = get_elem?-set_first t.slots t.fd_count q;
      },
    )

module _ (realloc : List PollFd → ℕ → Option (List PollFd)) (law : KeepsContents realloc) where
  grown-Fits :
      (t : Table) (ys : List PollFd)
      → Fits t
      → t.fd_count ≡ t.fd_size
      → realloc t.slots (t.fd_size * 2) ≡ some ys
      → Fits (record t { slots = ys; fd_size = t.fd_size * 2 })
  grown-Fits t ys f full e = record {
    full = (law t.slots (t.fd_size * 2) ys e (omega (arith, f.full))).0;
    room = omega (arith, f.room);
    some_room = omega (arith, f.some_room);
  }

  grown-active :
      (t : Table) (ys : List PollFd)
      → Fits t
      → realloc t.slots (t.fd_size * 2) ≡ some ys
      → active (record t { slots = ys; fd_size = t.fd_size * 2 }) ≡ active t
  grown-active t ys f e = ap fds (
      take_of_take t.slots ys t.fd_count
        (law t.slots (t.fd_size * 2) ys e (omega (arith, f.full))).1
        (omega (arith, f.full, f.room)))

  grown-Added :
      (t : Table) (new_fd : ℕ) (ys : List PollFd)
      → Fits t
      → (t.fd_count == t.fd_size) ≡ true
      → realloc t.slots (t.fd_size * 2) ≡ some ys
      → (t' : Table) × (add_to_pfds realloc t new_fd ≡ some t') × Added t new_fd t'
  unfolding add_to_pfds
  grown-Added t new_fd ys f is_full e =
      let full : t.fd_count ≡ t.fd_size = ground arith in
      let same = grown-active t ys f e in
      let first =
        get_elem?-take_first t.slots ys
          (law t.slots (t.fd_size * 2) ys e (omega (arith, f.full))).1 in
      let (t', made, a) =
        put_last-Added (record t { slots = ys; fd_size = t.fd_size * 2 }) new_fd
          (grown-Fits t ys f full e) (omega (arith, f.some_room)) in
      (
        t',
        rw (is_full, e) made,
        record {
          fits = a.fits;
          appended = a.appended ∙ ap (λ l. l ++ (new_fd ∷ [])) same;
          counted = a.counted;
          kept_first = λ h. a.kept_first h ∙ first (omega (arith, f.full, f.some_room));
        },
      )

  -- On a table that fits its memory `add_to_pfds` appends the descriptor to the connections, with
  -- doubled memory when the table is full, and leaves slot 0 alone. The only fault is a realloc
  -- that answers NULL for a full table.
  pub add_to_pfds-Added :
      (t : Table) (new_fd : ℕ)
      → Fits t
      → ((add_to_pfds realloc t new_fd ≡ none)
          × (t.fd_count ≡ t.fd_size)
          × (realloc t.slots (t.fd_size * 2) ≡ none))
        ⊎ ((t' : Table) × (add_to_pfds realloc t new_fd ≡ some t') × Added t new_fd t')
  unfolding add_to_pfds
  add_to_pfds-Added t new_fd f = elim (Bool-cases (t.fd_count == t.fd_size)) [
    | inl is_full ↦ elim (Option-cases (realloc t.slots (t.fd_size * 2))) [
      | inl null ↦ inl (rw (is_full, null), ground arith, null)
      | inr (ys, e) ↦ inr (grown-Added t new_fd ys f is_full e)
    ]
    | inr not_full ↦
        let (t', e, a) = put_last-Added t new_fd f (ground (arith, f.room)) in
        inr (t', rw not_full e, a)
  ]

-- What `del_pfds` leaves behind.
pub record Deleted (t : Table) (i : ℕ) (p : PollFd) (t' : Table) : Type 0 where
  pub fits : Fits t'
  pub removed : (d : ℕ) → occurs d (active t) ≡ (if p.fd == d then 1 else 0) + occurs d (active t')
  pub counted : suc t'.fd_count ≡ t.fd_count
  pub moved : i < t'.fd_count → get_elem? t'.slots i ≡ get_elem? t.slots t'.fd_count
  pub kept : (j : ℕ) → i ≢ j → get_elem? t'.slots j ≡ get_elem? t.slots j

del_pfds-eq :
    (t : Table) (i m : ℕ) (q : PollFd)
    → t.fd_count ≡ suc m
    → i < length t.slots
    → get_elem? t.slots m ≡ some q
    → del_pfds t i ≡ some (record t { slots = set t.slots i q; fd_count = m })
unfolding del_pfds
del_pfds-eq t i m q c h e =
    let one_less : t.fd_count - 1 ≡ m = omega arith in
    let nonzero : (t.fd_count == 0) ≡ false = ground arith in
    let inside : ltb i (length t.slots) ≡ true = ground arith in
    rw (inside, nonzero, one_less, e) refl

-- Deleting a slot in use takes one occurrence of its descriptor from the connections and no other,
-- frees no memory, copies the last slot in use over it and changes no other slot.
pub del_pfds-Deleted :
    (t : Table) (i : ℕ) (p : PollFd)
    → Fits t
    → i < t.fd_count
    → get_elem? t.slots i ≡ some p
    → (t' : Table) × (del_pfds t i ≡ some t') × Deleted t i p t'
del_pfds-Deleted t i p f h e = go t.fd_count refl
  where
    go : (n : ℕ) → t.fd_count ≡ n → (t' : Table) × (del_pfds t i ≡ some t') × Deleted t i p t'
    go zero c = absurd (omega arith)
    go (suc m) c =
        let (q, last) = get_elem?-lt t.slots m (omega (arith, f.full, f.room)) in
        (
          record t { slots = set t.slots i q; fd_count = m },
          del_pfds-eq t i m q c (omega (arith, f.full, f.room)) last,
          record {
            fits = record {
              full = length-set t.slots i q ∙ f.full;
              room = omega (arith, f.room);
              some_room = f.some_room;
            };
            removed = λ d.
                ap (λ n. occurs d (fds (take n t.slots))) c
                ∙ fds-swap d t.slots m i p q last e (omega arith);
            counted = sym c;
            moved = λ h. get_elem?-set_self t.slots i q (omega (arith, f.full, f.room)) ∙ sym last;
            kept = λ j ne. get_elem?-set_ne t.slots q ne;
          },
        )
