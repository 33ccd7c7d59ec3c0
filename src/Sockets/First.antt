-- ===== src/Sockets/First.antt =====
-- A walk over the list of getaddrinfo(3) stops at the first usable entry and leaks no descriptor.
use c_basics.Prelude.{
  ℕ, ◌+◌, ◌≤◌, ◌≡◌, refl, ap, Bool, true, false, Option, none, some, List, [], ◌∷◌, ◌++◌, arith,
  ◌==◌, if◌then◌else◌,
}
use c_basics.Prelude.{subst₂}
use c_basics.Sockets.Walk.{
  Entry, Descriptor, unset, minus_one, fd, Call, freed, Verdict, next, stop, die, Attempt,
  exhausted, broke, died, Walked, follow, walk, opens, closes, returned, listen_on,
}

abbrev pub All {ℓ κ} : {A : Type ℓ} → (A → Type κ) → List A → Type κ
All P [] = Unit
All P (x ∷ xs) = P x × All P xs

-- The calls leave open `n` and nothing else of what they opened.
abbrev pub Leaves : ℕ → List Call → Type 0
Leaves n cs = (d : ℕ) → opens d cs ≡ closes d cs + (if n == d then 1 else 0)

abbrev pub Balanced : List Call → Type 0
Balanced cs = (d : ℕ) → opens d cs ≡ closes d cs

pub opens-append :
    (d : ℕ) (xs ys : List Call)
    → (opens d (xs ++ ys) ≡ opens d xs + opens d ys)
      × (closes d (xs ++ ys) ≡ closes d xs + closes d ys)
unfolding opens closes
opens-append d [] ys = omega arith
opens-append d (x ∷ xs) ys = ground (arith, opens-append d xs ys)

pub Balanced-append : (xs ys : List Call) → Balanced xs → Balanced ys → Balanced (xs ++ ys)
Balanced-append xs ys h k d = omega (arith, opens-append d xs ys, h d, k d)

pub Leaves-append : (n : ℕ) (xs ys : List Call) → Balanced xs → Leaves n ys → Leaves n (xs ++ ys)
Leaves-append n xs ys h k d = omega (arith, opens-append d xs ys, h d, k d)

-- A loop body that goes on at an entry it cannot use, with all closed that it opened, and stops at
-- one that it can use, with the descriptor open that socket(2) gave.
pub record IsTidy (usable : Entry → Bool) (try : Entry → Attempt) : Type 0 where
  pub next_unusable : (e : Entry) → (try e).verdict ≡ next → usable e ≡ false
  pub next_closes : (e : Entry) → (try e).verdict ≡ next → Balanced (try e).calls
  pub stop_usable : (e : Entry) → (try e).verdict ≡ stop → usable e ≡ true
  pub stop_leaves :
      (e : Entry)
      → (try e).verdict ≡ stop
      → (n : ℕ) × (e.socket ≡ some n) × ((try e).descriptor ≡ fd n) × Leaves n (try e).calls

-- The descriptor is that of the first usable entry, and the calls leave nothing else open.
pub record Found (usable : Entry → Bool) (es : List Entry) (cs : List Call) (d : Descriptor)
    : Type 0 where
  pub before : List Entry
  pub entry : Entry
  pub after : List Entry
  pub splits : es ≡ before ++ (entry ∷ after)
  pub skipped : All (λ x. usable x ≡ false) before
  pub chosen : usable entry ≡ true
  pub number : ℕ
  pub socket : entry.socket ≡ some number
  pub holds : d ≡ fd number
  pub leaves : Leaves number cs

abbrev pub has_socket : Option ℕ → Bool
has_socket none = false
has_socket (some n) = true

module _ (usable : Entry → Bool) (try : Entry → Attempt) (tidy : IsTidy usable try) where
  -- Every end of a walk: at a usable entry, past the end with nothing left open, or by exit.
  pub data Outcome (es : List Entry) (w : Walked) : Type 0 where
    at : (e : Entry) → w.ended ≡ broke e → Found usable es w.calls w.descriptor → Outcome es w
    past : w.ended ≡ exhausted → All (λ x. usable x ≡ false) es → Balanced w.calls → Outcome es w
    dead : w.ended ≡ died → Outcome es w

  follow-Outcome :
      (e : Entry) (es : List Entry) (w : Walked) (v : Verdict)
      → (try e).verdict ≡ v
      → Outcome es w
      → Outcome (e ∷ es) (follow e (try e).calls (try e).descriptor v w)
  follow-Outcome e es w next h (at x end f) = at x end (record {
    before = e ∷ f.before;
    entry = f.entry;
    after = f.after;
    splits = ap (λ l. e ∷ l) f.splits;
    skipped = (tidy.next_unusable e h, f.skipped);
    chosen = f.chosen;
    number = f.number;
    socket = f.socket;
    holds = f.holds;
    leaves = Leaves-append f.number (try e).calls w.calls (tidy.next_closes e h) f.leaves;
  })
  follow-Outcome e es w next h (past end all b) =
      past end (tidy.next_unusable e h, all)
        (Balanced-append (try e).calls w.calls (tidy.next_closes e h) b)
  follow-Outcome e es w next h (dead end) = dead end
  follow-Outcome e es w stop h o =
      let (n, socket, holds, leaves) = tidy.stop_leaves e h in
      at e refl (record {
        before = [];
        entry = e;
        after = es;
        splits = refl;
        skipped = tt;
        chosen = tidy.stop_usable e h;
        number = n;
        socket = socket;
        holds = holds;
        leaves = leaves;
      })
  follow-Outcome e es w die h o = dead refl

  pub walk-Outcome : (d : Descriptor) (es : List Entry) → Outcome es (walk try d es)
  unfolding walk
  walk-Outcome d [] = past refl tt (λ x. unfold opens closes in refl)
  walk-Outcome d (e ∷ es) =
      follow-Outcome e es (walk try (try e).descriptor es) (try e).verdict refl
        (walk-Outcome (try e).descriptor es)

-- What listen(2) promises: it fails on what is no descriptor, and on a descriptor that the calls so
-- far leave closed.
pub record IsListen (listen : List Call → Descriptor → Bool) : Type 0 where
  pub not_unset : (cs : List Call) → listen cs unset ≡ false
  pub not_minus_one : (cs : List Call) → listen cs minus_one ≡ false
  pub not_closed : (cs : List Call) (n : ℕ) → opens n cs ≤ closes n cs → listen cs (fd n) ≡ false

-- Calls that open nothing may follow, and may close anything but the descriptor that was found.
pub Found-freed :
    (usable : Entry → Bool) (es : List Entry) (cs : List Call) (d : Descriptor)
    → Found usable es cs d
    → Found usable es (cs ++ (freed ∷ [])) d
unfolding opens closes
Found-freed usable es cs d f = record {
  before = f.before;
  entry = f.entry;
  after = f.after;
  splits = f.splits;
  skipped = f.skipped;
  chosen = f.chosen;
  number = f.number;
  socket = f.socket;
  holds = f.holds;
  leaves = λ x. omega (arith, opens-append x cs (freed ∷ []), f.leaves x);
}

-- Where all is closed again listen(2) fails.
pub listen-closed :
    (listen : List Call → Descriptor → Bool) (cs : List Call) (d : Descriptor)
    → IsListen listen
    → ((n : ℕ) → opens n cs ≤ closes n cs)
    → listen cs d ≡ false
listen-closed listen cs unset law h = law.not_unset cs
listen-closed listen cs minus_one law h = law.not_minus_one cs
listen-closed listen cs (fd n) law h = law.not_closed cs n (h n)

-- A return follows a listen(2) that succeeded.
pub listen_on-returned :
    (listen : List Call → Descriptor → Bool) (cs cs' : List Call) (d d' : Descriptor)
    → listen_on listen cs d ≡ returned cs' d'
    → (cs ≡ cs') × (d ≡ d') × (listen cs d ≡ true)
unfolding listen_on
listen_on-returned listen cs cs' d d' e = ground arith

-- The end that the listener functions share: free the list, listen, return.
pub Found-returned :
    (usable : Entry → Bool) (listen : List Call → Descriptor → Bool) (es : List Entry) (w : Walked)
    (cs : List Call) (d : Descriptor)
    → Found usable es w.calls w.descriptor
    → listen_on listen (w.calls ++ (freed ∷ [])) w.descriptor ≡ returned cs d
    → Found usable es cs d
Found-returned usable listen es w cs d f e =
    let (same, held, _) = listen_on-returned listen (w.calls ++ (freed ∷ [])) cs w.descriptor d e in
    subst₂ (Found usable es) same held (Found-freed usable es w.calls w.descriptor f)
