-- ===== src/Sockets/TelnetClient.antt =====
-- The clients of UnixTelnetClient.c and UnixStreamSocketClient.c, up to their connection, and that
-- of UnixFileTransferStreamClient.c.
use c_basics.Prelude.{
  ℕ, ◌≡◌, ◌⊎◌, inl, inr, refl, sym, ap, ◌∙◌, true, false, Option, none, some, List, [], ◌∷◌, ◌++◌,
  arith, ltb, if◌then◌else◌, Bool-cases, subst,
}
use c_basics.Sockets.Walk.{
  Entry, Descriptor, unset, fd, Call, opened, closed, freed, stop, Attempt, End, exhausted, broke,
  died, Walked, follow, walk, opens, closes, Result, exit_failure, returned, no_socket,
}
use c_basics.Sockets.First.{All, Leaves, Balanced, opens-append, has_socket}

-- UnixTelnetClient.c and UnixStreamSocketClient.c: after a failed connect(2) and its close(2) comes
-- `break` all the same.
unfoldable pub connect_then_break : Entry → Option ℕ → Attempt
connect_then_break e none = no_socket
connect_then_break e (some n) =
    if e.connect
    then record { calls = opened n ∷ []; descriptor = fd n; verdict = stop }
    else record { calls = opened n ∷ closed n ∷ []; descriptor = fd n; verdict = stop }

unfoldable pub client_try : Entry → Attempt
unfolding connect_then_break
client_try e = connect_then_break e e.socket

-- "Successfully connected" stands for the return.
unfoldable pub settle : Walked → End → Result
settle w (broke e) = returned (w.calls ++ (freed ∷ [])) w.descriptor
settle w _ = exit_failure w.calls

-- `telnetClient` up to its connection: the number of arguments, and the list of getaddrinfo(3), or
-- none for its error.
unfoldable pub telnet_connect : ℕ → Option (List Entry) → Result
unfolding settle client_try
telnet_connect argc none = exit_failure []
telnet_connect argc (some es) =
    if ltb argc 3 then exit_failure [] else (let w = walk client_try unset es in settle w w.ended)

-- What the telnet client reports as connected: the first entry that socket(2) takes, and then a
-- descriptor that is connected and open, or one that failed to connect and is closed.
pub record Reported (es : List Entry) (cs : List Call) (d : Descriptor) : Type 0 where
  pub before : List Entry
  pub entry : Entry
  pub after : List Entry
  pub splits : es ≡ before ++ (entry ∷ after)
  pub skipped : All (λ x. has_socket x.socket ≡ false) before
  pub number : ℕ
  pub socket : entry.socket ≡ some number
  pub holds : d ≡ fd number
  pub effect : ((entry.connect ≡ true) × Leaves number cs) ⊎ ((entry.connect ≡ false) × Balanced cs)

abbrev pub Reports : List Entry → Walked → End → Type 0
Reports es w (broke e) = Reported es w.calls w.descriptor
Reports es w _ = Unit

follow-Reports :
    (e : Entry) (es : List Entry) (o : Option ℕ) (w : Walked)
    → e.socket ≡ o
    → Reports es w w.ended
    → let a = connect_then_break e o in
      let f = follow e a.calls a.descriptor a.verdict w in Reports (e ∷ es) f f.ended
unfolding connect_then_break opens closes
follow-Reports e es none w q r = go w.ended r
  where
    go : (end : End) → Reports es w end → Reports (e ∷ es) w end
    go (broke x) r = record {
      before = e ∷ r.before;
      entry = r.entry;
      after = r.after;
      splits = ap (λ l. e ∷ l) r.splits;
      skipped = (rw q refl, r.skipped);
      number = r.number;
      socket = r.socket;
      holds = r.holds;
      effect = r.effect;
    }
    go exhausted r = tt
    go died r = tt
follow-Reports e es (some n) w q r = elim (Bool-cases e.connect) [
  | inl good ↦ simp good (record {
    before = [];
    entry = e;
    after = es;
    splits = refl;
    skipped = tt;
    number = n;
    socket = q;
    holds = refl;
    effect = inl (good, λ d. ground arith);
  })
  | inr bad ↦ simp bad (record {
    before = [];
    entry = e;
    after = es;
    splits = refl;
    skipped = tt;
    number = n;
    socket = q;
    holds = refl;
    effect = inr (bad, λ d. ground arith);
  })
]

pub walk-Reports :
    (d : Descriptor) (es : List Entry)
    → Reports es (walk client_try d es) (walk client_try d es).ended
unfolding walk client_try
walk-Reports d [] = tt
walk-Reports d (e ∷ es) =
    follow-Reports e es e.socket (walk client_try (client_try e).descriptor es) refl
      (walk-Reports (client_try e).descriptor es)

settle-returned :
    (es : List Entry) (w : Walked) (end : End) (cs : List Call) (d : Descriptor)
    → Reports es w end
    → settle w end ≡ returned cs d
    → Reported es cs d
unfolding settle opens closes
settle-returned es w exhausted cs d r e = cc
settle-returned es w died cs d r e = cc
settle-returned es w (broke x) cs d r e =
    let calls : w.calls ++ (freed ∷ []) ≡ cs = ground arith in
    let held : w.descriptor ≡ d = ground arith in
    let freeing : (x : ℕ) → (opens x cs ≡ opens x w.calls) × (closes x cs ≡ closes x w.calls) = λ x.
      subst (λ c. (opens x c ≡ opens x w.calls) × (closes x c ≡ closes x w.calls)) calls
        (omega (arith, opens-append x w.calls (freed ∷ []))) in
    record {
      before = r.before;
      entry = r.entry;
      after = r.after;
      splits = r.splits;
      skipped = r.skipped;
      number = r.number;
      socket = r.socket;
      holds = sym held ∙ r.holds;
      effect = elim r.effect [
        | inl (good, leaves) ↦ inl (good, λ x. omega (arith, freeing x, leaves x))
        | inr (bad, balanced) ↦ inr (bad, λ x. omega (arith, freeing x, balanced x))
      ];
    }

-- When the telnet client reports a connection, its descriptor is that of the first entry that
-- socket(2) takes. If connect(2) succeeded there, this descriptor is open and nothing else is; if
-- it failed, the descriptor that the client goes on to use is closed, like all others, and no later
-- entry was tried.
pub telnet_connect-Reported :
    (argc : ℕ) (es : List Entry) (cs : List Call) (d : Descriptor)
    → telnet_connect argc (some es) ≡ returned cs d
    → Reported es cs d
unfolding telnet_connect
telnet_connect-Reported argc es cs d e = elim (Bool-cases (ltb argc 3)) [
  | inl few ↦ let bad : exit_failure [] ≡ returned cs d = rw few at e in cc
  | inr enough ↦
      settle-returned es (walk client_try unset es) (walk client_try unset es).ended cs d
        (walk-Reports unset es) (rw enough at e)
]
