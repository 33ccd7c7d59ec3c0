-- ===== src/Sockets/StreamClient.antt =====
-- `streamSocketClient` of UnixStreamSocketClient.c: its connection, the one recv(2) and what it
-- prints.
use c_basics.Prelude.{
  ℕ, ◌≤◌, ◌≡◌, inl, inr, true, false, Option, none, some, List, [], ◌∷◌, ◌++◌, arith, ◌==◌,
  if◌then◌else◌, Bool-cases, subst,
}
use c_basics.Sockets.Walk.{
  Entry, Descriptor, unset, fd, Call, closed, freed, End, exhausted, broke, died, Walked, walk,
  opens, closes,
}
use c_basics.Sockets.First.{All, Balanced, opens-append, has_socket}
use c_basics.Sockets.TelnetClient.{client_try, Reported, Reports, walk-Reports}
use c_basics.Kernel.{Recv, failed, got, Recv-cases}

-- `fault` is the walk along a pointer that was never set, which C leaves undefined.
pub data ClientEnd : Type 0 where
  exits : ClientEnd
  returns : ℕ → ClientEnd
  prints : List Call → List ℕ → ClientEnd
  fault : ClientEnd

unfoldable pub receive : List Call → Descriptor → Recv → ClientEnd
receive cs d failed = exits
receive cs (fd n) (got bytes) = prints (cs ++ (closed n ∷ [])) bytes
receive cs d (got bytes) = fault

unfoldable pub settle : (List Call → Descriptor → Recv) → Walked → End → ClientEnd
settle recv w exhausted = returns 2
settle recv w (broke e) =
    let cs = w.calls ++ (freed ∷ []) in receive cs w.descriptor (recv cs w.descriptor)
settle recv w died = exits

-- `recv` answers recv(2), given the calls made before it. On an error of getaddrinfo(3) (none) the
-- client complains and goes on with an unset list.
unfoldable pub stream_client : ℕ → Option (List Entry) → (List Call → Descriptor → Recv) → ClientEnd
unfolding settle receive client_try
stream_client argc list recv =
    if argc == 2
    then elim list [
      | none ↦ fault
      | some es ↦ (let w = walk client_try unset es in settle recv w w.ended)
    ]
    else exits

-- What recv(2) promises: it fails on a descriptor that the calls so far leave closed.
abbrev pub IsRecv : (List Call → Descriptor → Recv) → Type 0
IsRecv recv = (cs : List Call) (n : ℕ) → opens n cs ≤ closes n cs → recv cs (fd n) ≡ failed

-- The client has printed what it read from the first entry that socket(2) takes, connected.
pub record Connected (es : List Entry) (cs : List Call) : Type 0 where
  pub before : List Entry
  pub entry : Entry
  pub after : List Entry
  pub splits : es ≡ before ++ (entry ∷ after)
  pub skipped : All (λ x. has_socket x.socket ≡ false) before
  pub connected : entry.connect ≡ true
  pub closed_all : Balanced cs

prints-Connected :
    (recv : List Call → Descriptor → Recv) (es : List Entry) (w : Walked) (cs : List Call)
    (text : List ℕ)
    → IsRecv recv
    → Reported es w.calls w.descriptor
    → receive (w.calls ++ (freed ∷ [])) w.descriptor (recv (w.calls ++ (freed ∷ [])) w.descriptor)
      ≡ prints cs text
    → Connected es cs
unfolding receive opens closes
prints-Connected recv es w cs text law r e = elim r.effect [
  | inl (good, leaves) ↦ elim (Recv-cases (recv (w.calls ++ (freed ∷ [])) (fd r.number))) [
    | inl f ↦ let bad : exits ≡ prints cs text = simp (r.holds, f) at e in cc
    | inr (bytes, f) ↦
        let done : prints ((w.calls ++ (freed ∷ [])) ++ (closed r.number ∷ [])) bytes
            ≡ prints cs text =
          simp (r.holds, f) at e in
        let calls : (w.calls ++ (freed ∷ [])) ++ (closed r.number ∷ []) ≡ cs = ground arith in
        record {
          before = r.before;
          entry = r.entry;
          after = r.after;
          splits = r.splits;
          skipped = r.skipped;
          connected = good;
          closed_all = subst Balanced calls (λ d. omega (
            arith,
            opens-append d (w.calls ++ (freed ∷ [])) (closed r.number ∷ []),
            opens-append d w.calls (freed ∷ []),
            leaves d,
          ));
        }
  ]
  | inr (bad, balanced) ↦
      let dead : recv (w.calls ++ (freed ∷ [])) (fd r.number) ≡ failed =
        law (w.calls ++ (freed ∷ [])) r.number
          (omega (arith, opens-append r.number w.calls (freed ∷ []), balanced r.number)) in
      let absurdity : exits ≡ prints cs text = simp (r.holds, dead) at e in cc
]

settle-Connected :
    (recv : List Call → Descriptor → Recv) (es : List Entry) (w : Walked) (end : End)
    (cs : List Call) (text : List ℕ)
    → IsRecv recv
    → Reports es w end
    → settle recv w end ≡ prints cs text
    → Connected es cs
unfolding settle
settle-Connected recv es w exhausted cs text law r e = cc
settle-Connected recv es w died cs text law r e = cc
settle-Connected recv es w (broke x) cs text law r e = prints-Connected recv es w cs text law r e

-- The stream client prints a message only if the very first entry that socket(2) takes could be
-- connected, whatever the rest of the list holds; all that it opened is then closed.
pub stream_client-Connected :
    (argc : ℕ) (es : List Entry) (recv : List Call → Descriptor → Recv) (cs : List Call)
    (text : List ℕ)
    → IsRecv recv
    → stream_client argc (some es) recv ≡ prints cs text
    → Connected es cs
unfolding stream_client
stream_client-Connected argc es recv cs text law e = elim (Bool-cases (argc == 2)) [
  | inl two ↦
      settle-Connected recv es (walk client_try unset es) (walk client_try unset es).ended cs text
        law (walk-Reports unset es) (rw two at e)
  | inr other ↦ let bad : exits ≡ prints cs text = rw other at e in cc
]
