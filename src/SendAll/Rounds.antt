-- ===== src/SendAll/Rounds.antt =====
-- sendAllOfMessage of UnixSocketSendAllBytes.c.
use c_basics.Prelude.{
  ℕ, ◌+◌, ◌≤◌, ◌≡◌, inl, inr, Bool, true, false, Option, none, some, List, [], ◌∷◌, arith, ltb,
  if◌then◌else◌, length, take, Option-cases,
}

-- What the calls of send(2) were passed, `totalSent`, and whether the last answer was -1.
pub record Sent : Type 0 where
  pub calls : List (List ℕ)
  pub total : ℕ
  pub fails : Bool

unfoldable pub after_call : List ℕ → Option Sent → Option Sent
after_call chunk none = none
after_call chunk (some s) = some (record s { calls = chunk ∷ s.calls })

-- The loop, over the answers of send(2), of which `none` is -1. It passes `buffer` and the eight
-- bytes of a pointer every time. `none`: the last call has not answered yet.
unfoldable pub send_rounds : List ℕ → ℕ → ℕ → List (Option ℕ) → Option Sent
unfolding after_call
send_rounds buffer length total [] =
    if ltb total length then none else some (record { calls = []; total = total; fails = false })
send_rounds buffer length total (none ∷ answers) =
    if ltb total length
    then some (record { calls = take 8 buffer ∷ []; total = total; fails = true })
    else some (record { calls = []; total = total; fails = false })
send_rounds buffer length total (some n ∷ answers) =
    let rest = send_rounds buffer length (total + n) answers in
    if ltb total length
    then after_call (take 8 buffer) rest
    else some (record { calls = []; total = total; fails = false })

-- With `*length` above 0; otherwise the answer is read from an uninitialised variable.
unfoldable pub send_all_of_message : List ℕ → ℕ → List (Option ℕ) → Option Sent
unfolding send_rounds
send_all_of_message buffer length answers = send_rounds buffer length 0 answers

abbrev pub Repeats : List ℕ → List (List ℕ) → Type 0
Repeats chunk [] = Unit
Repeats chunk (c ∷ calls) = (c ≡ chunk) × Repeats chunk calls

send_rounds-Repeats :
    (buffer : List ℕ) (length total : ℕ) (answers : List (Option ℕ)) {s : Sent}
    → send_rounds buffer length total answers ≡ some s
    → Repeats (take 8 buffer) s.calls × (s.fails ≡ false → length ≤ s.total)
unfolding send_rounds after_call
send_rounds-Repeats buffer length total [] {s} e = ground (arith, e)
send_rounds-Repeats buffer length total (none ∷ answers) {s} e = ground (arith, e)
send_rounds-Repeats buffer length total (some n ∷ answers) {s} e =
    elim (Option-cases (send_rounds buffer length (total + n) answers)) [
      | inl stuck ↦ ground (arith, e, stuck)
      | inr (later, given) ↦
          ground (
            arith,
            e,
            given,
            send_rounds-Repeats buffer length (total + n) answers {s = later} given,
          )
    ]

-- When sendAllOfMessage returns, every call of send(2) was passed the same first eight bytes of the
-- buffer, whatever the earlier ones took, and after success the total is at least the length.
pub send_all_of_message-Repeats :
    (buffer : List ℕ) (length : ℕ) (answers : List (Option ℕ)) {s : Sent}
    → send_all_of_message buffer length answers ≡ some s
    → Repeats (take 8 buffer) s.calls × (s.fails ≡ false → length ≤ s.total)
unfolding send_all_of_message
send_all_of_message-Repeats buffer length answers {s} e =
    send_rounds-Repeats buffer length 0 answers {s = s} e
