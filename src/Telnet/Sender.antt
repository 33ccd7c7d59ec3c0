-- ===== src/Telnet/Sender.antt =====
-- The sending loop of UnixTelnetClient.c, over the lines of fgets(3).
use c_basics.Prelude.{
  ℕ, suc, ◌-◌, ◌<◌, ◌≡◌, refl, ap, ◌∙◌, Bool, true, false, Option, none, some, List, [], ◌∷◌, ◌++◌,
  map, arith, if◌then◌else◌, length,
}
use c_basics.SelectServer.Text.{c_string, zeros}
use c_basics.SelectServer.Memory.{NulFree, c_string-text}

-- The buffer after fgets(3): a line with the NULs behind it, or, at the end of the input, the NULs
-- of memset(3).
unfoldable pub filled : Option (List ℕ) → List ℕ
filled none = zeros 2048
filled (some line) = line ++ zeros (2048 - length line)

-- What send(2) was passed; whether the loop has ended, by exit(3) after a -1 or by a buffer without
-- NUL.
pub record Sender : Type 0 where
  pub sent : List (List ℕ)
  pub ended : Bool

unfoldable pub then_sent : List ℕ → Sender → Sender
then_sent message s = record s { sent = message ∷ s.sent }

-- The endless loop, over what fgets(3) reads and whether send(2) succeeds.
unfoldable pub send_lines : List (Option (List ℕ) × Bool) → Sender
unfolding filled then_sent
send_lines [] = record { sent = []; ended = false }
send_lines ((line, ok) ∷ rounds) =
    let rest = send_lines rounds in
    elim (c_string (filled line)) [
      | none ↦ record { sent = []; ended = true }
      | some message ↦
          if ok then then_sent message rest else record { sent = message ∷ []; ended = true }
    ]

-- A line as fgets(3) leaves it in 2048 bytes.
abbrev pub IsLine : Option (List ℕ) → Type 0
IsLine none = Unit
IsLine (some line) = NulFree line × (length line < 2048)

abbrev pub line_of : Option (List ℕ) → List ℕ
line_of none = []
line_of (some line) = line

filled-text : (line : Option (List ℕ)) → IsLine line → c_string (filled line) ≡ some (line_of line)
unfolding filled
filled-text none h = c_string-text [] 2047 tt
filled-text (some line) h =
    let room : 2048 - length line ≡ suc (2047 - length line) = omega (arith, h.1) in
    ap (λ k. c_string (line ++ zeros k)) room ∙ c_string-text line (2047 - length line) h.0

abbrev pub AreLines : List (Option (List ℕ)) → Type 0
AreLines [] = Unit
AreLines (l ∷ ls) = IsLine l × AreLines ls

-- As long as send(2) succeeds, each line is sent once and in order, and after the end of the input
-- the loop goes on and sends empty messages.
pub send_lines-all :
    (lines : List (Option (List ℕ)))
    → AreLines lines
    → send_lines (map (λ l. (l, true)) lines) ≡ record { sent = map line_of lines; ended = false }
unfolding send_lines then_sent
send_lines-all [] h = refl
send_lines-all (l ∷ ls) h = ground (arith, filled-text l h.0, send_lines-all ls h.1)
