-- ===== src/Raw/Tests.antt =====
-- Checksums at concrete inputs, on a machine that stores the low byte first.
use c_basics.Prelude.{ℕ, ◌+◌, ◌*◌, ◌≡◌, refl, List, [], ◌∷◌, ◌++◌, arith}
use c_basics.Raw.Checksum.{checksum}
use c_basics.Raw.Verify.{IsWord, checksum-verifies}
use c_basics.Prelude.{◌≤◌, ◌+◌, true, false, some}
use c_basics.Sockets.Walk.{Entry, Call, opens, closes}
use c_basics.Sockets.Walk
use c_basics.Sockets.RawListener.{main_start}
use c_basics.Raw.Server.{Round, in_child, in_parent, failed, serve, main, kept, main_lem}

abbrev little : ℕ → ℕ → ℕ
little b c = b + 256 * c

little-IsWord : IsWord little
little-IsWord b c h k = omega arith

abbrev packet : List ℕ
packet = 1 ∷ 2 ∷ 255 ∷ 255 ∷ 7 ∷ 9 ∷ []

-- 0x0201 + 0xffff + 0x0907 folds to 0x0b08.
packet_sum : checksum little packet ≡ 0xf4f7
unfolding checksum
packet_sum = refl

checksum-verifies_example : checksum little (packet ++ (0xf7 ∷ 0xf4 ∷ [])) ≡ 0
unfolding checksum
checksum-verifies_example =
    checksum-verifies little little-IsWord packet 0xf7 0xf4 (omega arith) tt (omega arith)
      (omega arith) (omega arith) refl

-- An address that everything works for, and two connections on descriptor 7.
abbrev addresses : List Entry
addresses =
    record { ai_family = 2; socket = some 3; setsockopt = true; bind = true; connect = true } ∷ []

abbrev rounds : List Round
rounds =
    record { sigaction = true; accept = some 7; fork = in_parent }
    ∷ record { sigaction = true; accept = some 7; fork = in_child }
    ∷ []

main_lem_example :
    ((cs : List Call) × (main_start (λ cs d. true) (some addresses) ≡ Walk.exit_failure cs)
      × (main (λ cs d. true) (some addresses) (some true) rounds
          ≡ record { calls = cs; ending = failed }))
    × ((serve false rounds).calls ≡ [])
    × (closes 7 (serve true rounds).calls ≤ opens 7 (serve true rounds).calls)
    × (opens 7 (serve true rounds).calls
        ≤ closes 7 (serve true rounds).calls + kept (serve true rounds).ending)
main_lem_example = main_lem (λ cs d. true) (some addresses) (some true) rounds 7
