-- ===== src/FileTransfer/Send.antt =====
-- The sending loop of `main2` in UnixFileTransferStreamClient.c.
use c_basics.Prelude.{
  ℕ, zero, suc, ◌+◌, Option, none, some, List, [], ◌++◌, ◌==◌, if◌then◌else◌, length, take, drop,
}

abbrev pub buffsize : ℕ
buffsize = 4096

-- How the loop ends: on an error of send(2), out of fuel, or with the bytes that went out and the
-- total that the client reports.
pub data Sent : Type 0 where
  send_failed : Sent
  no_fuel : Sent
  finished : List ℕ → ℕ → Sent

-- `file` is what fread(3) has not read yet, `st_size` the size that stat(2) told. send(2) answers
-- -1 (none) or how many bytes of a chunk it took; `k` numbers its calls. What a chunk keeps back is
-- not sent again.
unfoldable pub send_loop : (ℕ → List ℕ → Option ℕ) → ℕ → ℕ → ℕ → List ℕ → ℕ → List ℕ → Sent
send_loop send st_size zero k file byte_total out = no_fuel
send_loop send st_size (suc fuel) k file byte_total out =
    let chunk = take buffsize file in
    let bytes_read = length chunk in
    if bytes_read == 0
    then finished out byte_total
    else if byte_total == st_size
    then finished out byte_total
    else elim (send k chunk) [
      | none ↦ send_failed
      | some bytes_sent ↦
          send_loop send st_size fuel (suc k) (drop buffsize file) (byte_total + bytes_read)
            (out ++ take bytes_sent chunk)
    ]

-- The loop with enough fuel for any file: each round reads at least a byte.
unfoldable pub send_file : (ℕ → List ℕ → Option ℕ) → List ℕ → Sent
unfolding send_loop
send_file send file = send_loop send (length file) (suc (length file)) 0 file 0 []
