-- ===== src/Raw/Checksum.antt =====
-- `checksum` of UnixRawNetworkLayerSocketServer.c: the checksum of IP headers.
use c_basics.Prelude.{ℕ, ◌+◌, ◌/◌, ◌%◌, ◌^◌, List, [], ◌∷◌}
use c_basics.Prelude.Words.{u16, u32, not32}

-- The two carries, and the complement cut to 16 bits.
unfoldable pub fold_sum : ℕ → ℕ
fold_sum sum =
    let once = u32 (sum / 2 ^ 16 + sum % 2 ^ 16) in
    let twice = u32 (once + once / 2 ^ 16) in u16 (not32 twice)

-- `word lo hi` is the `unsigned short` whose bytes stand at increasing addresses: the byte order of
-- the machine is left open.
module _ (word : ℕ → ℕ → ℕ) where
  -- The loop over 16-bit words and the odd byte at the end, on an `unsigned int`.
  unfoldable pub sum_words : ℕ → List ℕ → ℕ
  sum_words sum [] = sum
  sum_words sum (b ∷ []) = u32 (sum + b)
  sum_words sum (b ∷ c ∷ bytes) = sum_words (u32 (sum + word b c)) bytes

  unfoldable pub checksum : List ℕ → ℕ
  unfolding sum_words fold_sum
  checksum bytes = fold_sum (sum_words 0 bytes)
