-- ===== src/Raw/Verify.antt =====
-- What the checksum of UnixRawNetworkLayerSocketServer.c verifies.
use c_basics.Prelude.{
  ℕ, ◌+◌, ◌*◌, ◌%◌, ◌^◌, ◌≤◌, ◌<◌, ◌≡◌, ◌↔◌, ap, ◌∙◌, List, [], ◌∷◌, ◌++◌, arith, length, dec_lt,
  length-append,
}
use c_basics.Prelude.Words.{u32}
use c_basics.Raw.Checksum.{sum_words, fold_sum, checksum}

-- Two bytes make a 16-bit word.
abbrev pub IsWord : (ℕ → ℕ → ℕ) → Type 0
IsWord word = (b c : ℕ) → b < 256 → c < 256 → word b c < 2 ^ 16

abbrev pub Bytes : List ℕ → Type 0
Bytes [] = Unit
Bytes (b ∷ bs) = (b < 256) × Bytes bs

fold_sum-lt : (t : ℕ) → fold_sum t < 2 ^ 16
unfolding fold_sum
fold_sum-lt t = omega arith

fold_sum-mod : (t : ℕ) → t < 2 ^ 32 → (fold_sum t + t) % 65535 ≡ 0
unfolding fold_sum
fold_sum-mod t h = omega arith

fold_sum-zero : (t : ℕ) → t < 2 ^ 32 → (fold_sum t ≡ 0) ↔ ((0 < t) × (t % 65535 ≡ 0))
unfolding fold_sum
fold_sum-zero t h = (λ e. omega arith, λ e. omega arith)

module _ (word : ℕ → ℕ → ℕ) (law : IsWord word) where
  -- The sum of the words as a number, with no wrap.
  abbrev pub total : List ℕ → ℕ
  total [] = 0
  total (b ∷ []) = b
  total (b ∷ c ∷ bytes) = word b c + total bytes

  total-le : (bytes : List ℕ) → Bytes bytes → 2 * total bytes ≤ 65535 * (length bytes + 1)
  total-le [] h = omega arith
  total-le (b ∷ []) h = omega arith
  total-le (b ∷ c ∷ bytes) h = omega (arith, law b c h.0 h.1.0, total-le bytes h.1.1)

  -- Up to 128 KiB nothing wraps.
  sum_words-total :
      (bytes : List ℕ) (sum : ℕ)
      → sum + total bytes < 2 ^ 32
      → sum_words word sum bytes ≡ sum + total bytes
  unfolding sum_words
  sum_words-total [] sum h = omega arith
  sum_words-total (b ∷ []) sum h = omega arith
  sum_words-total (b ∷ c ∷ bytes) sum h =
      let fits : u32 (sum + word b c) ≡ sum + word b c = omega arith in
      rw fits (sum_words-total bytes (sum + word b c) (omega arith) ∙ omega arith)

  checksum-fold :
      (bytes : List ℕ)
      → Bytes bytes
      → length bytes ≤ 2 ^ 17
      → (checksum word bytes ≡ fold_sum (total bytes)) × (total bytes < 2 ^ 32)
  unfolding checksum
  checksum-fold bytes h len =
      let fits : total bytes < 2 ^ 32 = omega (arith, total-le bytes h) in
      (ap (fold_sum) (sum_words-total bytes 0 (omega arith) ∙ omega arith), fits)

  -- Of up to 128 KiB the checksum is the one's complement of the sum of the 16-bit words: together
  -- they are a multiple of 65535. It is 0 exactly if the sum is such a multiple itself and not 0.
  pub checksum_complement :
      (bytes : List ℕ)
      → Bytes bytes
      → length bytes ≤ 2 ^ 17
      → ((checksum word bytes + total bytes) % 65535 ≡ 0)
        × (checksum word bytes < 2 ^ 16)
        × ((checksum word bytes ≡ 0) ↔ ((0 < total bytes) × (total bytes % 65535 ≡ 0)))
  checksum_complement bytes h len =
      let (e, fits) = checksum-fold bytes h len in
      rw e (
        fold_sum-mod (total bytes) fits,
        fold_sum-lt (total bytes),
        fold_sum-zero (total bytes) fits,
      )

  -- An even number of bytes.
  abbrev pub Paired : List ℕ → Type 0
  Paired [] = Unit
  Paired (b ∷ []) = ⊥
  Paired (b ∷ c ∷ bytes) = Paired bytes

  total-append : (xs ys : List ℕ) → Paired xs → total (xs ++ ys) ≡ total xs + total ys
  total-append [] ys h = omega arith
  total-append (b ∷ []) ys h = absurd h
  total-append (b ∷ c ∷ xs) ys h = omega (arith, total-append xs ys h)

  Bytes-append : (xs ys : List ℕ) → Bytes xs → Bytes ys → Bytes (xs ++ ys)
  Bytes-append [] ys h k = k
  Bytes-append (x ∷ xs) ys h k = (h.0, Bytes-append xs ys h.1 k)

  -- A packet of an even number of bytes that ends in the two bytes of its own checksum verifies:
  -- the receiver computes 0.
  pub checksum-verifies :
      (bytes : List ℕ) (lo hi : ℕ)
      → Bytes bytes
      → Paired bytes
      → length bytes + 2 ≤ 2 ^ 17
      → lo < 256
      → hi < 256
      → word lo hi ≡ checksum word bytes
      → checksum word (bytes ++ (lo ∷ hi ∷ [])) ≡ 0
  checksum-verifies bytes lo hi h even len lo8 hi8 e =
      let all : Bytes (bytes ++ (lo ∷ hi ∷ [])) =
        Bytes-append bytes (lo ∷ hi ∷ []) h (omega arith) in
      let (sum, small, zero_iff) = checksum_complement bytes h (omega arith) in
      let (sum', small', zero_iff') =
        checksum_complement (bytes ++ (lo ∷ hi ∷ [])) all
          (omega (arith, length-append {0} bytes (lo ∷ hi ∷ []))) in
      let positive : 0 < total bytes + checksum word bytes = elim (dec_lt 0 (checksum word bytes)) [
        | yes p ↦ omega arith
        | no p ↦ let (q, _) = zero_iff.0 (omega arith) in omega arith
      ] in
      zero_iff'.1 (
        omega (arith, total-append bytes (lo ∷ hi ∷ []) even),
        omega (arith, total-append bytes (lo ∷ hi ∷ []) even),
      )

  -- Of a packet that verifies, a change of one aligned word is noticed, unless it changes 0 into
  -- 65535 or back: if both packets verify, the two words are equal modulo 65535.
  pub checksum_change :
      (xs ys : List ℕ) (b c b' c' : ℕ)
      → Bytes (xs ++ (b ∷ c ∷ ys))
      → Bytes (xs ++ (b' ∷ c' ∷ ys))
      → Paired xs
      → length (xs ++ (b ∷ c ∷ ys)) ≤ 2 ^ 17
      → checksum word (xs ++ (b ∷ c ∷ ys)) ≡ 0
      → checksum word (xs ++ (b' ∷ c' ∷ ys)) ≡ 0
      → word b c % 65535 ≡ word b' c' % 65535
  checksum_change xs ys b c b' c' h h' even len good good' =
      let first = (checksum_complement (xs ++ (b ∷ c ∷ ys)) h len).2.0 good in
      let second =
        (checksum_complement (xs ++ (b' ∷ c' ∷ ys)) h' (
            omega
              (arith, length-append {0} xs (b ∷ c ∷ ys), length-append {0} xs (b' ∷ c' ∷ ys)))).2.0
          good' in
      omega (
        arith,
        first.1,
        second.1,
        total-append xs (b ∷ c ∷ ys) even,
        total-append xs (b' ∷ c' ∷ ys) even,
      )
