-- ===== src/FixedPoint/Convert.antt =====
-- QuickAndDirtyPortableFloatingPoint.c: floats as 31 bits of fixed point and a sign.
use c_basics.Prelude.{
  ℕ, ◌+◌, ◌*◌, ◌/◌, ◌%◌, ◌^◌, ◌≤◌, ◌<◌, ◌≡◌, refl, ap, ◌∙◌, Bool, ◌&&◌, arith, ltb, ◌==◌,
  if◌then◌else◌,
}

-- The float mantissa / (65536 * scale), with its sign. For the floats of C the scale is a power of
-- two and the operations of htonf are exact.
pub record Float : Type 0 where
  pub negative : Bool
  pub mantissa : ℕ
  pub scale : ℕ

-- `htonf`. The fields do not overlap, so `|` is `+`. A zero is not below zero, whatever its sign.
unfoldable pub htonf : Float → ℕ
htonf f =
    let sign = if f.negative && ltb 0 f.mantissa then 1 else 0 in
    let whole = f.mantissa / f.scale / 65536 in
    let fraction = f.mantissa / f.scale % 65536 in
    whole % 2 ^ 15 * 2 ^ 16 + sign * 2 ^ 31 + fraction % 2 ^ 16

-- `ntohf`. `round` is the rounding of the one sum, in units of 1 / 65536.
unfoldable pub ntohf : (ℕ → ℕ) → ℕ → Float
ntohf round point = record {
  negative = point / 2 ^ 31 % 2 == 1;
  mantissa = round (point / 2 ^ 16 % 2 ^ 15 * 65536 + point % 2 ^ 16);
  scale = 1;
}

-- The fields of the 32 bits.
unfoldable pub packed : ℕ → ℕ → ℕ
packed sign q = q / 65536 % 2 ^ 15 * 2 ^ 16 + sign * 2 ^ 31 + q % 65536 % 2 ^ 16

packed_fields :
    (sign q : ℕ)
    → sign ≤ 1
    → q < 2 ^ 31
    → (packed sign q < 2 ^ 32)
      × (packed sign q / 2 ^ 31 % 2 ≡ sign)
      × (packed sign q / 2 ^ 16 % 2 ^ 15 * 65536 + packed sign q % 2 ^ 16 ≡ q)
unfolding packed
packed_fields sign q h k = omega arith

sign_of : Float → ℕ
sign_of f = if f.negative && ltb 0 f.mantissa then 1 else 0

htonf-packed : (f : Float) → htonf f ≡ packed (sign_of f) (f.mantissa / f.scale)
unfolding htonf packed sign_of
htonf-packed f = refl

sign_of-negative : (f : Float) → 0 < f.mantissa → (sign_of f ≤ 1) × ((sign_of f == 1) ≡ f.negative)
unfolding sign_of
sign_of-negative f h = ground arith

sent_float :
    (round : ℕ → ℕ) (f : Float)
    → ((x : ℕ) → x < 2 ^ 24 → round x ≡ x)
    → 0 < f.mantissa
    → f.mantissa / f.scale < 2 ^ 31
    → (htonf f < 2 ^ 32)
      × (ntohf round (htonf f)
          ≡ record { negative = f.negative; mantissa = round (f.mantissa / f.scale); scale = 1 })
      × (f.mantissa / f.scale < 2 ^ 24 → (ntohf round (htonf f)).mantissa ≡ f.mantissa / f.scale)
unfolding ntohf
sent_float round f exact positive small =
    let q = f.mantissa / f.scale in
    let (low, sign) = sign_of-negative f positive in
    let (fits, top, bottom) = packed_fields (sign_of f) q low small in
    let point = htonf-packed f in
    (
      omega (arith, point, fits),
      (λ i. record {
        negative = (ap (λ w. w / 2 ^ 31 % 2 == 1) point ∙ ap (λ b. b == 1) top ∙ sign) i;
        mantissa =
            (ap (λ w. round (w / 2 ^ 16 % 2 ^ 15 * 65536 + w % 2 ^ 16)) point ∙ ap round bottom) i;
        scale = 1;
      }),
      λ below.
          ap (λ w. round (w / 2 ^ 16 % 2 ^ 15 * 65536 + w % 2 ^ 16)) point
          ∙ ap round bottom
          ∙ exact q below,
    )

-- A float below 32768 comes back cut to a multiple of 1 / 65536 and rounded as floats are, with its
-- sign, and is sent in 32 bits; one below 256 comes back cut and not rounded. Assumed: the floats
-- are not zero, and sums of less than 25 bits are exact.
pub ntohf-htonf :
    (round : ℕ → ℕ) (f short : Float)
    → ((x : ℕ) → x < 2 ^ 24 → round x ≡ x)
    → 0 < f.mantissa
    → f.mantissa / f.scale < 2 ^ 31
    → 0 < short.mantissa
    → short.mantissa / short.scale < 2 ^ 24
    → (htonf f < 2 ^ 32)
      × (ntohf round (htonf f)
          ≡ record { negative = f.negative; mantissa = round (f.mantissa / f.scale); scale = 1 })
      × ((ntohf round (htonf short)).mantissa ≡ short.mantissa / short.scale)
ntohf-htonf round f short exact positive small positive' small' =
    let (fits, back, cut) = sent_float round f exact positive small in
    let (fits', back', cut') = sent_float round short exact positive' (omega (arith, small')) in
    (fits, back, cut' small')
