-- ===== src/FixedPoint/Tests.antt =====
-- -2.75, and 1.5 with a bit that is cut off.
use c_basics.Prelude.{◌^◌, ◌<◌, ◌≡◌, refl, true, false, arith}
use c_basics.FixedPoint.Convert.{Float, htonf, ntohf, ntohf-htonf}

abbrev minus_two_and_three_quarters : Float
minus_two_and_three_quarters = record { negative = true; mantissa = 180224; scale = 1 }

sent : htonf minus_two_and_three_quarters ≡ 0x8002_c000
unfolding htonf
sent = refl

-- 1.5 + 1 / 131072
abbrev one_and_a_half : Float
one_and_a_half = record { negative = false; mantissa = 196609; scale = 2 }

ntohf-htonf_example :
    (htonf one_and_a_half < 2 ^ 32)
    × (ntohf (λ x. x) (htonf one_and_a_half)
        ≡ record { negative = false; mantissa = 98304; scale = 1 })
    × ((ntohf (λ x. x) (htonf minus_two_and_three_quarters)).mantissa ≡ 180224)
ntohf-htonf_example =
    ntohf-htonf (λ x. x) one_and_a_half minus_two_and_three_quarters (λ x h. refl) (omega arith)
      (omega arith) (omega arith) (omega arith)
