-- ===== src/Transfer/Stripes/Tests.antt =====
-- Concrete stripes, and the theorems on them at concrete inputs.
use networkcopy_speed.Common.{ℕ, ◌+◌, ◌≤◌, ◌<◌, ◌≡◌, refl, [], ◌∷◌, ◌++◌, ok, arith}
use networkcopy_speed.Transfer.Stripes.Cover.{Carries, stripe_range-Carries, stripe_range-le}
use networkcopy_speed.Transfer.Stripes.Handshake.{HandshakeFits, read_handshake-write_handshake}
use networkcopy_speed.Transfer.Stripes.Accepted.{Announces, validate_handshake_once}
use networkcopy_speed.Transfer.Stripes.{
  StripeHandshake, div_ceil, stripe_range, write_handshake, read_handshake, validate_handshake,
}

first_stripe : stripe_range 17 0 4 ≡ ok (0, 5)
unfolding stripe_range div_ceil
first_stripe = refl

last_stripe : stripe_range 17 3 4 ≡ ok (15, 2)
unfolding stripe_range div_ceil
last_stripe = refl

stripe_range-Carries_example :
    (i : ℕ) × (i < 4) × Carries 17 i 4 16 × ((j : ℕ) → j < 4 → Carries 17 j 4 16 → j ≡ i)
stripe_range-Carries_example =
    stripe_range-Carries 17 4 16 (omega arith) (omega arith) (search arith) (omega arith)

stripe_range-le_example :
    (offset length : ℕ) × (stripe_range 17 3 4 ≡ ok (offset, length)) × (offset + length ≤ 17)
stripe_range-le_example = stripe_range-le 17 3 4 (omega arith) (omega arith) (omega arith)

abbrev last_handshake : StripeHandshake
last_handshake = record { stream_id = 3; stream_count = 4; file_len = 17; offset = 15; length = 2 }

last_handshake-HandshakeFits : HandshakeFits last_handshake
last_handshake-HandshakeFits = record {
  stream_id = omega arith;
  stream_count = omega arith;
  file_len = omega arith;
  offset = omega arith;
  length = omega arith;
}

read_handshake-write_handshake_example :
    read_handshake (write_handshake last_handshake ++ 7 ∷ []) ≡ ok (last_handshake, 7 ∷ [])
read_handshake-write_handshake_example =
    read_handshake-write_handshake last_handshake (7 ∷ []) last_handshake-HandshakeFits

validate_handshake_once_example :
    (h : StripeHandshake) × (validate_handshake h 17 4 ≡ ok tt)
    × Announces h 16
    × ((g : StripeHandshake) → validate_handshake g 17 4 ≡ ok tt → Announces g 16 → g ≡ h)
validate_handshake_once_example =
    validate_handshake_once 17 4 16 (omega arith) (omega arith) (search arith) (omega arith)

last_is_accepted : validate_handshake last_handshake 17 4 ≡ ok tt
unfolding validate_handshake stripe_range div_ceil
last_is_accepted = refl
