-- ===== src/Nostr/Tests.antt =====
-- The theorems on padding and on the curve at concrete inputs.
use sovran_bitcoin.Base.{ℕ, ◌+◌, ◌/◌, ◌≤◌, ◌<◌, ◌≡◌, refl, some, List, [], ◌∷◌, replicate, arith}
use sovran_bitcoin.Base.Monad.{ok}
use sovran_bitcoin.Nostr.Curve.Reduced.{IsReduced, jac_mul-ends}
use sovran_bitcoin.Nostr.Curve.{Point, prime, generator, jac_mul, jac_double, to_affine}
use sovran_bitcoin.Nostr.Padding.Length.{calc_padded_len-bounds}
use sovran_bitcoin.Nostr.Padding.RoundTrip.{unpad-pad, pad-unpad}
use sovran_bitcoin.Nostr.Padding.{max, calc_padded_len, any_set, pad, unpad_body, unpad}

padded_1000 : calc_padded_len 1000 ≡ ok 1024
unfolding calc_padded_len
padded_1000 = refl

calc_padded_len-bounds_example :
    (padded_len : ℕ) × (calc_padded_len 1000 ≡ ok padded_len)
    × (32 ≤ padded_len)
    × (1000 ≤ padded_len)
    × (padded_len < 1000 + max 32 (1000 / 4))
calc_padded_len-bounds_example = calc_padded_len-bounds 1000 (omega arith) (omega arith)

abbrev hi : List ℕ
hi = 104 ∷ 105 ∷ []

unpad-pad_example : (padded : List ℕ) × (pad hi ≡ ok padded) × (unpad padded ≡ ok hi)
unpad-pad_example = unpad-pad hi (omega arith) (omega arith)

abbrev body : List ℕ
body = 104 ∷ 105 ∷ replicate 30 0

unpadded : unpad (0 ∷ 2 ∷ body) ≡ ok hi
unfolding unpad unpad_body calc_padded_len any_set
unpadded = refl

pad-unpad_example : pad hi ≡ ok (0 ∷ 2 ∷ body)
pad-unpad_example = pad-unpad 0 2 body hi (omega arith) unpadded

generator-IsReduced : IsReduced generator
unfolding prime
generator-IsReduced = record { x_below = omega arith; y_below = omega arith; z_below = omega arith }

jac_mul-ends_example : (r : Point) × (jac_mul 256 3 generator ≡ some r) × IsReduced r
jac_mul-ends_example = jac_mul-ends 3 generator generator-IsReduced

-- The double of the generator.
twice :
    to_affine (jac_double generator)
    ≡ some (
      0xC6047F9441ED7D6D3045406E95C07CD85C778E4B8CEF3CA7ABAC09B95C709EE5,
      0x1AE168FEA63DC339A3C58419466CEAEEF7F632653266D0E1236431A950CFE52A,
    )
unfolding to_affine jac_double
twice = refl
