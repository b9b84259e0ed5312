-- ===== src/Nostr/Padding/Length.antt =====
-- How much NIP-44 pads.
use native.Mathlib.Nat.{mod-lt, div-add-mod, two-pow-succ}
use sovran_bitcoin.Base.{
  ℕ, zero, suc, ◌+◌, ◌-◌, ◌*◌, ◌/◌, ◌^◌, ◌≤◌, ◌<◌, ◌≡◌, refl, inl, inr, ◌==◌, Bool-cases, arith,
  dec_lt,
}
use sovran_bitcoin.Base.Monad.{ok}
use sovran_bitcoin.Nostr.Padding.{bits_left, max, chunk_of, rounded, calc_padded_len}

bits_zero : (fuel : ℕ) → bits_left fuel 0 ≡ 0
unfolding bits_left
bits_zero zero = refl
bits_zero (suc fuel) = refl

-- One bit more, from what the half needs.
one_bit_more :
    (fuel n : ℕ)
    → 0 < n
    → (0 < n / 2 → 2 ^ bits_left fuel (n / 2) ≤ 2 * (n / 2))
    → 2 ^ (bits_left fuel (n / 2) + 1) ≤ 2 * n
one_bit_more fuel n h half =
    let e : bits_left fuel (n / 2) + 1 ≡ suc (bits_left fuel (n / 2)) = omega arith in
    rw (e, two-pow-succ (bits_left fuel (n / 2)))
      (elim (dec_lt 0 (n / 2)) [
        | yes more ↦ omega (arith, half more)
        | no last ↦
            let none_left : n / 2 ≡ 0 = omega arith in rw (none_left, bits_zero fuel) (omega arith)
      ])

-- The next power of two is at most twice the number.
power_of_bits : (fuel n : ℕ) → 0 < n → n ≤ fuel → 2 ^ bits_left fuel n ≤ 2 * n
unfolding bits_left
power_of_bits zero n h k = absurd (omega arith)
power_of_bits (suc fuel) n h k = elim (Bool-cases (n == 0)) [
  | inl none_left ↦ absurd (ground arith)
  | inr some_left ↦
      rw some_left (one_bit_more fuel n h (λ more. power_of_bits fuel (n / 2) more (omega arith)))
]

rounded_bounds : (chunk n : ℕ) → 0 < chunk → (n ≤ rounded chunk n) × (rounded chunk n < n + chunk)
rounded_bounds chunk n h =
    let split = div-add-mod (n + chunk - 1) chunk in
    let small = mod-lt (n + chunk - 1) h in
    (omega (arith, split, small), omega (arith, split, small))

chunk_bounds : (n : ℕ) → 2 ≤ n → (32 ≤ chunk_of n) × (chunk_of n ≤ max 32 (n / 4))
unfolding chunk_of
chunk_bounds n h = ground (arith, power_of_bits (n - 1) (n - 1))

-- A text of 1 to 65535 bytes has a padded length: at least 32, no less than its own, and more by less
-- than 32 bytes or a quarter of its own, whichever is more.
pub calc_padded_len-bounds :
    (n : ℕ)
    → 1 ≤ n
    → n ≤ 65535
    → (padded_len : ℕ) × (calc_padded_len n ≡ ok padded_len)
      × (32 ≤ padded_len)
      × (n ≤ padded_len)
      × (padded_len < n + max 32 (n / 4))
unfolding calc_padded_len
calc_padded_len-bounds n low high = elim (dec_lt 32 n) [
  | no short ↦ (32, ground arith, omega arith, omega arith, ground arith)
  | yes long ↦
      let chunk = chunk_bounds n (omega arith) in
      let whole = rounded_bounds (chunk_of n) n (omega (arith, chunk.0)) in
      (
        rounded (chunk_of n) n,
        ground arith,
        omega (arith, whole.0),
        whole.0,
        ground (arith, whole.1, chunk.1),
      )
]
