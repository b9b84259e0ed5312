-- ===== src/Nostr/Padding.antt =====
-- The padding of NIP-44: `nip44_calc_padded_len`, `nip44_pad` and `nip44_unpad`, on the bytes that the
-- text's UTF-8 encoding gives (encoding and decoding are left out). `value_error` is the ValueError.
pub mod Length
pub mod RoundTrip
use sovran_bitcoin.Base.{
  ℕ, zero, suc, ◌+◌, ◌-◌, ◌*◌, ◌/◌, ◌%◌, ◌^◌, Bool, true, false, List, [], ◌∷◌, ◌++◌, length, take,
  drop, replicate, leb, ltb, ◌==◌, ◌||◌, not, if◌then◌else◌,
}
use sovran_bitcoin.Base.Monad.{Exc, Result, ok, raised}

-- `n.bit_length()`: halving until nothing is left takes at most `n` rounds.
unfoldable pub bits_left : ℕ → ℕ → ℕ
bits_left zero n = 0
bits_left (suc fuel) n = let rest = bits_left fuel (n / 2) in if n == 0 then 0 else rest + 1

abbrev pub bit_length : ℕ → ℕ
bit_length n = bits_left n n

abbrev pub max : ℕ → ℕ → ℕ
max a b = if ltb a b then b else a

-- `max(32, next_power >> 3)`
unfoldable pub chunk_of : ℕ → ℕ
unfolding bits_left
chunk_of n = max 32 (2 ^ bit_length (n - 1) / 2 ^ 3)

abbrev pub rounded : ℕ → ℕ → ℕ
rounded chunk n = chunk * ((n + chunk - 1) / chunk)

unfoldable pub calc_padded_len : ℕ → Result ℕ
unfolding chunk_of
calc_padded_len n =
    if ltb n 1 || ltb 65535 n
    then raised Exc.value_error
    else if leb n 32
    then ok 32
    else ok (rounded (chunk_of n) n)

-- `struct.pack(">H", n)`
abbrev pub prefix : ℕ → List ℕ
prefix n = n / 256 ∷ n % 256 ∷ []

abbrev pub with_zeros : List ℕ → Result ℕ → Result (List ℕ)
with_zeros raw (raised e) = raised e
with_zeros raw (ok padded_len) =
    ok (prefix (length raw) ++ (raw ++ replicate (padded_len - length raw) 0))

unfoldable pub pad : List ℕ → Result (List ℕ)
pad raw = with_zeros raw (calc_padded_len (length raw))

-- `any(b != 0 for b in …)`
unfoldable pub any_set : List ℕ → Bool
any_set [] = false
any_set (b ∷ bs) = not (b == 0) || any_set bs

-- What is left of the tests once the prefix is read: the bytes behind it, and the length in it.
abbrev pub unpad_checked : ℕ → List ℕ → Result ℕ → Result (List ℕ)
unpad_checked n body (raised e) = raised e
unpad_checked n body (ok expected) =
    if not (length body == expected)
    then raised Exc.value_error
    else if any_set (drop n body)
    then raised Exc.value_error
    else ok (take n body)

unfoldable pub unpad_body : ℕ → List ℕ → Result (List ℕ)
unpad_body n body =
    if ltb n 1 || ltb (length body) n
    then raised Exc.value_error
    else unpad_checked n body (calc_padded_len n)

unfoldable pub unpad : List ℕ → Result (List ℕ)
unpad [] = raised Exc.value_error
unpad (a ∷ []) = raised Exc.value_error
unpad (a ∷ b ∷ body) =
    if ltb (length body) 32 then raised Exc.value_error else unpad_body (a * 256 + b) body
