-- ===== src/Nostr/Padding/RoundTrip.antt =====
-- Padding loses nothing, and what is accepted as padded is exactly what padding makes.
use sovran_bitcoin.Base.{
  ℕ, zero, suc, ◌+◌, ◌-◌, ◌*◌, ◌/◌, ◌%◌, ◌≤◌, ◌<◌, ◌≡◌, refl, inl, inr, true, false, Bool, List, [],
  ◌∷◌, ◌++◌, length, length-append, take, drop, replicate, take-append, drop-append,
  length-replicate, length-take-le, length-drop-le, append-take-drop, ltb, ◌||◌, not, ◌==◌, ==_iff,
  ==_refl, Bool-cases, arith,
}
use sovran_bitcoin.Base.Monad.{Exc, Result, ok, raised}
use sovran_bitcoin.Nostr.Padding.Length.{calc_padded_len-bounds}
use sovran_bitcoin.Nostr.Padding.{
  calc_padded_len, prefix, with_zeros, pad, any_set, unpad_checked, unpad_body, unpad,
}

zeros-unset : (k : ℕ) → any_set (replicate k 0) ≡ false
unfolding any_set
zeros-unset zero = refl
zeros-unset (suc k) = zeros-unset k

unset-zeros : (bs : List ℕ) → any_set bs ≡ false → bs ≡ replicate (length bs) 0
unfolding any_set
unset-zeros [] h = refl
unset-zeros (b ∷ bs) h = elim (Bool-cases (b == 0)) [
  | inl none_set ↦
      let zero_first : b ≡ 0 = (==_iff b 0).0 none_set in
      rw zero_first (rw (← unset-zeros bs (rest b (any_set bs) h)) refl)
  | inr set ↦ absurd (cc (first_set b (any_set bs) set))
]
  where
    rest : (b : ℕ) (c : Bool) → (not (b == 0) || c) ≡ false → c ≡ false
    rest b c h = ground arith

    first_set : (b : ℕ) (c : Bool) → (b == 0) ≡ false → (not (b == 0) || c) ≡ true
    first_set b c h = ground arith

not_below : (a b : ℕ) → b ≤ a → ltb a b ≡ false
not_below a b h = ground arith

unpad_body-zeros :
    (raw : List ℕ) (k len : ℕ)
    → 1 ≤ length raw
    → calc_padded_len (length raw) ≡ ok len
    → length (raw ++ replicate k 0) ≡ len
    → length raw ≤ len
    → unpad_body (length raw) (raw ++ replicate k 0) ≡ ok raw
unfolding unpad_body
unpad_body-zeros raw k len low known whole fits =
    rw
      (
        whole,
        not_below (length raw) 1 low,
        not_below len (length raw) fits,
        known,
        unpad_checked,
        whole,
        ==_refl len,
        drop-append raw (replicate k 0),
        zeros-unset k,
        take-append raw (replicate k 0),
      )
      refl

-- A text of 1 to 65535 bytes can be padded, and unpadding gives it back.
pub unpad-pad :
    (raw : List ℕ)
    → 1 ≤ length raw
    → length raw ≤ 65535
    → (padded : List ℕ) × (pad raw ≡ ok padded) × (unpad padded ≡ ok raw)
unfolding pad unpad
unpad-pad raw low high =
    let (len, known, least, fits, most) = calc_padded_len-bounds (length raw) low high in
    let zeros : List ℕ = replicate (len - length raw) 0 in
    let n : length raw / 256 * 256 + length raw % 256 ≡ length raw = omega arith in
    let whole : length (raw ++ zeros) ≡ len =
      omega (arith, length-append raw zeros, length-replicate {A = ℕ} (len - length raw) 0) in
    (
      prefix (length raw) ++ (raw ++ zeros),
      rw (known, with_zeros) refl,
      rw (n, not_below (length (raw ++ zeros)) 32 (omega (arith, whole)))
          (unpad_body-zeros raw (len - length raw) len low known whole fits),
    )

-- What the tests of `unpad` leave.
accepted :
    (n len : ℕ) (body raw : List ℕ)
    → unpad_checked n body (ok len) ≡ ok raw
    → (length body ≡ len) × (any_set (drop n body) ≡ false) × (take n body ≡ raw)
accepted n len body raw h = elim (Bool-cases (length body == len)) [
  | inr other ↦ absurd (clash (rw other at h))
  | inl same ↦ elim (Bool-cases (any_set (drop n body))) [
    | inl set ↦ absurd (clash (rw (same, set) at h))
    | inr unset ↦ ((==_iff (length body) len).0 same, unset, ok_inj (rw (same, unset) at h))
  ]
]
  where
    clash : ◌≡◌ {A = Result (List ℕ)} (raised Exc.value_error) (ok raw) → ⊥
    clash e = cc

    ok_inj : {x : List ℕ} → ◌≡◌ {A = Result (List ℕ)} (ok x) (ok raw) → x ≡ raw
    ok_inj e = cc

checked :
    (n : ℕ) (body raw : List ℕ) (x : Result ℕ)
    → unpad_checked n body x ≡ ok raw
    → (len : ℕ) × (x ≡ ok len)
      × (length body ≡ len)
      × (any_set (drop n body) ≡ false)
      × (take n body ≡ raw)
checked n body raw (raised e) h = absurd (cc)
checked n body raw (ok len) h =
    let (whole, unset, text) = accepted n len body raw h in (len, refl, whole, unset, text)

-- The padding of what was taken out.
pads :
    (a b len : ℕ) (body raw : List ℕ)
    → b < 256
    → a * 256 + b ≤ length body
    → take (a * 256 + b) body ≡ raw
    → length body ≡ len
    → any_set (drop (a * 256 + b) body) ≡ false
    → calc_padded_len (a * 256 + b) ≡ ok len
    → pad raw ≡ ok (a ∷ b ∷ body)
unfolding pad
pads a b len body raw byte fits text whole unset known =
    let n = a * 256 + b in
    let size : length raw ≡ n = rw (← text) (length-take-le {A = ℕ} n body fits) in
    let rest : length (drop n body) ≡ len - n = omega (arith, length-drop-le {A = ℕ} n body fits) in
    let zeros : drop n body ≡ replicate (len - n) 0 =
      rw (← rest) (unset-zeros (drop n body) unset) in
    let high : n / 256 ≡ a = omega arith in
    let low : n % 256 ≡ b = omega arith in
    rw (size, known, with_zeros, size, high, low, ← zeros, ← text, append-take-drop {A = ℕ} n body)
      refl

-- Whatever bytes are accepted as padded, the text that they give pads to these very bytes.
pub pad-unpad :
    (a b : ℕ) (body raw : List ℕ)
    → b < 256
    → unpad (a ∷ b ∷ body) ≡ ok raw
    → pad raw ≡ ok (a ∷ b ∷ body)
unfolding unpad unpad_body
pad-unpad a b body raw byte h = elim (Bool-cases (ltb (length body) 32)) [
  | inl short ↦ absurd (clash (rw short at h))
  | inr long ↦ elim (Bool-cases (ltb (a * 256 + b) 1 || ltb (length body) (a * 256 + b))) [
    | inl bad ↦ absurd (clash (rw (long, bad) at h))
    | inr fine ↦
        let n = a * 256 + b in
        let (len, known, whole, unset, text) =
          checked n body raw (calc_padded_len n) (rw (long, fine) at h) in
        pads a b len body raw byte (within n (length body) (ltb n 1) fine) text whole unset known
  ]
]
  where
    clash : ◌≡◌ {A = Result (List ℕ)} (raised Exc.value_error) (ok raw) → ⊥
    clash e = cc

    within : (n m : ℕ) (c : Bool) → (c || ltb m n) ≡ false → n ≤ m
    within n m c h = ground arith
