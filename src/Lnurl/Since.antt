-- ===== src/Lnurl/Since.antt =====
-- How a rate limiter's bucket counts the requests that it allowed from a time on, over one window.
use text.Mathlib.TextEquality.{eq_iff}
use sovran_bitcoin.Base.{
  ℕ, ◌+◌, ◌≤◌, String, ◌≡◌, refl, inl, inr, Bool, true, false, List, [], ◌∷◌, ◌++◌, length, leb,
  ltb, Bool-cases, arith,
}
use sovran_bitcoin.Base.Text.{◌=ₛ◌}
use sovran_bitcoin.Lnurl.Limit.{Buckets, prune, admit, check_rate_limit}

abbrev pub one_if : Bool → ℕ
one_if true = 1
one_if false = 0

-- The times of a bucket from t on.
abbrev pub since : ℕ → List ℕ → ℕ
since t [] = 0
since t (u ∷ us) = one_if (leb t u) + since t us

since-append : (t : ℕ) (us vs : List ℕ) → since t (us ++ vs) ≡ since t us + since t vs
since-append t [] vs = omega arith
since-append t (u ∷ us) vs = omega (arith, since-append t us vs)

one_if-le : (b : Bool) → one_if b ≤ 1
one_if-le true = omega arith
one_if-le false = omega arith

pub since-le : (t : ℕ) (us : List ℕ) → since t us ≤ length us
since-le t [] = omega arith
since-le t (u ∷ us) = omega (arith, since-le t us, one_if-le (leb t u))

since-prune :
    (window now t : ℕ) (us : List ℕ) → now ≤ t + window → since t (prune window now us) ≡ since t us
unfolding prune
since-prune window now t [] soon = refl
since-prune window now t (u ∷ us) soon = elim (Bool-cases (ltb (u + window) now)) [
  | inr kept ↦ rw kept refl
  | inl old ↦
      let gone : leb t u ≡ false = ground arith in
      rw (old, gone) (omega (arith, since-prune window now t us soon))
]

since-admit :
    (limit now t : ℕ) (us : List ℕ)
    → t ≤ now
    → since t (admit limit now us).1 ≡ one_if (admit limit now us).0 + since t us
since-admit limit now t us late = elim (Bool-cases (leb limit (length us))) [
  | inl full ↦ rw full (omega arith)
  | inr free ↦
      let counted : leb t now ≡ true = ground arith in
      let both : since t (us ++ (now ∷ [])) ≡ since t us + since t (now ∷ []) =
        since-append t us (now ∷ []) in
      rw (free, both, counted) (omega arith)
]

-- Within a window from t on, a bucket counts the requests that were allowed.
pub since-check :
    (window limit now t : ℕ) (key : String) (buckets : Buckets)
    → t ≤ now
    → now ≤ t + window
    → since t ((check_rate_limit window limit now key buckets).1 key)
      ≡ one_if (check_rate_limit window limit now key buckets).0 + since t (buckets key)
unfolding check_rate_limit
since-check window limit now t key buckets late soon =
    let same : (key =ₛ key) ≡ true = (eq_iff key key).1 refl in
    rw
      (
        same,
        since-admit limit now t (prune window now (buckets key)) late,
        since-prune window now t (buckets key) soon,
      )
      refl
