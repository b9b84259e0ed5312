-- ===== src/Lnurl/Limit.antt =====
-- The rate limiters `_check_rate_limit` and `_check_alias_rate_limit`: the same code over two bucket
-- tables with two limits. Times are whole ticks of `time.monotonic`; `cutoff` is `now - window`, so a
-- time is kept while it is at most `window` old. A bucket that is not there is empty (`defaultdict`).
use text.Mathlib.TextPositions.{eq_refl}
use sovran_bitcoin.Base.{
  ℕ, ◌+◌, ◌≤◌, String, ◌≡◌, refl, inl, inr, Bool, true, false, List, [], ◌∷◌, ◌++◌, length,
  length-append, select, ltb, leb, All, Bool-cases, arith, if◌then◌else◌,
}
use sovran_bitcoin.Base.Text.{◌=ₛ◌}

abbrev pub Buckets : Type 0
Buckets = String → List ℕ

-- `while bucket and bucket[0] < cutoff: bucket.pop(0)`
unfoldable pub prune : ℕ → ℕ → List ℕ → List ℕ
prune window now [] = []
prune window now (t ∷ ts) =
    let rest = prune window now ts in if ltb (t + window) now then rest else t ∷ ts

abbrev pub put : String → List ℕ → Buckets → Buckets
put key bucket buckets k = if k =ₛ key then bucket else buckets k

abbrev pub admit : ℕ → ℕ → List ℕ → Bool × List ℕ
admit limit now bucket =
    if leb limit (length bucket) then (false, bucket) else (true, bucket ++ (now ∷ []))

-- Whether the request is allowed, and the buckets behind it.
unfoldable pub check_rate_limit : ℕ → ℕ → ℕ → String → Buckets → Bool × Buckets
unfolding prune
check_rate_limit window limit now key buckets =
    let (allowed, bucket) = admit limit now (prune window now (buckets key)) in
    (allowed, put key bucket buckets)

prune-length : (window now : ℕ) (ts : List ℕ) → length (prune window now ts) ≤ length ts
unfolding prune
prune-length window now [] = omega arith
prune-length window now (t ∷ ts) = elim (Bool-cases (ltb (t + window) now)) [
  | inl old ↦ rw old (omega (arith, prune-length window now ts))
  | inr new ↦ rw new (omega arith)
]

admit-length :
    (limit now : ℕ) (bucket : List ℕ)
    → length bucket ≤ limit
    → length (admit limit now bucket).1 ≤ limit
admit-length limit now bucket h = elim (Bool-cases (leb limit (length bucket))) [
  | inl full ↦ rw full h
  | inr free ↦ rw (free, length-append bucket (now ∷ [])) (ground arith)
]

-- Where no bucket holds more times than the limit, none does behind a request for any key, at any
-- time; and the request changes the bucket of its own key only.
pub check_rate_limit-bounded :
    (window limit now : ℕ) (key other : String) (buckets : Buckets)
    → ((k : String) → length (buckets k) ≤ limit)
    → let after = (check_rate_limit window limit now key buckets).1 in
      (length (after other) ≤ limit)
      × (after other ≡ (if other =ₛ key then after key else buckets other))
unfolding check_rate_limit
check_rate_limit-bounded window limit now key other buckets bound =
    elim (Bool-cases (other =ₛ key)) [
      | inl same ↦ rw same (
        admit-length limit now (prune window now (buckets key))
            (omega (arith, prune-length window now (buckets key), bound key)),
        rw (eq_refl key) refl,
      )
      | inr apart ↦ rw apart (bound other, refl)
    ]

-- The times of a bucket, oldest first.
abbrev pub Ascends : List ℕ → Type 0
Ascends [] = Unit
Ascends (t ∷ ts) = All (λ u. t ≤ u) ts × Ascends ts

abbrev pub recent : ℕ → ℕ → List ℕ → List ℕ
recent window now ts = select (λ t. leb now (t + window)) ts

recent-All :
    (window now t : ℕ) (ts : List ℕ)
    → now ≤ t + window
    → All (λ u. t ≤ u) ts
    → recent window now ts ≡ ts
recent-All window now t [] le later = refl
recent-All window now t (u ∷ us) le later =
    let rest : recent window now us ≡ us = recent-All window now t us le later.1 in
    let first_later : t ≤ u = later.0 in ground arith

prune-recent :
    (window now : ℕ) (ts : List ℕ) → Ascends ts → prune window now ts ≡ recent window now ts
unfolding prune
prune-recent window now [] a = refl
prune-recent window now (t ∷ ts) a = elim (Bool-cases (ltb (t + window) now)) [
  | inl old ↦ rw old (ground (arith, prune-recent window now ts a.1))
  | inr new ↦
      let rest : recent window now ts ≡ ts = recent-All window now t ts (ground arith) a.0 in
      rw new (ground arith)
]

-- Where a key's times stand in order, its request is allowed exactly if fewer than the limit of them
-- are still in the window; behind it the bucket holds the recent times, and this one if it was allowed.
pub check_rate_limit-window :
    (window limit now : ℕ) (key : String) (buckets : Buckets)
    → Ascends (buckets key)
    → let kept = recent window now (buckets key) in
      let allowed = ltb (length kept) limit in
      ((check_rate_limit window limit now key buckets).0 ≡ allowed)
      × ((check_rate_limit window limit now key buckets).1 key
          ≡ (if allowed then kept ++ (now ∷ []) else kept))
unfolding check_rate_limit
check_rate_limit-window window limit now key buckets a =
    rw (eq_refl key, prune-recent window now (buckets key) a) (ground arith, ground arith)
