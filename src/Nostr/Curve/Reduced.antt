-- ===== src/Nostr/Curve/Reduced.antt =====
-- Multiplication ends, and every point that it passes has coordinates below the prime.
use native.Mathlib.Nat.{mod-lt, two-pow-succ}
use sovran_bitcoin.Base.{
  ℕ, zero, suc, ◌+◌, ◌/◌, ◌%◌, ◌^◌, ◌<◌, ◌≡◌, refl, inl, inr, true, false, Bool, some, ◌||◌, ◌==◌,
  Bool-cases, arith, if◌then◌else◌,
}
use sovran_bitcoin.Nostr.Curve.{
  prime, order, Point, infinity, jac_double, add_distinct, add_finite, jac_add, mul_loop, jac_mul,
}

pub record IsReduced (p : Point) : Type 0 where
  pub x_below : p.x < prime
  pub y_below : p.y < prime
  pub z_below : p.z < prime

prime_positive : 0 < prime
unfolding prime
prime_positive = omega arith

infinity-IsReduced : IsReduced infinity
unfolding prime
infinity-IsReduced = record { x_below = omega arith; y_below = omega arith; z_below = omega arith }

pick : (c : Bool) (p q : Point) → IsReduced p → IsReduced q → IsReduced (if c then p else q)
pick true p q h k = h
pick false p q h k = k

jac_double-IsReduced : (p : Point) → IsReduced (jac_double p)
unfolding jac_double
jac_double-IsReduced p = pick (p.z == 0 || p.y == 0) infinity _ infinity-IsReduced (record {
  x_below = mod-lt _ prime_positive;
  y_below = mod-lt _ prime_positive;
  z_below = mod-lt _ prime_positive;
})

add_distinct-IsReduced : (p q : Point) (u1 u2 s1 s2 : ℕ) → IsReduced (add_distinct p q u1 u2 s1 s2)
unfolding add_distinct
add_distinct-IsReduced p q u1 u2 s1 s2 = record {
  x_below = mod-lt _ prime_positive;
  y_below = mod-lt _ prime_positive;
  z_below = mod-lt _ prime_positive;
}

add_finite-IsReduced : (p q : Point) → IsReduced (add_finite p q)
unfolding add_finite
add_finite-IsReduced p q =
    pick _ _ _ (pick _ _ _ (jac_double-IsReduced p) infinity-IsReduced)
      (add_distinct-IsReduced p q _ _ _ _)

jac_add-IsReduced : (p q : Point) → IsReduced p → IsReduced q → IsReduced (jac_add p q)
unfolding jac_add
jac_add-IsReduced p q h k =
    pick (p.z == 0) q _ k (pick (q.z == 0) p (add_finite p q) h (add_finite-IsReduced p q))

mul_loop-ends :
    (fuel k : ℕ) (result addend : Point)
    → k < 2 ^ fuel
    → IsReduced result
    → IsReduced addend
    → (r : Point) × (mul_loop fuel k result addend ≡ some r) × IsReduced r
unfolding mul_loop
mul_loop-ends zero k result addend small h a =
    let done : k ≡ 0 = omega arith in (result, rw done refl, h)
mul_loop-ends (suc fuel) k result addend small h a = elim (Bool-cases (k == 0)) [
  | inl done ↦ (result, rw done refl, h)
  | inr more ↦
      let half : k / 2 < 2 ^ fuel = halved (2 ^ fuel) (rw (two-pow-succ fuel) at small) in
      let (r, ends, good) =
        mul_loop-ends fuel (k / 2) (if k % 2 == 1 then jac_add result addend else result)
          (jac_double addend) half
          (pick (k % 2 == 1) (jac_add result addend) result (jac_add-IsReduced result addend h a) h)
          (jac_double-IsReduced addend) in
      (r, rw more ends, good)
]
  where
    halved : (n : ℕ) → k < n + n → k / 2 < n
    halved n h = omega arith

below_order : (k : ℕ) → k % order < 2 ^ 256
unfolding order
below_order k = omega arith

-- For every number and every point whose coordinates are below the prime, the loop of `_jac_mul` ends
-- within 256 rounds, and the coordinates of the result are below the prime.
pub jac_mul-ends :
    (k : ℕ) (p : Point) → IsReduced p → (r : Point) × (jac_mul 256 k p ≡ some r) × IsReduced r
unfolding jac_mul
jac_mul-ends k p h = elim (Bool-cases (k % order == 0 || p.z == 0)) [
  | inl trivial ↦ (infinity, rw trivial refl, infinity-IsReduced)
  | inr real ↦
      let (r, ends, good) =
        mul_loop-ends 256 (k % order) infinity p (below_order k) infinity-IsReduced h in
      (r, rw real ends, good)
]
