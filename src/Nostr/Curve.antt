-- ===== src/Nostr/Curve.antt =====
-- The points of secp256k1 in Jacobian coordinates: `_jac_double`, `_jac_add`, `_jac_mul`, `_to_affine`.
-- A difference is reduced where it stands, since it may be negative; what is reduced after it is the
-- same.
pub mod Reduced
use sovran_bitcoin.Base.{
  ℕ, zero, suc, ◌+◌, ◌-◌, ◌*◌, ◌/◌, ◌%◌, ◌^◌, Bool, Option, none, some, ◌||◌, ◌==◌, if◌then◌else◌,
}

-- `_P` and `_N`
unfoldable pub prime : ℕ
prime = 0xFFFFFFFFFFFFFFFFFFFFFFFFFFFFFFFFFFFFFFFFFFFFFFFFFFFFFFFEFFFFFC2F

unfoldable pub order : ℕ
order = 0xFFFFFFFFFFFFFFFFFFFFFFFFFFFFFFFEBAAEDCE6AF48A03BBFD25E8CD0364141

pub record Point : Type 0 where
  pub x : ℕ
  pub y : ℕ
  pub z : ℕ

abbrev pub infinity : Point
infinity = record { x = 0; y = 1; z = 0 }

abbrev pub generator : Point
generator = record {
  x = 0x79BE667EF9DCBBAC55A06295CE870B07029BFCDB2DCE28D959F2815B16F81798;
  y = 0x483ADA7726A3C4655DA4FBFC0E1108A8FD17B448A68554199C47D08FFB10D4B8;
  z = 1;
}

-- `(a - b) % _P`
abbrev pub minus : ℕ → ℕ → ℕ
minus a b = (a + (prime - b % prime)) % prime

unfoldable pub jac_double : Point → Point
unfolding prime
jac_double p =
    let y_sq = p.y * p.y % prime in
    let s = 4 * p.x * y_sq % prime in
    let m = 3 * p.x * p.x % prime in
    let x3 = minus (m * m) (2 * s) in
    let y_4 = y_sq * y_sq % prime in
    let y3 = minus (m * minus s x3) (8 * y_4) in
    let z3 = 2 * p.y * p.z % prime in
    if p.z == 0 || p.y == 0 then infinity else record { x = x3; y = y3; z = z3 }

-- Behind the tests on the two points: u and s are the coordinates over a common denominator.
unfoldable pub add_distinct : Point → Point → ℕ → ℕ → ℕ → ℕ → Point
unfolding prime
add_distinct p q u1 u2 s1 s2 =
    let h = minus u2 u1 in
    let r = minus s2 s1 in
    let h_sq = h * h % prime in
    let h_cu = h * h_sq % prime in
    let u1_h_sq = u1 * h_sq % prime in
    let x3 = minus (minus (r * r) h_cu) (2 * u1_h_sq) in
    let y3 = minus (r * minus u1_h_sq x3) (s1 * h_cu) in
    record { x = x3; y = y3; z = h * p.z * q.z % prime }

unfoldable pub add_finite : Point → Point → Point
unfolding jac_double add_distinct
add_finite p q =
    let z1_sq = p.z * p.z % prime in
    let z2_sq = q.z * q.z % prime in
    let u1 = p.x * z2_sq % prime in
    let u2 = q.x * z1_sq % prime in
    let s1 = p.y * z2_sq * q.z % prime in
    let s2 = q.y * z1_sq * p.z % prime in
    if u1 == u2 then if s1 == s2 then jac_double p else infinity else add_distinct p q u1 u2 s1 s2

unfoldable pub jac_add : Point → Point → Point
unfolding add_finite
jac_add p q = if p.z == 0 then q else if q.z == 0 then p else add_finite p q

-- `while k`, on fuel; `none` says that the fuel ran out.
unfoldable pub mul_loop : ℕ → ℕ → Point → Point → Option Point
mul_loop zero k result addend = if k == 0 then some result else none
mul_loop (suc fuel) k result addend =
    let sum = if k % 2 == 1 then jac_add result addend else result in
    let rest = mul_loop fuel (k / 2) sum (jac_double addend) in if k == 0 then some result else rest

unfoldable pub jac_mul : ℕ → ℕ → Point → Option Point
unfolding mul_loop jac_add order
jac_mul fuel k p =
    if k % order == 0 || p.z == 0 then some infinity else mul_loop fuel (k % order) infinity p

-- `pow(a, n, _P)`, by squaring; 256 rounds are enough for an exponent below 2 ^ 256.
unfoldable pub power_mod : ℕ → ℕ → ℕ → ℕ → ℕ
unfolding prime
power_mod zero a n acc = acc
power_mod (suc fuel) a n acc =
    power_mod fuel (a * a % prime) (n / 2) (if n % 2 == 1 then acc * a % prime else acc)

unfoldable pub to_affine : Point → Option (ℕ × ℕ)
unfolding power_mod
to_affine p =
    let z_inv = power_mod 256 p.z (prime - 2) 1 in
    let z_inv2 = z_inv * z_inv % prime in
    let z_inv3 = z_inv2 * z_inv % prime in
    if p.z == 0 then none else some (p.x * z_inv2 % prime, p.y * z_inv3 % prime)
