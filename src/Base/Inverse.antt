-- ===== src/Base/Inverse.antt =====
-- What a sequence that ended well tells of its parts.
use mathlib.Core.Bool.{Bool, true, false}
use mathlib.Core.Option.{Option, none, some}
use mathlib.Core.Path.{◌≡◌, refl}
use sovran_bitcoin.Base.Monad.{Exc, Result, Action, ok, raised, or_raise, raise_if, ◌>>=◌, ◌>>◌}

module _ {S A B : Type 0} where
  split :
      (x : Result A × S) (f : A → Action S B) (s : S) (b : B) (s' : S)
      → ((λ (t : S). x) >>= f) s ≡ (ok b, s')
      → (a : A) × (t : S) × (x ≡ (ok a, t)) × (f a t ≡ (ok b, s'))
  split (ok a, t) f s b s' h = (a, t, refl, h)
  split (raised e, t) f s b s' h = absurd (cc)

  pub bind_inverse :
      (m : Action S A) (f : A → Action S B) (s : S) (b : B) (s' : S)
      → (m >>= f) s ≡ (ok b, s')
      → (a : A) × (t : S) × (m s ≡ (ok a, t)) × (f a t ≡ (ok b, s'))
  bind_inverse m f s b s' h = split (m s) f s b s' h

  pub or_raise_inverse :
      (o : Option A) (e : Exc) (f : A → Action S B) (s : S) (b : B) (s' : S)
      → (or_raise o e >>= f) s ≡ (ok b, s')
      → (a : A) × (o ≡ some a) × (f a s ≡ (ok b, s'))
  or_raise_inverse none e f s b s' h = absurd (cc)
  or_raise_inverse (some a) e f s b s' h = (a, refl, h)

module _ {S B : Type 0} where
  pub raise_if_inverse :
      (c : Bool) (e : Exc) (k : Action S B) (s : S) (b : B) (s' : S)
      → (raise_if c e >> k) s ≡ (ok b, s')
      → (c ≡ false) × (k s ≡ (ok b, s'))
  raise_if_inverse true e k s b s' h = absurd (cc)
  raise_if_inverse false e k s b s' h = (refl, h)

  pub pure_inverse :
      (a b : B) (s s' : S) → ◌≡◌ {A = Result B × S} (ok a, s) (ok b, s') → (a ≡ b) × (s ≡ s')
  pure_inverse a b s s' h = (cc, cc)
