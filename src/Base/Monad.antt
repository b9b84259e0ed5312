-- ===== src/Base/Monad.antt =====
-- Exceptions as values, and methods over a state. The state comes back after an exception too: what
-- was written before it stays written, unless a transaction rolls back.
use Prim.Native.Nat.{ℕ}
use Prim.Native.String.{String}
use mathlib.Core.Path.{◌≡◌, refl}
use mathlib.Core.Bool.{Bool, true, false}
use mathlib.Core.Option.{Option, none, some}
use sovran_bitcoin.Base.Tests.{if◌then◌else◌}

-- `NwcStoreError(code, message, http_status)`, `LndError(code, message)`, and Python's own errors on
-- a value of a wrong type or form; `integrity_error` is SQLite's, at a UNIQUE column. `hub_error` and
-- `hub_http` are the hub manager's `AlbyHubError(code, message)` and `AlbyHubHttpError(status, …)`.
pub data Exc : Type 0 where
  store_error : String → String → ℕ → Exc
  lnd_error : String → String → Exc
  value_error : Exc
  type_error : Exc
  integrity_error : Exc
  hub_error : String → String → Exc
  hub_http : ℕ → Exc

pub data Result (A : Type 0) : Type 0 where
  ok : A → Result A
  raised : Exc → Result A

abbrev pub Action : Type 0 → Type 0 → Type 0
Action S A = S → Result A × S

module _ {S A : Type 0} where
  abbrev pub pure : A → Action S A
  pure a s = (ok a, s)

  abbrev pub raise : Exc → Action S A
  raise e s = (raised e, s)

  abbrev pub or_raise : Option A → Exc → Action S A
  or_raise none e = raise e
  or_raise (some a) e = pure a

  abbrev pub gets : (S → A) → Action S A
  gets f s = (ok (f s), s)

  -- `BEGIN IMMEDIATE … COMMIT`, with `ROLLBACK` on any exception.
  abbrev pub transaction : Action S A → Action S A
  transaction m s = let (r, s') = m s in elim r [ ok a ↦ (ok a, s') | raised e ↦ (raised e, s) ]

abbrev pub modify : {S : Type 0} → (S → S) → Action S (Unit {0})
modify f s = (ok tt, f s)

abbrev pub raise_if : {S : Type 0} → Bool → Exc → Action S (Unit {0})
raise_if c e s = (if c then raised e else ok tt, s)

infixl 5 ◌>>=◌ ◌>>◌
abbrev pub ◌>>=◌ : {S A B : Type 0} → Action S A → (A → Action S B) → Action S B
◌>>=◌ m f s = let (r, s') = m s in elim r [ ok a ↦ f a s' | raised e ↦ (raised e, s') ]

abbrev pub ◌>>◌ : {S A B : Type 0} → Action S A → Action S B → Action S B
m >> k = m >>= λ _. k

-- A property of the state that an action keeps, also when it raises.
abbrev pub Stays : {S A : Type 0} → (S → Type 0) → Action S A → Type 0
Stays {S = S} P m = (s : S) → P s → P (m s).1

module _ {S : Type 0} (P : S → Type 0) where
  continue :
      {A B : Type 0} (f : A → Action S B) (x : Result A × S)
      → P x.1
      → ((a : A) → Stays P (f a))
      → P (((λ s. x) >>= f) x.1).1
  continue f (ok a, s) p k = k a s p
  continue f (raised e, s) p k = p

  -- A sequence keeps what its parts keep.
  pub Stays-bind :
      {A B : Type 0} (m : Action S A) (f : A → Action S B)
      → Stays P m
      → ((a : A) → Stays P (f a))
      → Stays P (m >>= f)
  Stays-bind m f h k s p = continue f (m s) (h s p) k

  -- The same from one state.
  pub holds-bind :
      {A B : Type 0} (m : Action S A) (f : A → Action S B) (s : S)
      → P (m s).1
      → ((a : A) → Stays P (f a))
      → P ((m >>= f) s).1
  holds-bind m f s p k = continue f (m s) p k

  roll_back : {A : Type 0} (x : Result A × S) (s : S) → P x.1 → P s → P (transaction (λ t. x) s).1
  roll_back (ok a, s') s p q = p
  roll_back (raised e, s') s p q = q

  pub Stays-transaction : {A : Type 0} (m : Action S A) → Stays P m → Stays P (transaction m)
  Stays-transaction m h s p = roll_back (m s) s (h s p) p

  -- A test that raises leaves the rest to run where it is false.
  pub Stays-raise_if :
      {A : Type 0} (c : Bool) (e : Exc) (m : Action S A)
      → (c ≡ false → Stays P m)
      → Stays P (raise_if c e >> m)
  Stays-raise_if true e m h s p = p
  Stays-raise_if false e m h s p = h refl s p

-- What a sequence does, from what its first part does.
module _ {S A : Type 0} (m : Action S A) (s s' : S) where
  pub bind_ok : {B : Type 0} (f : A → Action S B) (a : A) → m s ≡ (ok a, s') → (m >>= f) s ≡ f a s'
  bind_ok f a h = rw (◌>>=◌, h, h)

  pub bind_raised :
      {B : Type 0} (f : A → Action S B) (e : Exc)
      → m s ≡ (raised e, s')
      → (m >>= f) s ≡ (raised e, s')
  bind_raised f e h = rw (◌>>=◌, h, h)

  pub transaction_ok : (a : A) → m s ≡ (ok a, s') → transaction m s ≡ (ok a, s')
  transaction_ok a h = rw (transaction, h, h)

  pub transaction_raised : (e : Exc) → m s ≡ (raised e, s') → transaction m s ≡ (raised e, s)
  transaction_raised e h = rw (transaction, h)
