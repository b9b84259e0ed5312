-- ===== src/Daemon/Stays.antt =====
-- The steps of a request that read a parameter or an answer keep every property of the state.
use sovran_bitcoin.Base.{
  String, ◌≡◌, refl, Bool, true, false, Option, none, some, Bool-cases, inl, inr, if◌then◌else◌,
}
use sovran_bitcoin.Base.Int.{ℤ}
use sovran_bitcoin.Base.Monad.{Action, Stays}
use sovran_bitcoin.Base.Text.{nonempty}
use sovran_bitcoin.Daemon.Lnd.{Answer}
use sovran_bitcoin.Daemon.Pay.{or_lnd_error, record_preimage}
use sovran_bitcoin.Daemon.Request.{int, bound}
use sovran_bitcoin.Daemon.World.{World, OfStore, on_store-Stays}
use sovran_bitcoin.Store.Incoming.{set_preimage_for_hash}
use sovran_bitcoin.Store.Receiving.{Receives}
use sovran_bitcoin.Store.Rows.{Db}

module _ (P : Db → Type 0) where
  pub int-Stays : (x : Option ℤ) → Stays (OfStore P) (int x)
  int-Stays none w s = s
  int-Stays (some z) w s = s

  pub bound-Stays : (x : Option (Option ℤ)) → Stays (OfStore P) (bound x)
  bound-Stays none w s = s
  bound-Stays (some none) w s = s
  bound-Stays (some (some z)) w s = s

  pub or_lnd_error-Stays : {A : Type 0} (x : Answer A) → Stays (OfStore P) (or_lnd_error x)
  or_lnd_error-Stays (Answer.answered a) w s = s
  or_lnd_error-Stays (Answer.failed code message) w s = s

  pub either-Stays :
      {A : Type 0} (c : Bool) (a b : Action World A)
      → Stays (OfStore P) a
      → Stays (OfStore P) b
      → Stays (OfStore P) (if c then a else b)
  either-Stays true a b h k = h
  either-Stays false a b h k = k

  -- The first branch may use that its test holds.
  pub when-Stays :
      {A : Type 0} (c : Bool) (a b : Action World A)
      → (c ≡ true → Stays (OfStore P) a)
      → Stays (OfStore P) b
      → Stays (OfStore P) (if c then a else b)
  when-Stays true a b h k = h refl
  when-Stays false a b h k = k

  pub record_preimage-Stays :
      Receives P → (hash preimage : String) → Stays (OfStore P) (record_preimage hash preimage)
  record_preimage-Stays receives hash preimage w s = elim (Bool-cases (nonempty preimage)) [
    | inl known ↦ rw known (
        on_store-Stays P (set_preimage_for_hash hash preimage) (receives.preimages hash preimage) w
          s)
    | inr unknown ↦ rw unknown s
  ]
