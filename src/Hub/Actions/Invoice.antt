-- ===== src/Hub/Actions/Invoice.antt =====
-- An invoice that the manager hands on is one that the hub attributed to the wallet it asked for.
use sovran_bitcoin.Base.{
  ℕ, String, ◌≡◌, refl, Bool, true, false, Option, none, some, not, ==_iff, arith, if◌then◌else◌,
}
use sovran_bitcoin.Base.Int.{ℤ}
use sovran_bitcoin.Base.Inverse.{bind_inverse, raise_if_inverse, pure_inverse}
use sovran_bitcoin.Base.Monad.{hub_error, ok, pure}
use sovran_bitcoin.Base.Reading.{Python}
use sovran_bitcoin.Base.Text.{nonempty}
use sovran_bitcoin.Hub.Actions.{
  ask, is_bolt11, minted_of, is_for, attributed, bolt11_only, checked_invoice, issue_invoice,
}
use sovran_bitcoin.Hub.Client.{Call, Answer, Minted, Hub, Managed, Setting}

module _ {S : Type 0} (py : Python) (hub : Hub S) (setting : Setting) (fuel : ℕ) where
  attributed_to : (o : Option ℕ) (id : ℕ) → is_for py hub setting fuel o id ≡ true → o ≡ some id
  attributed_to none id h = cc
  attributed_to (some n) id h = let same : n ≡ id = (==_iff n id).0 h in rw same

  positive : (b : Bool) → not b ≡ false → b ≡ true
  positive true h = refl
  positive false h = cc

  -- Where an invoice is handed on, the hub answered the request for wallet `id` and this amount, just
  -- before the state that is left, with that invoice: it is attributed to `id`, it is not empty, and
  -- it begins like a BOLT11 invoice.
  pub issue_invoice-attributed :
      (id : ℕ) (amount : ℤ) (description invoice : String) (m m' : Managed S)
      → issue_invoice py hub setting fuel id amount description m ≡ (ok invoice, m')
      → (answer : Answer) × (ask py hub setting fuel
            (Call.invoice id amount
              (if nonempty description then description else "Pay via Lightning"))
            m
          ≡ (ok answer, m'))
        × (minted_of py hub setting fuel answer ≡ record { invoice = invoice; app_id = some id })
        × (nonempty invoice ≡ true)
        × (is_bolt11 py hub setting fuel invoice ≡ true)
  unfolding issue_invoice
  issue_invoice-attributed id amount description invoice m m' h =
      let (answer, m1, asked, rest) =
        bind_inverse
          (ask py hub setting fuel (
            Call.invoice id amount
              (if nonempty description then description else "Pay via Lightning")))
          (checked_invoice py hub setting fuel id) m invoice m' h in
      let made = minted_of py hub setting fuel answer in
      let (full, rest1) =
        raise_if_inverse (not (nonempty made.invoice))
          (hub_error "invoice_creation_failed" "Hub returned empty invoice.")
          (bolt11_only py hub setting fuel id made) m1 invoice m' rest in
      let (real, rest2) =
        raise_if_inverse (not (is_bolt11 py hub setting fuel made.invoice))
          (hub_error "invalid_invoice" "Hub returned a non-BOLT11 invoice string.")
          (attributed py hub setting fuel id made) m1 invoice m' rest1 in
      let (its_own, last) =
        raise_if_inverse (not (is_for py hub setting fuel made.app_id id))
          (hub_error "invoice_attribution_failed"
            "Invoice attribution mismatch: returned appId does not match.")
          (pure made.invoice) m1 invoice m' rest2 in
      let (text, state) = pure_inverse made.invoice invoice m1 m' last in
      let app = attributed_to made.app_id id (positive _ its_own) in
      (
        answer,
        rw (← state) asked,
        whole made text app,
        rw (← text) (positive _ full),
        rw (← text) (positive _ real),
      )
    where
      whole :
          (x : Minted)
          → x.invoice ≡ invoice
          → x.app_id ≡ some id
          → x ≡ record { invoice = invoice; app_id = some id }
      whole x e k = ground arith
