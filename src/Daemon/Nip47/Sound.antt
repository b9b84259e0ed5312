-- ===== src/Daemon/Nip47/Sound.antt =====
-- What a NIP-47 request keeps: the store's books, and without `pay_invoice` every balance.
use text.Mathlib.TextEquality.{eq_iff}
use sovran_bitcoin.Base.{
  ℕ, String, ◌≡◌, ◌∙◌, true, inl, inr, false, not, Bool-cases, arith, if◌then◌else◌,
}
use sovran_bitcoin.Base.Int.{ℤ, ◌≤ℤ◌}
use sovran_bitcoin.Base.Monad.{ok, pure}
use sovran_bitcoin.Daemon.Lnd.{Lnd, IsLnd}
use sovran_bitcoin.Daemon.Nip47.{not_supported, dispatch, guarded, restricted, handle_nip47_method}
use sovran_bitcoin.Daemon.Stays.{either-Stays}
use sovran_bitcoin.Daemon.Nip47.Receive.{dispatch-Stays}
use sovran_bitcoin.Daemon.Pay.Requests.{pay_invoice_payload-IsSound, pay_keysend_payload-IsSound}
use sovran_bitcoin.Daemon.Pay.{Hashing}
use sovran_bitcoin.Daemon.Request.{Params}
use sovran_bitcoin.Daemon.Scopes.{all_known_nip47_methods, scopes_to_nip47_methods}
use sovran_bitcoin.Daemon.Scopes.Grants.{scopes_to_nip47_methods-spends}
use sovran_bitcoin.Daemon.World.{World, member}
use sovran_bitcoin.Store.Ledger.{balance_in, IsSound}
use sovran_bitcoin.Store.Receiving.{HasAtLeast, IsSound-Receives, HasAtLeast-Receives}
use sovran_bitcoin.Store.Rows.{AppDict}

-- Whatever a client asks, with whatever scopes and parameters, the store's books stay in order: a
-- request for any method, known or not, permitted or not, answered or raising, keeps the invariant of
-- the store, if LND reports no negative amount and takes no more in fees than its limit.
pub handle_nip47_method-IsSound :
    (lnd : Lnd) (h : Hashing) (now later : ℤ) (app : AppDict) (method : String) (params : Params)
    (w : World)
    → IsLnd lnd
    → IsSound w.db
    → IsSound (handle_nip47_method lnd h now later app method params w).1.db
unfolding handle_nip47_method
handle_nip47_method-IsSound lnd h now later app method params w good s =
    either-Stays IsSound (not (member method all_known_nip47_methods)) _ _ (λ v q. q)
      (either-Stays IsSound (not (member method (scopes_to_nip47_methods app.scopes)))
        (pure (restricted method)) (guarded method (dispatch lnd h now later app method params))
        (λ v q. q)
        (dispatch-Stays IsSound IsSound-Receives lnd good app params now h later method
          (λ _. pay_invoice_payload-IsSound lnd good now later app.id params)
          (λ _. pay_keysend_payload-IsSound lnd good now later app.id h params)))
      w s

-- A method that the wallet's scopes do not give is answered with RESTRICTED if it is known and with
-- NOT_IMPLEMENTED if not, and changes neither the store nor what went out to the relays.
handle_nip47_method-restricted :
    (lnd : Lnd) (h : Hashing) (now later : ℤ) (app : AppDict) (method : String) (params : Params)
    (w : World)
    → member method (scopes_to_nip47_methods app.scopes) ≡ false
    → handle_nip47_method lnd h now later app method params w ≡ (
      ok (
          if member method all_known_nip47_methods
          then restricted method
          else not_supported method),
      w,
    )
unfolding handle_nip47_method
handle_nip47_method-restricted lnd h now later app method params w denied =
    elim (Bool-cases (member method all_known_nip47_methods)) [
      | inl known ↦ rw (known, denied)
      | inr unknown ↦ rw unknown
    ]

-- Whatever request a wallet without `pay_invoice` among its scopes makes, of whatever method, with
-- whatever other scopes and parameters, no wallet's balance falls by it, its own and others', if LND
-- reports no negative amount and the store is sound.
pub handle_nip47_method-spares :
    (lnd : Lnd) (h : Hashing) (now later : ℤ) (app : AppDict) (method : String) (params : Params)
    (w : World) (b : ℕ)
    → IsLnd lnd
    → IsSound w.db
    → member "pay_invoice" app.scopes ≡ false
    → balance_in b w.db.apps
      ≤ℤ balance_in b (handle_nip47_method lnd h now later app method params w).1.db.apps
unfolding handle_nip47_method
handle_nip47_method-spares lnd h now later app method params w b good s unscoped =
    elim (Bool-cases (member method (scopes_to_nip47_methods app.scopes))) [
      | inr denied ↦
          rw (handle_nip47_method-restricted lnd h now later app method params w denied)
            (least (balance_in b w.db.apps))
      | inl permitted ↦
          (either-Stays (HasAtLeast b floor) (not (member method all_known_nip47_methods)) _ _
            (λ v q. q)
            (either-Stays (HasAtLeast b floor)
              (not (member method (scopes_to_nip47_methods app.scopes))) (pure (restricted method))
              (guarded method (dispatch lnd h now later app method params)) (λ v q. q)
              (dispatch-Stays (HasAtLeast b floor) (HasAtLeast-Receives b floor) lnd good app params
                now h later method
                (λ e. absurd (
                  unpermitted "pay_invoice" ((eq_iff method "pay_invoice").0 e) (invoice ∙ unscoped)
                    permitted))
                (λ e. absurd (
                  unpermitted "pay_keysend" ((eq_iff method "pay_keysend").0 e) (keysend ∙ unscoped)
                    permitted))))
            w (s, least floor)).1
    ]
  where
    floor : ℤ
    floor = balance_in b w.db.apps

    least : (z : ℤ) → z ≤ℤ z
    least z = omega arith

    invoice :
        member "pay_invoice" (scopes_to_nip47_methods app.scopes) ≡ member "pay_invoice" app.scopes
    invoice = (scopes_to_nip47_methods-spends app.scopes).0

    keysend :
        member "pay_keysend" (scopes_to_nip47_methods app.scopes) ≡ member "pay_invoice" app.scopes
    keysend = (scopes_to_nip47_methods-spends app.scopes).1

    unpermitted :
        (name : String)
        → method ≡ name
        → member name (scopes_to_nip47_methods app.scopes) ≡ false
        → member method (scopes_to_nip47_methods app.scopes) ≡ true
        → ⊥
    unpermitted name e out permitted = cc
