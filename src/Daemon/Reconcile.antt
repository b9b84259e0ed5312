-- ===== src/Daemon/Reconcile.antt =====
-- `reconcile_pending_invoices`: every pending invoice that LND reports as settled is settled.
use sovran_bitcoin.Base.{
  ℕ, String, ◌≡◌, refl, Bool, true, false, Option, none, some, List, [], ◌∷◌, Bool-cases, inl, inr,
  if◌then◌else◌,
}
use sovran_bitcoin.Base.Int.{ℤ}
use sovran_bitcoin.Base.Monad.{Action, Stays, pure, gets, ◌>>=◌, ◌>>◌, Stays-bind}
use sovran_bitcoin.Base.Text.{◌=ₛ◌, nonempty}
use sovran_bitcoin.Daemon.Lnd.{Answer, LndInvoice, Lnd, IsLnd}
use sovran_bitcoin.Daemon.World.{
  World, OfStore, on_store, emit_notification, on_store-Stays, emit_notification-Stays,
}
use sovran_bitcoin.Store.Incoming.{settle_incoming_by_payment_hash, list_pending_incoming}
use sovran_bitcoin.Store.Ledger.{IsSound}
use sovran_bitcoin.Store.Receiving.{Receives, IsSound-Receives}
use sovran_bitcoin.Store.Rows.{Db, TxDict}

-- `if newly_settled and settled_tx: …`
abbrev pub announce : Option TxDict × Bool → Action World (Unit {0})
announce (some tx, true) = emit_notification tx.app_id "payment_received" tx
announce (some tx, false) = pure tt
announce (none, newly) = pure tt

abbrev pub settle_reported : String → ℤ → LndInvoice → Action World (Unit {0})
settle_reported hash now inv = do
  settled ←
      on_store (
        settle_incoming_by_payment_hash hash (some inv.amount_msat) inv.preimage inv.settled_at now)
  announce settled

abbrev pub reconcile_answer : String → ℤ → Answer LndInvoice → Action World (Unit {0})
reconcile_answer hash now (Answer.failed code message) = pure tt
reconcile_answer hash now (Answer.answered inv) =
    if inv.state =ₛ "settled" then settle_reported hash now inv else pure tt

abbrev pub reconcile_one : Lnd → ℤ → TxDict → Action World (Unit {0})
reconcile_one lnd now tx =
    if nonempty tx.payment_hash
    then reconcile_answer tx.payment_hash now (lnd.lookup_invoice tx.payment_hash)
    else pure tt

pub reconcile_all : Lnd → ℤ → List TxDict → Action World (Unit {0})
reconcile_all lnd now [] = pure tt
reconcile_all lnd now (tx ∷ txs) = do reconcile_one lnd now tx; reconcile_all lnd now txs

-- The list of pending invoices is read once, before the loop.
unfoldable pub reconcile_pending_invoices : Lnd → ℤ → Option ℕ → Action World (Unit {0})
unfolding reconcile_all
reconcile_pending_invoices lnd now app = do
  pending ← gets (λ w. list_pending_incoming app w.db)
  reconcile_all lnd now pending

announce-Stays : (P : Db → Type 0) (x : Option TxDict × Bool) → Stays (OfStore P) (announce x)
announce-Stays P (some tx, true) w s = emit_notification-Stays P tx.app_id "payment_received" tx w s
announce-Stays P (some tx, false) w s = s
announce-Stays P (none, newly) w s = s

module _ (P : Db → Type 0) (receives : Receives P) (lnd : Lnd) (now : ℤ) (good : IsLnd lnd) where
  reconcile_answer-Stays :
      (hash : String) (x : Answer LndInvoice)
      → lnd.lookup_invoice hash ≡ x
      → Stays (OfStore P) (reconcile_answer hash now x)
  reconcile_answer-Stays hash (Answer.failed code message) e w s = s
  reconcile_answer-Stays hash (Answer.answered inv) e w s =
      elim (Bool-cases (inv.state =ₛ "settled")) [
        | inl settled ↦ rw settled (
            Stays-bind (OfStore P)
              (on_store (
                settle_incoming_by_payment_hash hash (some inv.amount_msat) inv.preimage
                  inv.settled_at now))
              announce
              (on_store-Stays P
                (settle_incoming_by_payment_hash hash (some inv.amount_msat) inv.preimage
                  inv.settled_at now)
                (λ db.
                  receives.settles hash inv.preimage inv.amount_msat inv.settled_at now db
                    (good.amounts hash inv e)))
              (announce-Stays P) w s)
        | inr waiting ↦ rw waiting s
      ]

  reconcile_one-Stays : (tx : TxDict) → Stays (OfStore P) (reconcile_one lnd now tx)
  reconcile_one-Stays tx w s = elim (Bool-cases (nonempty tx.payment_hash)) [
    | inl some_hash ↦
        rw some_hash
          (reconcile_answer-Stays tx.payment_hash (lnd.lookup_invoice tx.payment_hash) refl w s)
    | inr no_hash ↦ rw no_hash s
  ]

  reconcile_all-Stays : (txs : List TxDict) → Stays (OfStore P) (reconcile_all lnd now txs)
  unfolding reconcile_all
  reconcile_all-Stays [] w s = s
  reconcile_all-Stays (tx ∷ txs) w s =
      Stays-bind (OfStore P) (reconcile_one lnd now tx) (λ _. reconcile_all lnd now txs)
        (reconcile_one-Stays tx) (λ _. reconcile_all-Stays txs) w s

  -- Reconciling with an LND that reports no negative amount keeps what receiving keeps.
  pub reconcile_pending_invoices-Stays :
      (app : Option ℕ) → Stays (OfStore P) (reconcile_pending_invoices lnd now app)
  unfolding reconcile_pending_invoices
  reconcile_pending_invoices-Stays app w s =
      reconcile_all-Stays (list_pending_incoming app w.db) w s

pub reconcile_pending_invoices-IsSound :
    (lnd : Lnd) (now : ℤ)
    → IsLnd lnd
    → (app : Option ℕ) → Stays (OfStore IsSound) (reconcile_pending_invoices lnd now app)
reconcile_pending_invoices-IsSound = reconcile_pending_invoices-Stays IsSound IsSound-Receives
