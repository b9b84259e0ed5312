-- ===== src/Daemon/Pay/Sound.antt =====
-- Payments keep the invariant of the store, and reserve a fee that is neither too small nor too large.
use sovran_bitcoin.Base.{
  ℕ, ◌+◌, String, ◌≡◌, refl, ap, inl, inr, true, false, Option, none, some, Bool-cases, arith, ◌/◌,
  if◌then◌else◌,
}
use sovran_bitcoin.Base.Int.{ℤ, pos, ◌+ℤ◌, ◌≤ℤ◌, ◌<ℤ◌, ◌*ℤ◌, floor_div}
use sovran_bitcoin.Base.Monad.{
  Result, Action, Stays, pure, ◌>>=◌, Stays-bind, holds-bind, bind_ok, bind_raised,
}
use sovran_bitcoin.Base.Text.{nonempty}
use sovran_bitcoin.Daemon.Lnd.{Answer, Paid, Lnd}
use sovran_bitcoin.Daemon.Pay.{
  fee_reserve_msat, preimage_of, lnd_preimage, record_preimage, resolve, tell, tell_payee,
  tell_both, finish_internal_payment, report_sent, conclude, settle_or_send, reserve_and_pay,
}
use sovran_bitcoin.Daemon.Request.{Payload}
use sovran_bitcoin.Daemon.World.{
  World, OfStore, on_store, emit_notification, emit_notification-Stays,
}
use sovran_bitcoin.Store.Incoming.{find_tx_for_app}
use sovran_bitcoin.Daemon.Stays.{record_preimage-Stays}
use sovran_bitcoin.Store.Receiving.{IsSound-Receives}
use sovran_bitcoin.Store.Ledger.{IsSound}
use sovran_bitcoin.Store.Outgoing.Cases.{Reserved, reserve-Reserved}
use sovran_bitcoin.Store.Outgoing.Closed.{waiting_row, found_held}
use sovran_bitcoin.Store.Outgoing.Finalize.{paid_fee, finalize_outgoing_payment-IsSound}
use sovran_bitcoin.Store.Outgoing.Sound.{by_its_id, reserve_outgoing_payment-IsSound}
use sovran_bitcoin.Store.Outgoing.{
  Purpose, filed, reserve_outgoing_payment, finalize_outgoing_payment,
}
use sovran_bitcoin.Store.Rows.{TxRow, Db, TxDict}
use sovran_bitcoin.Store.Sql.{outgoing?, find_tx}

abbrev pub Keeps : {A : Type 0} → Action World A → Type 0
Keeps m = Stays (OfStore IsSound) m

record_preimage-Keeps : (hash preimage : String) → Keeps (record_preimage hash preimage)
record_preimage-Keeps = record_preimage-Stays IsSound IsSound-Receives

resolve-Keeps : (lnd : Lnd) (hash preimage : String) → Keeps (resolve lnd hash preimage)
resolve-Keeps lnd hash preimage w s = elim (Bool-cases (nonempty preimage)) [
  | inl known ↦ rw known s
  | inr unknown ↦ rw unknown (
      Stays-bind (OfStore IsSound) (record_preimage hash (lnd_preimage (lnd.lookup_invoice hash)))
        (λ _. pure (lnd_preimage (lnd.lookup_invoice hash)))
        (record_preimage-Keeps hash (lnd_preimage (lnd.lookup_invoice hash))) (λ _ v t. t) w s)
]

tell-Keeps :
    (tx : Option TxDict) (app : ℕ) (kind preimage : String) → Keeps (tell tx app kind preimage)
tell-Keeps none app kind preimage w s = s
tell-Keeps (some tx) app kind preimage w s =
    emit_notification-Stays IsSound app kind
      (if nonempty preimage then record tx { preimage = preimage } else tx) w s

tell_payee-Keeps :
    (result_type : String) (payee : ℕ) (hash preimage : String)
    → Keeps (tell_payee result_type payee hash preimage)
tell_payee-Keeps result_type payee hash preimage w s =
    Stays-bind (OfStore IsSound)
      (tell (find_tx_for_app payee hash "" w.db) payee "payment_received" preimage)
      (λ _. pure (Payload.paid result_type preimage (pos 0)))
      (tell-Keeps (find_tx_for_app payee hash "" w.db) payee "payment_received" preimage)
      (λ _ v q. q) w s

tell_both-Keeps :
    (result_type : String) (app payee : ℕ) (hash : String) (tx : Option TxDict) (preimage : String)
    → Keeps (tell_both result_type app payee hash tx preimage)
tell_both-Keeps result_type app payee hash tx preimage =
    Stays-bind (OfStore IsSound) (tell tx app "payment_sent" preimage)
      (λ _. tell_payee result_type payee hash preimage) (tell-Keeps tx app "payment_sent" preimage)
      (λ _. tell_payee-Keeps result_type payee hash preimage)

finish_internal_payment-Keeps :
    (lnd : Lnd) (result_type : String) (app payee : ℕ) (hash : String)
    → Keeps (finish_internal_payment lnd result_type app payee hash)
unfolding finish_internal_payment
finish_internal_payment-Keeps lnd result_type app payee hash w s =
    Stays-bind (OfStore IsSound) (resolve lnd hash (preimage_of tx))
      (tell_both result_type app payee hash tx) (resolve-Keeps lnd hash (preimage_of tx))
      (tell_both-Keeps result_type app payee hash tx) w s
  where
    tx : Option TxDict
    tx = find_tx_for_app app hash "" w.db

-- What LND took is within the reserve, if it sent the payment.
abbrev pub SentWithin : ℤ → Answer Paid → Type 0
SentWithin reserve (Answer.answered r) = r.fees_paid_msat ≤ℤ reserve
SentWithin reserve (Answer.failed code message) = Unit

paid_within : (fees reserve : ℤ) → pos 0 ≤ℤ reserve → fees ≤ℤ reserve → paid_fee fees ≤ℤ reserve
paid_within fees reserve h k = ground arith

conclude-IsSound :
    (result_type : String) (app tx_id : ℕ) (later : ℤ) (sent : Answer Paid) (t : TxRow) (w : World)
    → find_tx tx_id w.db ≡ some t
    → outgoing? t.type ≡ true
    → pos 0 ≤ℤ t.fee_reserve_msat
    → SentWithin t.fee_reserve_msat sent
    → IsSound w.db
    → IsSound (conclude result_type app tx_id later sent w).1.db
unfolding conclude
conclude-IsSound result_type app tx_id later (Answer.failed code message) t w found out sign within
      s =
    holds-bind (OfStore IsSound) (on_store (finalize_outgoing_payment tx_id false "" (pos 0) later))
      (λ _. pure (Payload.error result_type "PAYMENT_FAILED" message)) w
      (finalize_outgoing_payment-IsSound tx_id false "" (pos 0) later t w.db found out tt s)
      (λ _ v q. q)
conclude-IsSound result_type app tx_id later (Answer.answered r) t w found out sign within s =
    holds-bind (OfStore IsSound)
      (on_store (finalize_outgoing_payment tx_id true r.preimage r.fees_paid_msat later))
      (report_sent result_type app r) w
      (finalize_outgoing_payment-IsSound tx_id true r.preimage r.fees_paid_msat later t w.db found
        out (paid_within r.fees_paid_msat t.fee_reserve_msat sign within) s)
      (λ tx.
        Stays-bind (OfStore IsSound) (emit_notification app "payment_sent" tx)
          (λ _. pure (Payload.paid result_type r.preimage r.fees_paid_msat))
          (emit_notification-Stays IsSound app "payment_sent" tx) (λ _ v q. q))

-- For an amount that is not negative, the fee reserve is at least 10 sat and at least 1 % of the
-- amount, and at most 10 sat more than 1 % of it.
pub fee_reserve_msat-bounds :
    (amount : ℕ)
    → (pos 10000 ≤ℤ fee_reserve_msat (pos amount))
      × (pos amount ≤ℤ fee_reserve_msat (pos amount) *ℤ 100)
      × (fee_reserve_msat (pos amount) ≤ℤ pos (amount / 100 + 10000))
unfolding fee_reserve_msat ◌*ℤ◌ floor_div ◌+ℤ◌
fee_reserve_msat-bounds amount = (ground arith, ground arith, ground arith)

reserve_nonneg : (amount : ℤ) → pos 0 ≤ℤ fee_reserve_msat amount
unfolding fee_reserve_msat
reserve_nonneg amount = ground arith

module _ (lnd : Lnd) (result_type : String) (app : ℕ) (amount : ℤ) (p : Purpose)
    (sent : Answer Paid) (now later : ℤ) (w : World) (s : IsSound w.db) (sign : pos 0 <ℤ amount)
    (within : SentWithin (fee_reserve_msat amount) sent) where
  abbrev hold : Action World (ℕ × Option ℕ)
  hold = on_store (reserve_outgoing_payment app amount (fee_reserve_msat amount) p now)

  abbrev rest : ℕ × Option ℕ → Action World Payload
  rest = settle_or_send lnd result_type app p.payment_hash later sent

  abbrev with_db : Db → World
  with_db db = record w { db = db }

  on_world :
      (x : Result (ℕ × Option ℕ) × Db)
      → reserve_outgoing_payment app amount (fee_reserve_msat amount) p now w.db ≡ x
      → hold w ≡ (x.0, with_db x.1)
  on_world x e = ap (λ (y : Result (ℕ × Option ℕ) × Db). (y.0, with_db y.1)) e

  ends :
      (x : Result (ℕ × Option ℕ) × Db)
      → reserve_outgoing_payment app amount (fee_reserve_msat amount) p now w.db ≡ x
      → IsSound x.1
      → Reserved app amount (fee_reserve_msat amount) p now w.db x
      → IsSound ((hold >>= rest) w).1.db
  ends x e k (Reserved.refused exc) =
      rw (bind_raised hold w (with_db w.db) rest exc (on_world x e)) s
  ends x e k (Reserved.outside r found external allows enough) =
      rw (bind_ok hold w (with_db x.1) rest (w.db.next_tx, none) (on_world x e)) (
        conclude-IsSound result_type app w.db.next_tx later sent
          (waiting_row r amount (fee_reserve_msat amount) (filed p) now w.db
            (by_its_id app r w.db found) 0)
          (with_db x.1)
          (found_held r amount (fee_reserve_msat amount) (filed p) now w.db
            (by_its_id app r w.db found) 0)
          refl (reserve_nonneg amount) within k)
  ends x e k (Reserved.inside r inc found waiting allows enough) =
      rw (bind_ok hold w (with_db x.1) rest (w.db.next_tx, some inc.app_id) (on_world x e)) (
        finish_internal_payment-Keeps lnd result_type app inc.app_id p.payment_hash (with_db x.1) k)

  pub reserve_and_pay-IsSound :
      IsSound (reserve_and_pay lnd result_type app amount p sent now later w).1.db
  unfolding reserve_and_pay
  reserve_and_pay-IsSound =
      ends (reserve_outgoing_payment app amount (fee_reserve_msat amount) p now w.db) refl
        (reserve_outgoing_payment-IsSound app amount (fee_reserve_msat amount) p now w.db
          (omega arith) (reserve_nonneg amount) s)
        (reserve-Reserved app amount (fee_reserve_msat amount) p now w.db)
