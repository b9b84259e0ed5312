-- ===== src/Store/Outgoing/Budget.antt =====
-- The spending budget: what `_check_budget_locked` keeps of it over a payment.
use sovran_bitcoin.Base.{
  ℕ, String, ◌≡◌, refl, sym, inl, inr, true, Option, some, List, [], ◌∷◌, map, first, ◌==◌, ==_refl,
  arith, Bool-cases,
}
use mathlib.Core.Path.{subst}
use sovran_bitcoin.Base.Int.{ℤ, pos, ◌+ℤ◌, ◌*ℤ◌, ◌≤ℤ◌, ◌<ℤ◌, int_laws}
use sovran_bitcoin.Base.Monad.{Result, ok}
use sovran_bitcoin.Base.Text.{canonical}
use sovran_bitcoin.Store.Ledger.Drift.{update_row_below}
use sovran_bitcoin.Store.Ledger.Form.{find_tx_again, first-holds}
use sovran_bitcoin.Store.Ledger.{Descends, IsSound}
use sovran_bitcoin.Store.Outgoing.Cases.{Allows, held, moved, Reserved, reserve-Reserved}
use sovran_bitcoin.Store.Outgoing.Sound.{find_internal-first, awaiting-parts}
use sovran_bitcoin.Store.Outgoing.{
  spent_row, spent, Purpose, awaiting, find_internal, settle_internal, filed,
  reserve_outgoing_payment,
}
use sovran_bitcoin.Store.Rows.{AppRow, TxRow, Db}
use sovran_bitcoin.Store.Sql.{incoming?, find_app, credit, update_row, update_tx, insert_tx}

spent-update :
    (a i bound : ℕ) (f : TxRow → TxRow) (t : TxRow) (txs : List TxRow)
    → Descends TxRow.id bound txs
    → first (λ u. u.id == i) txs ≡ some t
    → spent_row a (f t) ≡ spent_row a t
    → spent a (map (update_row i f) txs) ≡ spent a txs
unfolding spent
spent-update a i bound f t [] d h e = refl
spent-update a i bound f t (u ∷ txs) d h e = elim (Bool-cases (u.id == i)) [
  | inl here ↦
      let same : u ≡ t = ground arith in
      let head : update_row i f u ≡ f t = ground arith in
      let tail : map (update_row i f) txs ≡ txs =
        update_row_below i u.id f txs d.1 (ground arith) in
      rw (head, tail, same, e)
  | inr later ↦
      let head : update_row i f u ≡ u = ground arith in
      rw (head, spent-update a i u.id f t txs d.1 (ground arith) e)
]

receives_nothing_spent :
    (a : ℕ) (x now : ℤ) (t : TxRow)
    → incoming? t.type ≡ true
    → spent_row a (settle_internal x now t) ≡ spent_row a t
receives_nothing_spent a x now t i = grind arith

module _ (app : AppRow) (amount reserve : ℤ) (p : Purpose) (now : ℤ) (db : Db) where
  spent-held :
      spent app.id (held app amount reserve p now db).txs
      ≡ spent app.id db.txs +ℤ (amount +ℤ reserve)
  unfolding spent insert_tx credit
  spent-held = rw (==_refl app.id) (omega int_laws)

  spent-moved :
      (hash : String) (inc : TxRow)
      → IsSound db
      → find_internal hash db ≡ some inc
      → spent app.id (moved app amount reserve p now db inc).txs ≡ spent app.id db.txs +ℤ amount
  unfolding spent insert_tx update_tx credit
  spent-moved hash inc s waiting =
      rw
        (
          ==_refl app.id,
          spent-update app.id inc.id db.next_tx (settle_internal amount now) inc db.txs
              s.form.tx_ids
              (find_tx_again db.next_tx (awaiting hash) inc db.txs s.form.tx_ids first_waiting)
              (receives_nothing_spent app.id amount now inc
                (awaiting-parts hash inc (first-holds (awaiting hash) inc db.txs first_waiting)).0),
        )
        (omega int_laws)
    where
      first_waiting : first (awaiting hash) db.txs ≡ some inc
      first_waiting = find_internal-first hash inc db waiting

capped :
    (app : AppRow) (x : ℤ) (db : Db)
    → pos 0 <ℤ app.max_amount_sat
    → Allows app x db
    → spent app.id db.txs +ℤ x ≤ℤ app.max_amount_sat *ℤ 1000
capped app x db h (inl unlimited) = omega arith
capped app x db h (inr within) = within

the_app :
    (app app' : AppRow) (a : ℕ) (db : Db)
    → find_app a db ≡ some app
    → find_app a db ≡ some app'
    → app' ≡ app
the_app app app' a db h k = cc

Reserved-within :
    (a : ℕ) (amount reserve : ℤ) (p : Purpose) (now : ℤ) (db : Db) (app : AppRow) (r : ℕ × Option ℕ)
    (x : Result (ℕ × Option ℕ) × Db)
    → IsSound db
    → find_app a db ≡ some app
    → pos 0 <ℤ app.max_amount_sat
    → Reserved a amount reserve p now db x
    → x.0 ≡ ok r
    → spent app.id x.1.txs ≤ℤ app.max_amount_sat *ℤ 1000
Reserved-within a amount reserve p now db app r x s found cap (Reserved.refused e) no_way =
    absurd (cc)
Reserved-within a amount reserve p now db app r x s found cap
      (Reserved.outside app' found' external allows enough) done =
    let same : app' ≡ app = the_app app app' a db found found' in
    subst
      (λ q. spent app.id (held q amount reserve (filed p) now db).txs ≤ℤ app.max_amount_sat *ℤ 1000)
      (sym same)
      (rw (spent-held app amount reserve (filed p) now db) (
        capped app (amount +ℤ reserve) db cap
          (subst (λ q. Allows q (amount +ℤ reserve) db) same allows)))
Reserved-within a amount reserve p now db app r x s found cap
      (Reserved.inside app' inc found' waiting allows enough) done =
    let same : app' ≡ app = the_app app app' a db found found' in
    subst
      (λ q.
        spent app.id (moved q amount reserve (filed p) now db inc).txs
        ≤ℤ app.max_amount_sat *ℤ 1000)
      (sym same)
      (rw (spent-moved app amount reserve (filed p) now db (canonical p.payment_hash) inc s waiting)
        (capped app amount db cap (subst (λ q. Allows q amount db) same allows)))

-- Where the store is sound, a sub-wallet has a budget and its payment is reserved, all that it has spent and reserved
-- since it was created, this payment with its fee reserve included, is within the budget afterwards.
pub reserve_outgoing_payment-within_budget :
    (a : ℕ) (amount reserve : ℤ) (p : Purpose) (now : ℤ) (db : Db) (app : AppRow) (r : ℕ × Option ℕ)
    → IsSound db
    → find_app a db ≡ some app
    → pos 0 <ℤ app.max_amount_sat
    → (reserve_outgoing_payment a amount reserve p now db).0 ≡ ok r
    → spent app.id (reserve_outgoing_payment a amount reserve p now db).1.txs
      ≤ℤ app.max_amount_sat *ℤ 1000
reserve_outgoing_payment-within_budget a amount reserve p now db app r s found cap done =
    Reserved-within a amount reserve p now db app r
      (reserve_outgoing_payment a amount reserve p now db) s found cap
      (reserve-Reserved a amount reserve p now db) done
