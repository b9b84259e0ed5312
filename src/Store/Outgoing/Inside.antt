-- ===== src/Store/Outgoing/Inside.antt =====
-- Payments that are refused, payments inside the node, and payments that are closed twice.
use sovran_bitcoin.Base.{
  ℕ, String, ◌≡◌, refl, sym, inl, inr, Bool, true, false, Option, none, some, map, Bool-cases,
  Option-cases,
}
use mathlib.Core.Path.{subst}
use sovran_bitcoin.Base.Int.{ℤ, pos, ◌+ℤ◌, ◌-ℤ◌, int_laws}
use sovran_bitcoin.Base.Monad.{Result, ok}
use sovran_bitcoin.Store.Ledger.Form.{
  All-first, has_app-credit, credit-IsWellFormed, find-update_tx, id-found_tx,
}
use sovran_bitcoin.Store.Ledger.Pool.{pool, pool-credit_row}
use sovran_bitcoin.Store.Ledger.{has_app, IsOwned, IsSound}
use sovran_bitcoin.Store.Outgoing.Cases.{moved, Reserved, reserve-Reserved}
use sovran_bitcoin.Store.Outgoing.Finalize.{
  paid_fee, refund, finalize_closed, finalize_failure, finalize_success,
}
use sovran_bitcoin.Store.Outgoing.Sound.{find_internal-first, by_its_id}
use sovran_bitcoin.Store.Outgoing.{
  Purpose, awaiting, find_internal, filed, settle_outgoing, fail_outgoing, reserve_outgoing_payment,
  finalize_outgoing_payment,
}
use sovran_bitcoin.Store.Rows.{AppRow, TxRow, Db}
use sovran_bitcoin.Store.Sql.{pending?, credit_row, find_app, find_tx, credit, update_tx, insert_tx}

pool-moved :
    (amount reserve : ℤ) (p : Purpose) (now : ℤ) (db : Db) (app : AppRow) (inc : TxRow)
    → IsSound db
    → find_app app.id db ≡ some app
    → find_internal p.payment_hash db ≡ some inc
    → pool (moved app amount reserve p now db inc).apps ≡ pool db.apps
unfolding insert_tx update_tx credit
pool-moved amount reserve p now db app inc s found waiting =
    rw
      (
        pool-credit_row inc.app_id db.next_app amount
            (map (credit_row app.id (pos 0 -ℤ amount)) db.apps)
            (credit-IsWellFormed app.id (pos 0 -ℤ amount) db s.form).app_ids
            (rw (has_app-credit app.id inc.app_id (pos 0 -ℤ amount) db.apps) payee),
        pool-credit_row app.id db.next_app (pos 0 -ℤ amount) db.apps s.form.app_ids (rw found refl),
      )
      (omega int_laws)
  where
    payee : has_app inc.app_id db.apps ≡ true
    payee =
        All-first (IsOwned db.apps) (awaiting p.payment_hash) inc db.txs s.form.owned
          (find_internal-first p.payment_hash inc db waiting)

-- In a sound store, a payment that stays inside the node never changes the sum of all balances.
pub reserve_outgoing_payment-pool :
    (a i payee : ℕ) (amount reserve : ℤ) (p : Purpose) (now : ℤ) (db : Db)
    → IsSound db
    → (reserve_outgoing_payment a amount reserve p now db).0 ≡ ok (i, some payee)
    → pool (reserve_outgoing_payment a amount reserve p now db).1.apps ≡ pool db.apps
reserve_outgoing_payment-pool a i payee amount reserve p now db s h =
    go (reserve_outgoing_payment a amount reserve p now db) h
      (reserve-Reserved a amount reserve p now db)
  where
    go :
        (x : Result (ℕ × Option ℕ) × Db)
        → x.0 ≡ ok (i, some payee)
        → Reserved a amount reserve p now db x
        → pool x.1.apps ≡ pool db.apps
    go x h (Reserved.refused exc) = refl
    go x h (Reserved.outside app found external allows enough) = absurd (cc)
    go x h (Reserved.inside app inc found waiting allows enough) =
        pool-moved amount reserve (filed p) now db app inc s (by_its_id a app db found) waiting

module _ (i : ℕ) (t : TxRow) (db : Db) (found : find_tx i db ≡ some t) where
  closed_row :
      (f : TxRow → TxRow) (x : ℤ)
      → ((u : TxRow) → (f u).id ≡ u.id)
      → find_tx i (update_tx t.id f (credit t.app_id x db)) ≡ some (f t)
  unfolding update_tx credit
  closed_row f x k =
      subst (λ j. find_tx i (update_tx j f (credit t.app_id x db)) ≡ some (f t))
        (sym (id-found_tx i t db.txs found)) (find-update_tx i f t db.txs k found)

  again_open :
      (done done' : Bool) (preimage preimage' : String) (fees fees' now now' : ℤ)
      → pending? t.state ≡ true
      → let once = (finalize_outgoing_payment i done preimage fees now db).1 in
        (finalize_outgoing_payment i done' preimage' fees' now' once).1 ≡ once
  again_open true done' preimage preimage' fees fees' now now' waiting = rw (
    finalize_success i preimage fees now t db found waiting,
    finalize_closed i preimage' fees' now' (settle_outgoing (paid_fee fees) preimage now t)
        (update_tx t.id (settle_outgoing (paid_fee fees) preimage now)
          (credit t.app_id (refund t fees) db))
        (closed_row (settle_outgoing (paid_fee fees) preimage now) (refund t fees) (λ u. refl))
        done' refl,
  )
  again_open false done' preimage preimage' fees fees' now now' waiting = rw (
    finalize_failure i preimage fees now t db found waiting,
    finalize_closed i preimage' fees' now' (fail_outgoing t)
        (update_tx t.id fail_outgoing (credit t.app_id (t.amount_msat +ℤ t.fee_reserve_msat) db))
        (closed_row fail_outgoing (t.amount_msat +ℤ t.fee_reserve_msat) (λ u. refl)) done' refl,
  )

unknown_tx :
    (i : ℕ) (done : Bool) (preimage : String) (fees now : ℤ) (db : Db)
    → find_tx i db ≡ none
    → (finalize_outgoing_payment i done preimage fees now db).1 ≡ db
unfolding finalize_outgoing_payment
unknown_tx i done preimage fees now db unknown = rw unknown

-- Closing a transaction a second time changes nothing, whatever the second call says of the outcome:
-- a fee is charged once, and a failure is refunded once.
pub finalize_outgoing_payment-once :
    (i : ℕ) (done done' : Bool) (preimage preimage' : String) (fees fees' now now' : ℤ) (db : Db)
    → let once = (finalize_outgoing_payment i done preimage fees now db).1 in
      (finalize_outgoing_payment i done' preimage' fees' now' once).1 ≡ once
finalize_outgoing_payment-once i done done' preimage preimage' fees fees' now now' db =
    elim (Option-cases (find_tx i db)) [
      | inl unknown ↦ rw (
        unknown_tx i done preimage fees now db unknown,
        unknown_tx i done' preimage' fees' now' db unknown,
      )
      | inr (t, found) ↦ elim (Bool-cases (pending? t.state)) [
        | inl waiting ↦
            again_open i t db found done done' preimage preimage' fees fees' now now' waiting
        | inr closed ↦ rw (
          finalize_closed i preimage fees now t db found done closed,
          finalize_closed i preimage' fees' now' t db found done' closed,
        )
      ]
    ]
