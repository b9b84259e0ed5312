-- ===== src/Store/Outgoing/Finalize.antt =====
-- Closing a payment: what `finalize_outgoing_payment` does, and that it keeps the invariant.
use sovran_bitcoin.Base.{
  ℕ, String, ◌≡◌, refl, inl, inr, Bool, true, false, some, List, [], ◌∷◌, map, first, ◌==◌, arith,
  Bool-cases,
}
use mathlib.Core.Path.{subst, sym}
use sovran_bitcoin.Base.Int.{ℤ, pos, ◌+ℤ◌, ◌-ℤ◌, ◌≤ℤ◌, ltb_ℤ, max_ℤ, int_laws, +ℤ_zero}
use sovran_bitcoin.Base.Monad.{ok}
use sovran_bitcoin.Store.Ledger.Book.{rebook-IsSound}
use sovran_bitcoin.Store.Ledger.Form.{Keeps, All-first, find-update_tx, id-found_tx}
use sovran_bitcoin.Store.Ledger.{entry, IsProper, IsSound}
use sovran_bitcoin.Store.Outgoing.{settle_outgoing, fail_outgoing, finalize_outgoing_payment}
use sovran_bitcoin.Store.Rows.{AppRow, TxRow, Db, tx_dict}
use sovran_bitcoin.Store.Sql.{
  outgoing?, pending?, find_tx, credit_row, credit, update_row, update_tx,
}

abbrev pub paid_fee : ℤ → ℤ
paid_fee fees = max_ℤ (pos 0) fees

abbrev pub refund : TxRow → ℤ → ℤ
refund t fees = max_ℤ (pos 0) (t.fee_reserve_msat -ℤ paid_fee fees)

map-credit_zero : (a : ℕ) (rs : List AppRow) → map (credit_row a (pos 0)) rs ≡ rs
map-credit_zero a [] = refl
map-credit_zero a (r ∷ rs) = ground (arith, +ℤ_zero r.balance_msat, map-credit_zero a rs)

pub credit_zero : (a : ℕ) (db : Db) → credit a (pos 0) db ≡ db
unfolding credit
credit_zero a db = rw (map-credit_zero a db.apps)

refund_none : (t : TxRow) (fees : ℤ) → ltb_ℤ (pos 0) (refund t fees) ≡ false → refund t fees ≡ pos 0
refund_none t fees h = ground arith

module _ (i : ℕ) (preimage : String) (fees now : ℤ) (t : TxRow) (db : Db)
    (found : find_tx i db ≡ some t) where
  same_id : find_tx t.id db ≡ some t
  same_id = subst (λ j. find_tx j db ≡ some t) (sym (id-found_tx i t db.txs found)) found

  -- A transaction that is closed already stays as it is.
  pub finalize_closed :
      (done : Bool)
      → pending? t.state ≡ false
      → finalize_outgoing_payment i done preimage fees now db ≡ (ok (tx_dict t), db)
  unfolding finalize_outgoing_payment
  finalize_closed done closed = rw (found, closed)

  after :
      (f : TxRow → TxRow)
      → ((u : TxRow) → (f u).id ≡ u.id)
      → first (λ u. u.id == t.id) (map (update_row t.id f) db.txs) ≡ some (f t)
  after f k = find-update_tx t.id f t db.txs k same_id

  pub finalize_failure :
      pending? t.state ≡ true
      → finalize_outgoing_payment i false preimage fees now db ≡ (
        ok (tx_dict (fail_outgoing t)),
        update_tx t.id fail_outgoing (credit t.app_id (t.amount_msat +ℤ t.fee_reserve_msat) db),
      )
  unfolding finalize_outgoing_payment update_tx credit
  finalize_failure waiting =
      rw (found, waiting, after fail_outgoing (λ u. refl), after fail_outgoing (λ u. refl))

  abbrev pub settled_row : TxRow → TxRow
  settled_row = settle_outgoing (paid_fee fees) preimage now

  with_refund :
      pending? t.state ≡ true
      → ltb_ℤ (pos 0) (refund t fees) ≡ true
      → finalize_outgoing_payment i true preimage fees now db ≡ (
        ok (tx_dict (settled_row t)),
        update_tx t.id settled_row (credit t.app_id (refund t fees) db),
      )
  unfolding finalize_outgoing_payment update_tx credit
  with_refund waiting left =
      rw (found, waiting, left, after settled_row (λ u. refl), after settled_row (λ u. refl))

  without_refund :
      pending? t.state ≡ true
      → ltb_ℤ (pos 0) (refund t fees) ≡ false
      → finalize_outgoing_payment i true preimage fees now db
        ≡ (ok (tx_dict (settled_row t)), update_tx t.id settled_row db)
  unfolding finalize_outgoing_payment update_tx
  without_refund waiting none_left =
      rw (found, waiting, none_left, after settled_row (λ u. refl), after settled_row (λ u. refl))

  pub finalize_success :
      pending? t.state ≡ true
      → finalize_outgoing_payment i true preimage fees now db ≡ (
        ok (tx_dict (settled_row t)),
        update_tx t.id settled_row (credit t.app_id (refund t fees) db),
      )
  finalize_success waiting = elim (Bool-cases (ltb_ℤ (pos 0) (refund t fees))) [
    | inl left ↦ with_refund waiting left
    | inr none_left ↦
        rw (refund_none t fees none_left, credit_zero t.app_id db)
          (without_refund waiting none_left)
  ]

fail_gain :
    (t : TxRow)
    → outgoing? t.type ≡ true
    → pending? t.state ≡ true
    → t.fees_paid_msat ≡ pos 0
    → t.amount_msat +ℤ t.fee_reserve_msat ≡ entry (fail_outgoing t) -ℤ entry t
unfolding entry
fail_gain t o p z = grind int_laws

settle_gain :
    (fees : ℤ) (preimage : String) (now : ℤ) (t : TxRow)
    → outgoing? t.type ≡ true
    → pending? t.state ≡ true
    → t.fees_paid_msat ≡ pos 0
    → paid_fee fees ≤ℤ t.fee_reserve_msat
    → refund t fees ≡ entry (settle_outgoing (paid_fee fees) preimage now t) -ℤ entry t
unfolding entry
settle_gain fees preimage now t o p z h = grind int_laws

paid_fee-nonneg : (fees : ℤ) → pos 0 ≤ℤ paid_fee fees
paid_fee-nonneg fees = ground arith

refund-nonneg : (t : TxRow) (fees : ℤ) → pos 0 ≤ℤ refund t fees
refund-nonneg t fees = ground arith

settle_outgoing-Keeps :
    (fee : ℤ) (preimage : String) (now : ℤ)
    → pos 0 ≤ℤ fee
    → Keeps (settle_outgoing fee preimage now)
settle_outgoing-Keeps fee preimage now h = record {
  id = λ t. refl;
  owner = λ t. refl;
  proper = λ t n. record {
    amount = n.amount;
    fees = h;
    reserve = omega arith;
    unpaid = λ e. absurd (cc);
  };
}

fail_outgoing-Keeps : Keeps fail_outgoing
fail_outgoing-Keeps = record {
  id = λ t. refl;
  owner = λ t. refl;
  proper = λ t n. record {
    amount = n.amount;
    fees = n.fees;
    reserve = omega arith;
    unpaid = λ e. absurd (cc);
  };
}

-- The fees of a payment that went through are at most what was reserved for them: LND is given the
-- reserve as its limit.
abbrev pub WithinReserve : Bool → ℤ → TxRow → Type 0
WithinReserve true fees t = paid_fee fees ≤ℤ t.fee_reserve_msat
WithinReserve false fees t = Unit

-- Closing an outgoing payment keeps the invariant, whichever way it ended, if LND took no more than
-- the reserve in fees.
pub finalize_outgoing_payment-IsSound :
    (i : ℕ) (done : Bool) (preimage : String) (fees now : ℤ) (t : TxRow) (db : Db)
    → find_tx i db ≡ some t
    → outgoing? t.type ≡ true
    → WithinReserve done fees t
    → IsSound db
    → IsSound (finalize_outgoing_payment i done preimage fees now db).1
finalize_outgoing_payment-IsSound i done preimage fees now t db found out within s =
    elim (Bool-cases (pending? t.state)) [
      | inr closed ↦ rw (finalize_closed i preimage fees now t db found done closed) s
      | inl waiting ↦ close done within waiting
    ]
  where
    proper : IsProper t
    proper = All-first IsProper (λ u. u.id == i) t db.txs s.form.amounts found

    close :
        (d : Bool)
        → WithinReserve d fees t
        → pending? t.state ≡ true
        → IsSound (finalize_outgoing_payment i d preimage fees now db).1
    close true h waiting = rw (finalize_success i preimage fees now t db found waiting) (
        rebook-IsSound t.id (refund t fees) (settle_outgoing (paid_fee fees) preimage now) t db
          (same_id i preimage fees now t db found)
          (omega (int_laws, s.funded t.app_id, refund-nonneg t fees))
          (settle_outgoing-Keeps (paid_fee fees) preimage now (paid_fee-nonneg fees))
          (settle_gain fees preimage now t out waiting (proper.unpaid waiting) h) s)
    close false h waiting = rw (finalize_failure i preimage fees now t db found waiting) (
        rebook-IsSound t.id (t.amount_msat +ℤ t.fee_reserve_msat) fail_outgoing t db
          (same_id i preimage fees now t db found)
          (omega (int_laws, s.funded t.app_id, proper.amount, proper.reserve)) fail_outgoing-Keeps
          (fail_gain t out waiting (proper.unpaid waiting)) s)
