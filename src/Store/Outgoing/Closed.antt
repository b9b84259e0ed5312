-- ===== src/Store/Outgoing/Closed.antt =====
-- A payment from its reservation to its end: what the two methods do to the balances together.
use sovran_bitcoin.Base.{ℕ, String, ◌≡◌, refl, ◌∙◌, Bool, true, false, Option, none, some, ◌==◌}
use mathlib.Core.Path.{subst}
use sovran_bitcoin.Base.Int.{ℤ, pos, ◌+ℤ◌, ◌-ℤ◌, ◌≤ℤ◌, max_ℤ, int_laws}
use sovran_bitcoin.Base.Monad.{Result, ok}
use sovran_bitcoin.Store.Ledger.Drift.{balance_in-credit, only}
use sovran_bitcoin.Store.Ledger.Form.{has_app-credit, find-insert_tx}
use sovran_bitcoin.Store.Ledger.{balance_in}
use sovran_bitcoin.Store.Outgoing.Cases.{held, Reserved, reserve-Reserved}
use sovran_bitcoin.Store.Outgoing.Finalize.{refund, finalize_failure, finalize_success}
use sovran_bitcoin.Store.Outgoing.Sound.{by_its_id}
use sovran_bitcoin.Store.Outgoing.{
  Purpose, external_row, filed, reserve_outgoing_payment, finalize_outgoing_payment,
}
use sovran_bitcoin.Store.Ledger.Form.{id-found}
use sovran_bitcoin.Store.Rows.{AppRow, TxRow, Db}
use sovran_bitcoin.Store.Sql.{find_app, find_tx, credit, update_tx, insert_tx}

only_there_and_back : (x y : ℤ) (b : Bool) → y +ℤ only b (pos 0 -ℤ x) +ℤ only b x ≡ y
only_there_and_back x y true = omega int_laws
only_there_and_back x y false = omega int_laws

charged :
    (amount reserve fees y : ℤ) (b : Bool)
    → pos 0 ≤ℤ fees
    → fees ≤ℤ reserve
    → y
        +ℤ only b (pos 0 -ℤ (amount +ℤ reserve))
        +ℤ only b (max_ℤ (pos 0) (reserve -ℤ max_ℤ (pos 0) fees))
      ≡ y -ℤ only b (amount +ℤ fees)
charged amount reserve fees y true sign within = grind int_laws
charged amount reserve fees y false sign within = omega int_laws

module _ (app : AppRow) (amount reserve : ℤ) (p : Purpose) (now : ℤ) (db : Db)
    (found : find_app app.id db ≡ some app) (b : ℕ) where
  abbrev pub waiting_row : TxRow
  waiting_row = record (external_row app.id amount reserve p now) { id = db.next_tx }

  pub found_held : find_tx db.next_tx (held app amount reserve p now db) ≡ some waiting_row
  unfolding credit
  found_held =
      find-insert_tx (external_row app.id amount reserve p now)
        (credit app.id (pos 0 -ℤ (amount +ℤ reserve)) db)

  balance_in-held-credit :
      (x : ℤ)
      → balance_in b (credit app.id x (held app amount reserve p now db)).apps
        ≡ balance_in b db.apps
          +ℤ only (app.id == b) (pos 0 -ℤ (amount +ℤ reserve))
          +ℤ only (app.id == b) x
  unfolding credit insert_tx
  balance_in-held-credit x = rw (
    balance_in-credit app.id b x (credit app.id (pos 0 -ℤ (amount +ℤ reserve)) db).apps
        (rw (has_app-credit app.id app.id (pos 0 -ℤ (amount +ℤ reserve)) db.apps) (rw found refl)),
    balance_in-credit app.id b (pos 0 -ℤ (amount +ℤ reserve)) db.apps (rw found refl),
  )

  failed_again :
      (preimage : String) (fees later : ℤ)
      → balance_in b
          (finalize_outgoing_payment db.next_tx false preimage fees later
            (held app amount reserve p now db)).1.apps
        ≡ balance_in b db.apps
  unfolding update_tx
  failed_again preimage fees later =
      rw
        (finalize_failure db.next_tx preimage fees later waiting_row
          (held app amount reserve p now db) found_held refl)
        (balance_in-held-credit (amount +ℤ reserve)
          ∙ only_there_and_back (amount +ℤ reserve) (balance_in b db.apps) (app.id == b))

  paid :
      (preimage : String) (fees later : ℤ)
      → pos 0 ≤ℤ fees
      → fees ≤ℤ reserve
      → balance_in b
          (finalize_outgoing_payment db.next_tx true preimage fees later
            (held app amount reserve p now db)).1.apps
        ≡ balance_in b db.apps -ℤ only (app.id == b) (amount +ℤ fees)
  unfolding update_tx
  paid preimage fees later sign within =
      rw
        (finalize_success db.next_tx preimage fees later waiting_row
          (held app amount reserve p now db) found_held refl)
        (balance_in-held-credit (refund waiting_row fees)
          ∙ charged amount reserve fees (balance_in b db.apps) (app.id == b) sign within)

same_id :
    (i n : ℕ) (o : Option ℕ) → ◌≡◌ {A = Result (ℕ × Option ℕ)} (ok (n, o)) (ok (i, none)) → n ≡ i
same_id i n o e = cc

-- A payment that was reserved to go out and then failed leaves every balance as it was before the
-- reservation, whatever preimage and fees are passed with the failure.
pub reserve_then_fail :
    (a i b : ℕ) (amount reserve fees : ℤ) (p : Purpose) (preimage : String) (now later : ℤ)
    (db : Db)
    → (reserve_outgoing_payment a amount reserve p now db).0 ≡ ok (i, none)
    → balance_in b
        (finalize_outgoing_payment i false preimage fees later
          (reserve_outgoing_payment a amount reserve p now db).1).1.apps
      ≡ balance_in b db.apps
reserve_then_fail a i b amount reserve fees p preimage now later db reserved =
    go (reserve_outgoing_payment a amount reserve p now db) reserved
      (reserve-Reserved a amount reserve p now db)
  where
    go :
        (x : Result (ℕ × Option ℕ) × Db)
        → x.0 ≡ ok (i, none)
        → Reserved a amount reserve p now db x
        → balance_in b (finalize_outgoing_payment i false preimage fees later x.1).1.apps
          ≡ balance_in b db.apps
    go x e (Reserved.refused exc) = absurd (cc)
    go x e (Reserved.outside app found external allows enough) =
        subst
          (λ n.
            balance_in b
              (finalize_outgoing_payment n false preimage fees later
                (held app amount reserve (filed p) now db)).1.apps
            ≡ balance_in b db.apps)
          (same_id i db.next_tx none e)
          (failed_again app amount reserve (filed p) now db (by_its_id a app db found) b preimage
            fees later)
    go x e (Reserved.inside app inc found waiting allows enough) = absurd (cc)

-- A payment that was reserved to go out and then went through, for fees that are not negative and
-- within its reserve, costs its wallet the amount and the fees, and no other wallet anything.
pub reserve_then_settle :
    (a i b : ℕ) (amount reserve fees : ℤ) (p : Purpose) (preimage : String) (now later : ℤ)
    (db : Db)
    → (reserve_outgoing_payment a amount reserve p now db).0 ≡ ok (i, none)
    → pos 0 ≤ℤ fees
    → fees ≤ℤ reserve
    → balance_in b
        (finalize_outgoing_payment i true preimage fees later
          (reserve_outgoing_payment a amount reserve p now db).1).1.apps
      ≡ balance_in b db.apps -ℤ only (a == b) (amount +ℤ fees)
reserve_then_settle a i b amount reserve fees p preimage now later db reserved sign within =
    go (reserve_outgoing_payment a amount reserve p now db) reserved
      (reserve-Reserved a amount reserve p now db)
  where
    go :
        (x : Result (ℕ × Option ℕ) × Db)
        → x.0 ≡ ok (i, none)
        → Reserved a amount reserve p now db x
        → balance_in b (finalize_outgoing_payment i true preimage fees later x.1).1.apps
          ≡ balance_in b db.apps -ℤ only (a == b) (amount +ℤ fees)
    go x e (Reserved.refused exc) = absurd (cc)
    go x e (Reserved.outside app found external allows enough) =
        subst
          (λ c.
            balance_in b
              (finalize_outgoing_payment i true preimage fees later
                (held app amount reserve (filed p) now db)).1.apps
            ≡ balance_in b db.apps -ℤ only (c == b) (amount +ℤ fees))
          (id-found a app db.apps found)
          (subst
            (λ n.
              balance_in b
                (finalize_outgoing_payment n true preimage fees later
                  (held app amount reserve (filed p) now db)).1.apps
              ≡ balance_in b db.apps -ℤ only (app.id == b) (amount +ℤ fees))
            (same_id i db.next_tx none e)
            (paid app amount reserve (filed p) now db (by_its_id a app db found) b preimage fees
              later sign within))
    go x e (Reserved.inside app inc found waiting allows enough) = absurd (cc)
