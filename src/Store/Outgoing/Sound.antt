-- ===== src/Store/Outgoing/Sound.antt =====
-- Reserving, settling and failing a payment keep the invariant of the store.
use sovran_bitcoin.Base.{
  ℕ, String, ◌≡◌, refl, inl, inr, true, Option, none, some, first, arith, Bool-cases,
}
use mathlib.Core.Path.{subst, sym}
use sovran_bitcoin.Base.Int.{ℤ, pos, ◌+ℤ◌, ◌-ℤ◌, ◌≤ℤ◌, int_laws}
use sovran_bitcoin.Base.Monad.{Result}
use sovran_bitcoin.Base.Text.{nonempty, canonical}
use sovran_bitcoin.Store.Ledger.Book.{book-IsSound, internal-IsSound}
use sovran_bitcoin.Store.Ledger.Form.{
  IsProper-new, Keeps, first-holds, find_tx_again, balance_in-found, id-found,
}
use sovran_bitcoin.Store.Ledger.{entry, IsSound}
use sovran_bitcoin.Store.Outgoing.{
  Purpose, internal_row, external_row, filed, awaiting, find_internal, settle_internal,
  reserve_outgoing_payment,
}
use sovran_bitcoin.Store.Outgoing.Cases.{held, moved, Reserved, reserve-Reserved}
use sovran_bitcoin.Store.Rows.{AppRow, TxRow, Db}
use sovran_bitcoin.Store.Sql.{incoming?, pending?, find_app}

none_or_some : {A : Type 0} {a : A} → none ≡ some a → ⊥
none_or_some e = cc

settle_internal-Keeps : (x now : ℤ) → pos 0 ≤ℤ x → Keeps (settle_internal x now)
settle_internal-Keeps x now h = record {
  id = λ t. refl;
  owner = λ t. refl;
  proper =
      λ t n. record { amount = h; fees = n.fees; reserve = n.reserve; unpaid = λ e. absurd (cc) };
}

internal_gain :
    (x now : ℤ) (t : TxRow)
    → incoming? t.type ≡ true
    → pending? t.state ≡ true
    → x ≡ entry (settle_internal x now t) -ℤ entry t
unfolding entry
internal_gain x now t i p = grind int_laws

pub awaiting-parts :
    (hash : String) (t : TxRow)
    → awaiting hash t ≡ true
    → (incoming? t.type ≡ true) × (pending? t.state ≡ true)
awaiting-parts hash t h = ground arith

pub find_internal-first :
    (hash : String) (t : TxRow) (db : Db)
    → find_internal hash db ≡ some t
    → first (awaiting hash) db.txs ≡ some t
find_internal-first hash t db h = elim (Bool-cases (nonempty hash)) [
  | inl some_hash ↦ rw some_hash at h
  | inr no_hash ↦ absurd (none_or_some (rw no_hash at h))
]

module _ (amount reserve : ℤ) (p : Purpose) (now : ℤ) (db : Db) (app : AppRow) (s : IsSound db)
    (found : find_app app.id db ≡ some app) (sign : pos 0 ≤ℤ amount) where
  held-IsSound :
      pos 0 ≤ℤ reserve
      → amount +ℤ reserve ≤ℤ app.balance_msat
      → IsSound (held app amount reserve p now db)
  unfolding entry
  held-IsSound sign' enough =
      book-IsSound (pos 0 -ℤ (amount +ℤ reserve)) (external_row app.id amount reserve p now) db
        (rw found refl) (rw (balance_in-found app.id app db.apps found) (omega (int_laws, enough)))
        (IsProper-new _ sign sign' refl) (omega int_laws) s

  moved-IsSound :
      (hash : String) (inc : TxRow)
      → find_internal hash db ≡ some inc
      → amount ≤ℤ app.balance_msat
      → IsSound (moved app amount reserve p now db inc)
  unfolding entry
  moved-IsSound hash inc waiting enough =
      internal-IsSound inc.id amount (settle_internal amount now) inc
        (internal_row app.id amount p inc.preimage now) db
        (find_tx_again db.next_tx (awaiting hash) inc db.txs s.form.tx_ids first_waiting)
        (rw found refl) sign (rw (balance_in-found app.id app db.apps found) enough)
        (settle_internal-Keeps amount now sign) (IsProper-new _ sign (omega arith) refl)
        (internal_gain amount now inc parts.0 parts.1) (omega int_laws) s
    where
      first_waiting : first (awaiting hash) db.txs ≡ some inc
      first_waiting = find_internal-first hash inc db waiting

      parts : (incoming? inc.type ≡ true) × (pending? inc.state ≡ true)
      parts = awaiting-parts hash inc (first-holds (awaiting hash) inc db.txs first_waiting)

-- A row that is found by an id has it.
pub by_its_id :
    (a : ℕ) (app : AppRow) (db : Db) → find_app a db ≡ some app → find_app app.id db ≡ some app
by_its_id a app db found =
    subst (λ i. find_app i db ≡ some app) (sym (id-found a app db.apps found)) found

Reserved-IsSound :
    (a : ℕ) (amount reserve : ℤ) (p : Purpose) (now : ℤ) (db : Db) (x : Result (ℕ × Option ℕ) × Db)
    → pos 0 ≤ℤ amount
    → pos 0 ≤ℤ reserve
    → IsSound db
    → Reserved a amount reserve p now db x
    → IsSound x.1
Reserved-IsSound a amount reserve p now db x sign sign' s (Reserved.refused e) = s
Reserved-IsSound a amount reserve p now db x sign sign' s
      (Reserved.outside app found external allows enough) =
    held-IsSound amount reserve (filed p) now db app s (by_its_id a app db found) sign sign' enough
Reserved-IsSound a amount reserve p now db x sign sign' s
      (Reserved.inside app inc found waiting allows enough) =
    moved-IsSound amount reserve (filed p) now db app s (by_its_id a app db found) sign
      (canonical p.payment_hash) inc waiting enough

-- Reserving a payment keeps the invariant, also when it is refused or settles inside the node.
pub reserve_outgoing_payment-IsSound :
    (a : ℕ) (amount reserve : ℤ) (p : Purpose) (now : ℤ) (db : Db)
    → pos 0 ≤ℤ amount
    → pos 0 ≤ℤ reserve
    → IsSound db
    → IsSound (reserve_outgoing_payment a amount reserve p now db).1
reserve_outgoing_payment-IsSound a amount reserve p now db sign sign' s =
    Reserved-IsSound a amount reserve p now db (reserve_outgoing_payment a amount reserve p now db)
      sign sign' s (reserve-Reserved a amount reserve p now db)
