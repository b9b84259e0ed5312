-- ===== src/Store/Transfer/Sound.antt =====
-- A transfer keeps the invariant of the store.
use sovran_bitcoin.Base.{
  ◌&&◌, is_none, ℕ, String, ◌≡◌, refl, inl, inr, Option, none, some, arith, Bool-cases,
  Option-cases,
}
use sovran_bitcoin.Base.Int.{
  ℤ, pos, ◌-ℤ◌, ◌<ℤ◌, leb_ℤ, ltb_ℤ, int_laws, le_of_not-ltb, lt_of_not-leb,
}
use sovran_bitcoin.Base.Monad.{Stays, Stays-bind, Stays-transaction, pure, transaction}
use sovran_bitcoin.Store.Ledger.Book.{book-IsSound}
use sovran_bitcoin.Store.Ledger.Form.{balance_in-found, IsProper-new}
use sovran_bitcoin.Store.Ledger.{entry, IsSound}
use sovran_bitcoin.Store.Rows.{AppRow, TxType, Db}
use sovran_bitcoin.Store.Sql.{find_app}
use sovran_bitcoin.Store.Transfer.{transfer_row, debit_source, credit_destination, move, transfer}

module _ (amount : ℤ) (description : String) (now : ℤ) (sign : pos 0 <ℤ amount) where
  source_found :
      (a : ℕ) (r : AppRow) (db : Db)
      → find_app a db ≡ some r
      → IsSound db
      → IsSound (debit_source (some a) amount description now db).1
  unfolding debit_source entry
  source_found a r db found s = elim (Bool-cases (ltb_ℤ r.balance_msat amount)) [
    | inl short ↦ rw (found, short) s
    | inr enough ↦
        rw (found, enough)
          (book-IsSound (pos 0 -ℤ amount) (transfer_row TxType.outgoing a amount description now) db
            (rw found refl)
            (rw (balance_in-found a r db.apps found)
              (omega (int_laws, le_of_not-ltb r.balance_msat amount enough)))
            (IsProper-new _ (omega arith) (omega arith) refl) (omega int_laws) s)
  ]

  debit_source-IsSound :
      (from : Option ℕ) (db : Db)
      → IsSound db
      → IsSound (debit_source from amount description now db).1
  unfolding debit_source
  debit_source-IsSound none db s = s
  debit_source-IsSound (some a) db s = elim (Option-cases (find_app a db)) [
    | inl unknown ↦ rw unknown s
    | inr (r, found) ↦ source_found a r db found s
  ]

  credit_destination-IsSound :
      (to : Option ℕ) (db : Db)
      → IsSound db
      → IsSound (credit_destination to amount description now db).1
  unfolding credit_destination entry
  credit_destination-IsSound none db s = s
  credit_destination-IsSound (some a) db s = elim (Option-cases (find_app a db)) [
    | inl unknown ↦ rw unknown s
    | inr (r, found) ↦ rw found (
        book-IsSound amount (transfer_row TxType.incoming a amount description now) db
          (rw found refl) (omega (int_laws, s.funded a))
          (IsProper-new _ (omega arith) (omega arith) refl) (omega int_laws) s)
  ]

  move-IsSound : (from to : Option ℕ) → Stays IsSound (move from to amount description now)
  unfolding move
  move-IsSound from to =
      Stays-bind IsSound (debit_source from amount description now)
        (λ _. credit_destination to amount description now) (debit_source-IsSound from)
        (λ _. credit_destination-IsSound to)

-- A transfer keeps the invariant of the store, whatever its arguments, and also when it raises.
pub transfer-IsSound :
    (from to : Option ℕ) (amount : ℤ) (description : String) (now : ℤ) (db : Db)
    → IsSound db
    → IsSound (transfer from to amount description now db).1
unfolding transfer
transfer-IsSound from to amount description now db s = elim (Bool-cases (leb_ℤ amount (pos 0))) [
  | inl bad ↦ rw bad s
  | inr positive ↦ elim (Bool-cases (is_none from && is_none to)) [
    | inl neither ↦ rw (positive, neither) s
    | inr either ↦
        rw (positive, either)
          (Stays-bind IsSound (transaction (move from to amount description now)) (λ _. pure amount)
            (Stays-transaction IsSound (move from to amount description now)
              (move-IsSound amount description now (lt_of_not-leb amount (pos 0) positive) from to))
            (λ _ db s. s) db s)
  ]
]
