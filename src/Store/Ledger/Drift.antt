-- ===== src/Store/Ledger/Drift.antt =====
-- How each SQL statement moves the balance column and the sum of the transactions.
use sovran_bitcoin.Base.{
  ℕ, ◌≤◌, ◌≡◌, refl, inl, inr, Bool, true, false, some, List, [], ◌∷◌, map, first, ◌==◌, ==_iff,
  arith, Bool-cases, if◌then◌else◌,
}
use sovran_bitcoin.Base.Int.{ℤ, pos, ◌+ℤ◌, ◌-ℤ◌, int_laws, +ℤ_zero}
use mathlib.Core.Path.{subst}
use sovran_bitcoin.Store.Ledger.{entry, share, ledger, balance_in, drift, Descends, has_app}
use sovran_bitcoin.Store.Rows.{AppRow, TxRow, Db}
use sovran_bitcoin.Store.Sql.{credit_row, credit, update_row, update_tx, insert_tx}

abbrev pub only : Bool → ℤ → ℤ
only b x = if b then x else pos 0

balance_in-credit_ne :
    (a b : ℕ) (x : ℤ) (rs : List AppRow)
    → (a == b) ≡ false
    → balance_in b (map (credit_row a x) rs) ≡ balance_in b rs
unfolding balance_in
balance_in-credit_ne a b x [] h = refl
balance_in-credit_ne a b x (r ∷ rs) h = ground (arith, balance_in-credit_ne a b x rs h)

balance_in-credit_self :
    (a : ℕ) (x : ℤ) (rs : List AppRow)
    → has_app a rs ≡ true
    → balance_in a (map (credit_row a x) rs) ≡ balance_in a rs +ℤ x
unfolding balance_in
balance_in-credit_self a x [] h = cc
balance_in-credit_self a x (r ∷ rs) h = ground (arith, balance_in-credit_self a x rs)

pub balance_in-credit :
    (a b : ℕ) (x : ℤ) (rs : List AppRow)
    → has_app a rs ≡ true
    → balance_in b (map (credit_row a x) rs) ≡ balance_in b rs +ℤ only (a == b) x
balance_in-credit a b x rs h = elim (Bool-cases (a == b)) [
  | inl same ↦
      rw (same, only)
        (subst (λ c. balance_in c (map (credit_row a x) rs) ≡ balance_in c rs +ℤ x)
          ((==_iff a b).0 same) (balance_in-credit_self a x rs h))
  | inr other ↦ rw (other, only, +ℤ_zero) (balance_in-credit_ne a b x rs other)
]

pub update_row_below :
    (i bound : ℕ) (f : TxRow → TxRow) (txs : List TxRow)
    → Descends TxRow.id bound txs
    → bound ≤ i
    → map (update_row i f) txs ≡ txs
update_row_below i bound f [] d le = refl
update_row_below i bound f (t ∷ txs) d le = ground (arith, update_row_below i t.id f txs d.1)

share_change :
    (b : ℕ) (t u : TxRow)
    → u.app_id ≡ t.app_id
    → share b u ≡ share b t +ℤ only (t.app_id == b) (entry u -ℤ entry t)
share_change b t u e = grind int_laws

plus_shift : (s t l d : ℤ) → s ≡ t +ℤ d → s +ℤ l ≡ t +ℤ l +ℤ d
plus_shift s t l d h = rw h (omega int_laws)

pub ledger-update :
    (b i bound : ℕ) (f : TxRow → TxRow) (t : TxRow) (txs : List TxRow)
    → Descends TxRow.id bound txs
    → first (λ u. u.id == i) txs ≡ some t
    → (f t).app_id ≡ t.app_id
    → ledger b (map (update_row i f) txs)
      ≡ ledger b txs +ℤ only (t.app_id == b) (entry (f t) -ℤ entry t)
unfolding ledger
ledger-update b i bound f t [] d h e = cc
ledger-update b i bound f t (u ∷ txs) d h e = elim (Bool-cases (u.id == i)) [
  | inl here ↦
      let same : u ≡ t = ground arith in
      let head : update_row i f u ≡ f t = ground arith in
      let tail : map (update_row i f) txs ≡ txs =
        update_row_below i u.id f txs d.1 (ground arith) in
      rw (head, tail, same) (plus_shift _ _ _ _ (share_change b t (f t) e))
  | inr later ↦
      let head : update_row i f u ≡ u = ground arith in
      rw (head, ledger-update b i u.id f t txs d.1 (ground arith) e) (omega int_laws)
]

-- The three statements that touch balances or transactions.
pub drift-credit :
    (a b : ℕ) (x : ℤ) (db : Db)
    → has_app a db.apps ≡ true
    → drift b (credit a x db) ≡ drift b db +ℤ only (a == b) x
unfolding drift credit
drift-credit a b x db h = rw (balance_in-credit a b x db.apps h) (omega int_laws)

pub drift-insert_tx :
    (b : ℕ) (t : TxRow) (db : Db)
    → drift b (insert_tx t db) ≡ drift b db -ℤ only (t.app_id == b) (entry t)
unfolding drift insert_tx ledger entry
drift-insert_tx b t db = omega int_laws

pub drift-update_tx :
    (b i : ℕ) (f : TxRow → TxRow) (t : TxRow) (db : Db)
    → Descends TxRow.id db.next_tx db.txs
    → first (λ u. u.id == i) db.txs ≡ some t
    → (f t).app_id ≡ t.app_id
    → drift b (update_tx i f db) ≡ drift b db -ℤ only (t.app_id == b) (entry (f t) -ℤ entry t)
unfolding drift update_tx
drift-update_tx b i f t db d h e =
    rw (ledger-update b i db.next_tx f t db.txs d h e) (omega int_laws)
