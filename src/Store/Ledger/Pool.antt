-- ===== src/Store/Ledger/Pool.antt =====
-- All the money that the sub-wallets hold together, and what the balance statement does to it.
use sovran_bitcoin.Base.{
  ℕ, ◌≤◌, ◌≡◌, refl, inl, inr, true, none, some, List, [], ◌∷◌, map, first, ◌==◌, arith, Bool-cases,
}
use sovran_bitcoin.Base.Int.{ℤ, pos, ◌+ℤ◌, int_laws}
use sovran_bitcoin.Store.Ledger.{Descends, has_app}
use sovran_bitcoin.Store.Rows.{AppRow, Db}
use sovran_bitcoin.Store.Sql.{credit_row, credit, find_app}

unfoldable pub pool : List AppRow → ℤ
pool [] = pos 0
pool (r ∷ rs) = r.balance_msat +ℤ pool rs

credit_row_below :
    (a bound : ℕ) (x : ℤ) (rs : List AppRow)
    → Descends AppRow.id bound rs
    → bound ≤ a
    → map (credit_row a x) rs ≡ rs
credit_row_below a bound x [] d le = refl
credit_row_below a bound x (r ∷ rs) d le = ground (arith, credit_row_below a r.id x rs d.1)

pub pool-credit_row :
    (a bound : ℕ) (x : ℤ) (rs : List AppRow)
    → Descends AppRow.id bound rs
    → has_app a rs ≡ true
    → pool (map (credit_row a x) rs) ≡ pool rs +ℤ x
unfolding pool
pool-credit_row a bound x [] d own = cc
pool-credit_row a bound x (r ∷ rs) d own = elim (Bool-cases (r.id == a)) [
  | inl here ↦ rw (here, credit_row_below a r.id x rs d.1 (ground arith)) (omega int_laws)
  | inr later ↦ rw (later, pool-credit_row a r.id x rs d.1 (ground arith)) (omega int_laws)
]

-- A lookup behind a balance statement.
find-credit_row :
    (a b : ℕ) (x : ℤ) (rs : List AppRow)
    → first (λ r. r.id == b) rs ≡ none
    → first (λ r. r.id == b) (map (credit_row a x) rs) ≡ none
find-credit_row a b x [] h = refl
find-credit_row a b x (r ∷ rs) h = ground (arith, find-credit_row a b x rs)

pub find-credit-none :
    (a b : ℕ) (x : ℤ) (db : Db) → find_app b db ≡ none → find_app b (credit a x db) ≡ none
unfolding credit
find-credit-none a b x db h = find-credit_row a b x db.apps h

find-credit_row-some :
    (a b : ℕ) (x : ℤ) (q : AppRow) (rs : List AppRow)
    → first (λ r. r.id == b) rs ≡ some q
    → first (λ r. r.id == b) (map (credit_row a x) rs) ≡ some (credit_row a x q)
find-credit_row-some a b x q [] h = cc
find-credit_row-some a b x q (r ∷ rs) h = elim (Bool-cases (r.id == b)) [
  | inl here ↦ let same : r ≡ q = ground arith in ground arith
  | inr later ↦ ground (arith, find-credit_row-some a b x q rs)
]

pub find-credit-some :
    (a b : ℕ) (x : ℤ) (q : AppRow) (db : Db)
    → find_app b db ≡ some q
    → find_app b (credit a x db) ≡ some (credit_row a x q)
unfolding credit
find-credit-some a b x q db h = find-credit_row-some a b x q db.apps h
