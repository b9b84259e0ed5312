-- ===== src/Store/Ledger.antt =====
-- What the store's bookkeeping means: the balance that a sub-wallet's transactions add up to, and
-- the invariant that ties the balance column to it.
pub mod Drift
pub mod Form
pub mod Book
pub mod Pool
use sovran_bitcoin.Base.{
  ℕ, ◌<◌, ◌≡◌, Bool, true, false, Option, none, some, List, [], ◌∷◌, first, All, ◌==◌, is_some,
  if◌then◌else◌,
}
use sovran_bitcoin.Base.Int.{ℤ, pos, ◌+ℤ◌, ◌-ℤ◌, ◌≤ℤ◌}
use sovran_bitcoin.Store.Outgoing.{outlay}
use sovran_bitcoin.Store.Sql.{pending?}
use sovran_bitcoin.Store.Rows.{AppRow, TxRow, TxType, TxState, Db}

-- What a transaction adds to its wallet's balance: a settled receipt its amount; a payment that has
-- not failed takes its amount, its fees and what is still reserved for fees.
abbrev pub flow : TxType → TxState → ℤ → ℤ → ℤ
flow TxType.incoming TxState.settled amount out = amount
flow TxType.incoming TxState.pending amount out = pos 0
flow TxType.incoming TxState.failed amount out = pos 0
flow TxType.outgoing TxState.settled amount out = pos 0 -ℤ out
flow TxType.outgoing TxState.pending amount out = pos 0 -ℤ out
flow TxType.outgoing TxState.failed amount out = pos 0

unfoldable pub entry : TxRow → ℤ
entry t = flow t.type t.state t.amount_msat (outlay t)

abbrev pub share : ℕ → TxRow → ℤ
share a t = if t.app_id == a then entry t else pos 0

-- The balance of wallet `a` according to its transactions.
unfoldable pub ledger : ℕ → List TxRow → ℤ
ledger a [] = pos 0
ledger a (t ∷ txs) = share a t +ℤ ledger a txs

-- The balance column of wallet `a`; 0 where there is no such wallet.
unfoldable pub balance_in : ℕ → List AppRow → ℤ
balance_in a [] = pos 0
balance_in a (r ∷ rs) = if r.id == a then r.balance_msat else balance_in a rs

unfoldable pub drift : ℕ → Db → ℤ
drift a db = balance_in a db.apps -ℤ ledger a db.txs

-- The ids descend, and lie below a bound.
abbrev pub Descends {ℓ} : {A : Type ℓ} → (A → ℕ) → ℕ → List A → Type 0
Descends key bound [] = Unit
Descends key bound (x ∷ xs) = (key x < bound) × Descends key (key x) xs

abbrev pub has_app : ℕ → List AppRow → Bool
has_app a rs = is_some (first (λ r. r.id == a) rs)

abbrev pub IsOwned : List AppRow → TxRow → Type 0
IsOwned rs t = has_app t.app_id rs ≡ true

-- No amount is negative, and a pending transaction has paid no fees yet.
pub record IsProper (t : TxRow) : Type 0 where
  pub amount : pos 0 ≤ℤ t.amount_msat
  pub fees : pos 0 ≤ℤ t.fees_paid_msat
  pub reserve : pos 0 ≤ℤ t.fee_reserve_msat
  pub unpaid : pending? t.state ≡ true → t.fees_paid_msat ≡ pos 0

-- Ids are primary keys, `app_id` is a foreign key, and every row is proper.
pub record IsWellFormed (db : Db) : Type 0 where
  pub app_ids : Descends AppRow.id db.next_app db.apps
  pub tx_ids : Descends TxRow.id db.next_tx db.txs
  pub owned : All (IsOwned db.apps) db.txs
  pub amounts : All IsProper db.txs

-- The invariant of the store: every balance is what the transactions add up to, and none is
-- negative.
pub record IsSound (db : Db) : Type 0 where
  pub form : IsWellFormed db
  pub balanced : (a : ℕ) → drift a db ≡ pos 0
  pub funded : (a : ℕ) → pos 0 ≤ℤ balance_in a db.apps
