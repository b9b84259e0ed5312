-- ===== src/Store/Sql.antt =====
-- The SQL statements that the methods share. A SELECT with `ORDER BY id DESC LIMIT 1` is the first
-- match, since the newest row stands first.
use sovran_bitcoin.Base.{ℕ, ◌+◌, Bool, Option, ◌∷◌, map, first, ◌==◌, if◌then◌else◌}
use sovran_bitcoin.Base.Int.{ℤ, pos, ◌+ℤ◌, ◌-ℤ◌}
use sovran_bitcoin.Store.Rows.{AppRow, TxRow, TxType, TxState, Db}

abbrev pub incoming? : TxType → Bool
incoming? TxType.incoming = Bool.true
incoming? TxType.outgoing = Bool.false

abbrev pub outgoing? : TxType → Bool
outgoing? TxType.incoming = Bool.false
outgoing? TxType.outgoing = Bool.true

abbrev pub pending? : TxState → Bool
pending? TxState.pending = Bool.true
pending? _ = Bool.false

abbrev pub settled? : TxState → Bool
settled? TxState.settled = Bool.true
settled? _ = Bool.false

-- `state IN ('settled', 'pending')`
abbrev pub live? : TxState → Bool
live? TxState.failed = Bool.false
live? _ = Bool.true

-- SELECT * FROM sovran_apps WHERE id = ?
abbrev pub find_app : ℕ → Db → Option AppRow
find_app a db = first (λ r. r.id == a) db.apps

-- SELECT * FROM sovran_transactions WHERE id = ?
abbrev pub find_tx : ℕ → Db → Option TxRow
find_tx i db = first (λ t. t.id == i) db.txs

abbrev pub credit_row : ℕ → ℤ → AppRow → AppRow
credit_row a x r = if r.id == a then record r { balance_msat = r.balance_msat +ℤ x } else r

-- UPDATE sovran_apps SET balance_msat = balance_msat + ? WHERE id = ?
unfoldable pub credit : ℕ → ℤ → Db → Db
credit a x db = record db { apps = map (credit_row a x) db.apps }

-- UPDATE sovran_apps SET balance_msat = balance_msat - ? WHERE id = ?
abbrev pub debit : ℕ → ℤ → Db → Db
debit a x = credit a (pos 0 -ℤ x)

abbrev pub update_row : ℕ → (TxRow → TxRow) → TxRow → TxRow
update_row i f t = if t.id == i then f t else t

-- UPDATE sovran_transactions SET … WHERE id = ?
unfoldable pub update_tx : ℕ → (TxRow → TxRow) → Db → Db
update_tx i f db = record db { txs = map (update_row i f) db.txs }

-- INSERT INTO sovran_transactions …, with the id left to AUTOINCREMENT.
unfoldable pub insert_tx : TxRow → Db → Db
insert_tx t db = record db { txs = record t { id = db.next_tx } ∷ db.txs; next_tx = db.next_tx + 1 }
