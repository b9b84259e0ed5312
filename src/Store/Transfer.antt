-- ===== src/Store/Transfer.antt =====
-- `NwcStore.transfer`: money from one sub-wallet to another, from the node (no source) or back to it
-- (no destination). `now` is `int(time.time())`; the result is the dict's `amountMsat`.
pub mod Sound
pub mod Effect
use sovran_bitcoin.Base.{ℕ, String, Option, none, some, ◌&&◌, is_none, if◌then◌else◌}
use sovran_bitcoin.Base.Int.{ℤ, pos, ltb_ℤ, leb_ℤ}
use sovran_bitcoin.Base.Monad.{
  Exc, store_error, Action, pure, or_raise, gets, transaction, modify, raise_if, ◌>>=◌, ◌>>◌,
}
use sovran_bitcoin.Base.Text.{nonempty}
use sovran_bitcoin.Store.Rows.{TxRow, TxType, TxState, Db, default_tx}
use sovran_bitcoin.Store.Sql.{find_app, credit, debit, insert_tx}

abbrev pub transfer_row : TxType → ℕ → ℤ → String → ℤ → TxRow
transfer_row type app amount description now = record default_tx {
  app_id = app;
  type = type;
  state = TxState.settled;
  amount_msat = amount;
  description = if nonempty description then description else "Internal transfer";
  created_at = now;
  settled_at = some now;
}

-- `if from_app_id is not None: …`
unfoldable pub debit_source : Option ℕ → ℤ → String → ℤ → Action Db (Unit {0})
debit_source none amount description now = pure tt
debit_source (some a) amount description now = do
  src ← gets (find_app a)
  app ← or_raise src (store_error "not_found" "Source app not found" 404)
  raise_if (ltb_ℤ app.balance_msat amount)
      (store_error "insufficient_balance" "Source wallet has insufficient balance" 400)
  modify (debit a amount)
  modify (insert_tx (transfer_row TxType.outgoing a amount description now))

-- `if to_app_id is not None: …`
unfoldable pub credit_destination : Option ℕ → ℤ → String → ℤ → Action Db (Unit {0})
credit_destination none amount description now = pure tt
credit_destination (some a) amount description now = do
  dst ← gets (find_app a)
  or_raise dst (store_error "not_found" "Destination app not found" 404)
  modify (credit a amount)
  modify (insert_tx (transfer_row TxType.incoming a amount description now))

-- What stands between BEGIN and COMMIT.
unfoldable pub move : Option ℕ → Option ℕ → ℤ → String → ℤ → Action Db (Unit {0})
unfolding debit_source credit_destination
move from to amount description now = do
  debit_source from amount description now
  credit_destination to amount description now

unfoldable pub transfer : Option ℕ → Option ℕ → ℤ → String → ℤ → Action Db ℤ
unfolding move
transfer from to amount description now = do
  raise_if (leb_ℤ amount (pos 0))
      (store_error "invalid_amount" "Transfer amount must be positive" 400)
  raise_if (is_none from && is_none to)
      (store_error "invalid_transfer" "Must specify fromAppId or toAppId" 400)
  transaction (move from to amount description now)
  pure amount
