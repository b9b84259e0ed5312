-- ===== src/Store/Outgoing.antt =====
-- Outgoing payments: `reserve_outgoing_payment`, `_check_budget_locked`, `finalize_outgoing_payment`.
pub mod Cases
pub mod Sound
pub mod Finalize
pub mod Closed
pub mod Inside
pub mod Budget
use sovran_bitcoin.Base.{
  ℕ, String, Bool, true, false, Option, none, some, List, [], ◌∷◌, ◌&&◌, not, first, ◌==◌,
  if◌then◌else◌,
}
use sovran_bitcoin.Base.Int.{ℤ, pos, ◌+ℤ◌, ◌-ℤ◌, ◌*ℤ◌, ltb_ℤ, leb_ℤ, max_ℤ}
use sovran_bitcoin.Base.Monad.{
  Exc, store_error, Action, pure, or_raise, gets, transaction, modify, raise_if, ◌>>=◌, ◌>>◌,
}
use sovran_bitcoin.Base.Text.{◌=ₛ◌, nonempty, lower, canonical}
use sovran_bitcoin.Store.Rows.{AppRow, TxRow, TxType, TxState, Db, TxDict, tx_dict, default_tx}
use sovran_bitcoin.Store.Sql.{
  incoming?, outgoing?, pending?, live?, find_app, find_tx, credit, debit, update_tx, insert_tx,
}

abbrev pub outlay : TxRow → ℤ
outlay t = t.amount_msat +ℤ t.fees_paid_msat +ℤ t.fee_reserve_msat

-- One row's share of SELECT COALESCE(SUM(amount_msat + fees_paid_msat + fee_reserve_msat), 0) …
-- WHERE app_id = ? AND type = 'outgoing' AND state IN ('settled', 'pending')
abbrev pub spent_row : ℕ → TxRow → ℤ
spent_row a t = if t.app_id == a && (outgoing? t.type && live? t.state) then outlay t else pos 0

unfoldable pub spent : ℕ → List TxRow → ℤ
spent a [] = pos 0
spent a (t ∷ txs) = spent_row a t +ℤ spent a txs

abbrev pub quota_exceeded : Exc
quota_exceeded =
    store_error "QUOTA_EXCEEDED"
      "The wallet does not have enough budget remaining to make this payment" 400

unfoldable pub check_budget : AppRow → ℤ → Action Db (Unit {0})
unfolding spent
check_budget app needed = if leb_ℤ app.max_amount_sat (pos 0) then pure tt else (do
  used ← gets (λ db. spent app.id db.txs)
  raise_if (ltb_ℤ (app.max_amount_sat *ℤ 1000) (used +ℤ needed)) quota_exceeded)

-- What a payment is for: `payment_hash` in its stripped, lower-case form, `invoice`, `description`,
-- `description_hash`.
pub record Purpose : Type 0 where
  pub payment_hash : String
  pub invoice : String
  pub description : String
  pub description_hash : String

abbrev pub internal_row : ℕ → ℤ → Purpose → String → ℤ → TxRow
internal_row app amount p preimage now = record default_tx {
  app_id = app;
  type = TxType.outgoing;
  state = TxState.settled;
  amount_msat = amount;
  payment_hash = p.payment_hash;
  invoice = p.invoice;
  preimage = preimage;
  description = p.description;
  description_hash = p.description_hash;
  created_at = now;
  settled_at = some now;
}

abbrev pub external_row : ℕ → ℤ → ℤ → Purpose → ℤ → TxRow
external_row app amount reserve p now = record default_tx {
  app_id = app;
  type = TxType.outgoing;
  state = TxState.pending;
  amount_msat = amount;
  fee_reserve_msat = reserve;
  payment_hash = p.payment_hash;
  invoice = p.invoice;
  description = p.description;
  description_hash = p.description_hash;
  created_at = now;
}

-- `if ph: SELECT … WHERE payment_hash = ? AND type = 'incoming' AND state = 'pending'
-- ORDER BY id DESC LIMIT 1`
abbrev pub awaiting : String → TxRow → Bool
awaiting hash t = t.payment_hash =ₛ hash && (incoming? t.type && pending? t.state)

abbrev pub find_internal : String → Db → Option TxRow
find_internal hash db = if nonempty hash then first (awaiting hash) db.txs else none

abbrev pub settle_internal : ℤ → ℤ → TxRow → TxRow
settle_internal amount now t = record t {
  state = TxState.settled;
  amount_msat = amount;
  settled_at = some now;
}

abbrev pub insufficient : Exc
insufficient =
    store_error "INSUFFICIENT_BALANCE"
      "The wallet does not have enough balance to make this payment" 400

abbrev pub insufficient_with_fees : Exc
insufficient_with_fees =
    store_error "INSUFFICIENT_BALANCE"
      "The wallet does not have enough balance to make this payment (including fee reserve)" 400

-- The `if internal_inc is not None` branch, and the rest behind it.
unfoldable pub pay_from : AppRow → Option TxRow → ℤ → ℤ → Purpose → ℤ → Action Db (ℕ × Option ℕ)
pay_from app (some inc) amount reserve p now = do
  raise_if (ltb_ℤ app.balance_msat amount) insufficient
  check_budget app amount
  modify (debit app.id amount)
  modify (credit inc.app_id amount)
  modify (update_tx inc.id (settle_internal amount now))
  out_id ← gets (λ db. db.next_tx)
  modify (insert_tx (internal_row app.id amount p inc.preimage now))
  pure (out_id, some inc.app_id)
pay_from app none amount reserve p now = do
  raise_if (ltb_ℤ app.balance_msat (amount +ℤ reserve)) insufficient_with_fees
  check_budget app (amount +ℤ reserve)
  modify (debit app.id (amount +ℤ reserve))
  out_id ← gets (λ db. db.next_tx)
  modify (insert_tx (external_row app.id amount reserve p now))
  pure (out_id, none)

-- The purpose as the store keeps it.
abbrev pub filed : Purpose → Purpose
filed p = record p { payment_hash = canonical p.payment_hash }

abbrev pub wallet_not_found : Exc
wallet_not_found = store_error "NOT_FOUND" "Wallet not found" 404

-- What stands between BEGIN and COMMIT.
unfoldable pub attempt : ℕ → ℤ → ℤ → Purpose → ℤ → Action Db (ℕ × Option ℕ)
attempt app_id amount reserve p now = do
  found ← gets (find_app app_id)
  app ← or_raise found wallet_not_found
  inc ← gets (find_internal (canonical p.payment_hash))
  pay_from app inc amount reserve (filed p) now

-- The new transaction's id, and the wallet that was paid if the payment stayed inside the node.
unfoldable pub reserve_outgoing_payment : ℕ → ℤ → ℤ → Purpose → ℤ → Action Db (ℕ × Option ℕ)
reserve_outgoing_payment app_id amount reserve p now =
    transaction (attempt app_id amount reserve p now)

abbrev pub settle_outgoing : ℤ → String → ℤ → TxRow → TxRow
settle_outgoing fee preimage now t = record t {
  state = TxState.settled;
  fees_paid_msat = fee;
  fee_reserve_msat = pos 0;
  preimage = lower preimage;
  settled_at = some now;
}

abbrev pub fail_outgoing : TxRow → TxRow
fail_outgoing t = record t { state = TxState.failed; fee_reserve_msat = pos 0 }

-- `if succeeded: …` and its `else`.
unfoldable pub close_payment : TxRow → Bool → String → ℤ → ℤ → Action Db (Unit {0})
close_payment t true preimage fees now = do
  let fee = max_ℤ (pos 0) fees
  let refund = max_ℤ (pos 0) (t.fee_reserve_msat -ℤ fee)
  if ltb_ℤ (pos 0) refund then modify (credit t.app_id refund) else pure tt
  modify (update_tx t.id (settle_outgoing fee preimage now))
close_payment t false preimage fees now = do
  modify (credit t.app_id (t.amount_msat +ℤ t.fee_reserve_msat))
  modify (update_tx t.id fail_outgoing)

unfoldable pub close_found : TxRow → Bool → String → ℤ → ℤ → Action Db TxDict
unfolding close_payment
close_found t succeeded preimage fees now = if not (pending? t.state) then pure (tx_dict t) else (do
  close_payment t succeeded preimage fees now
  updated ← gets (find_tx t.id)
  row ← or_raise updated Exc.type_error
  pure (tx_dict row))

unfoldable pub finalize_outgoing_payment : ℕ → Bool → String → ℤ → ℤ → Action Db TxDict
unfolding close_found
finalize_outgoing_payment tx_id succeeded preimage fees now = do
  found ← gets (find_tx tx_id)
  t ← or_raise found (store_error "NOT_FOUND" "Transaction not found" 404)
  close_found t succeeded preimage fees now
