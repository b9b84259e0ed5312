-- ===== src/Store/Incoming.antt =====
-- Incoming invoices: `record_incoming_invoice`, `settle_incoming_by_payment_hash`,
-- `list_pending_incoming`, `find_tx_for_app` and `set_preimage_for_hash`.
pub mod Sound
pub mod Once
use sovran_bitcoin.Base.{
  ℕ, String, Bool, true, false, Option, none, some, List, map, ◌&&◌, not, first, select, length,
  ◌==◌, if◌then◌else◌,
}
use sovran_bitcoin.Base.Int.{ℤ, pos, ◌==ℤ◌}
use sovran_bitcoin.Base.Monad
use sovran_bitcoin.Base.Monad.{Exc, store_error, Action, pure, or_raise, gets, modify, ◌>>=◌, ◌>>◌}
use sovran_bitcoin.Base.Text.{◌=ₛ◌, nonempty, strip, lower, canonical}
use sovran_bitcoin.Store.Rows.{TxRow, TxType, TxState, Db, TxDict, tx_dict, default_tx}
use sovran_bitcoin.Store.Sql.{
  incoming?, pending?, settled?, find_app, find_tx, credit, update_tx, insert_tx,
}

abbrev pub invoice_row : ℕ → String → String → ℤ → String → String → ℤ → ℤ → TxRow
invoice_row app hash invoice amount description description_hash created expires =
    record default_tx {
      app_id = app;
      type = TxType.incoming;
      state = TxState.pending;
      amount_msat = amount;
      payment_hash = lower hash;
      invoice = invoice;
      description = description;
      description_hash = lower description_hash;
      created_at = created;
      expires_at = some expires;
    }

-- The row that the INSERT wrote is what the SELECT behind it reads back.
unfoldable pub record_incoming_invoice :
    ℕ → String → String → ℤ → String → String → ℤ → ℤ → Action Db TxDict
record_incoming_invoice app hash invoice amount description description_hash created expires = do
  found ← gets (find_app app)
  or_raise found (store_error "not_found" "Target app not found" 404)
  tx_id ← gets (λ db. db.next_tx)
  modify
      (insert_tx (invoice_row app hash invoice amount description description_hash created expires))
  row ← gets (find_tx tx_id)
  tx ← or_raise row Exc.type_error
  pure (tx_dict tx)

-- `x or default`, for an optional number.
abbrev pub or_int : Option ℤ → ℤ → ℤ
or_int none z = z
or_int (some x) z = if x ==ℤ pos 0 then z else x

-- `x if x is not None else default`
abbrev pub or_default : Option ℤ → ℤ → ℤ
or_default none z = z
or_default (some x) z = x

-- SELECT … WHERE payment_hash = ? AND type = 'incoming' ORDER BY id DESC LIMIT 1
abbrev pub latest_incoming : String → Db → Option TxRow
latest_incoming hash db = first (λ t. t.payment_hash =ₛ hash && incoming? t.type) db.txs

abbrev pub settle_row : ℤ → String → ℤ → TxRow → TxRow
settle_row amount preimage now t = record t {
  state = TxState.settled;
  amount_msat = amount;
  preimage = if nonempty preimage then preimage else t.preimage;
  settled_at = some now;
}

abbrev pub settle_found : Option TxRow → Option ℤ → String → ℤ → Action Db (Option TxDict × Bool)
settle_found none amount preimage now = pure (none, false)
settle_found (some t) amount preimage now =
    if settled? t.state then pure (some (tx_dict t), false) else (do
      let value = or_default amount t.amount_msat
      modify (update_tx t.id (settle_row value (lower preimage) now))
      modify (credit t.app_id value)
      updated ← gets (find_tx t.id)
      row ← or_raise updated Exc.type_error
      pure (some (tx_dict row), true))

-- The payment's hash, the amount that LND reports, the preimage, LND's time of settlement, and the
-- clock.
unfoldable pub settle_incoming_by_payment_hash :
    String → Option ℤ → String → Option ℤ → ℤ → Action Db (Option TxDict × Bool)
settle_incoming_by_payment_hash hash amount preimage settled_at now = do
  row ← gets (latest_incoming (canonical hash))
  settle_found row amount preimage (or_int settled_at now)

abbrev pub awaits : TxRow → Bool
awaits t = incoming? t.type && (pending? t.state && nonempty t.payment_hash)

-- SQL leaves the order of these rows open; here the newest stands first.
unfoldable pub list_pending_incoming : Option ℕ → Db → List TxDict
list_pending_incoming none db = map tx_dict (select awaits db.txs)
list_pending_incoming (some a) db = map tx_dict (select (λ t. t.app_id == a && awaits t) db.txs)

abbrev pub dict_of : Option TxRow → Option TxDict
dict_of none = none
dict_of (some t) = some (tx_dict t)

unfoldable pub find_tx_for_app : ℕ → String → String → Db → Option TxDict
find_tx_for_app app hash invoice db =
    if nonempty hash
    then dict_of (first (λ t. t.app_id == app && t.payment_hash =ₛ canonical hash) db.txs)
    else if nonempty invoice
    then dict_of (first (λ t. t.app_id == app && t.invoice =ₛ strip invoice) db.txs)
    else none

abbrev pub set_preimage : String → String → TxRow → TxRow
set_preimage hash preimage t =
    if t.payment_hash =ₛ hash then record t { preimage = preimage } else t

-- The result is the number of rows that were written.
unfoldable pub set_preimage_for_hash : String → String → Action Db ℕ
set_preimage_for_hash hash preimage db =
    let ph = canonical hash in
    let pre = canonical preimage in
    if not (nonempty ph && nonempty pre) then (Monad.ok 0, db) else (
      Monad.ok (length (select (λ t. t.payment_hash =ₛ ph) db.txs)),
      record db { txs = map (set_preimage ph pre) db.txs },
    )
