-- ===== src/Store/History.antt =====
-- What can happen to the store: each of its writing methods is a step, called with any arguments that
-- the daemon or LND can give it, and a step may raise. A history is any sequence of steps from the
-- empty tables of `_init_schema`; the methods run one after another, since each takes `self._lock`.
pub mod Sound
use sovran_bitcoin.Base.{ℕ, String, ◌≡◌, Bool, true, Option, some}
use sovran_bitcoin.Base.Int.{ℤ, pos, ◌≤ℤ◌}
use sovran_bitcoin.Store.Apps.{NewApp, Keys, create_app, delete_app_by_pubkey}
use sovran_bitcoin.Store.Events.{mark_event_processed}
use sovran_bitcoin.Store.Incoming.{
  record_incoming_invoice, settle_incoming_by_payment_hash, set_preimage_for_hash,
}
use sovran_bitcoin.Store.Incoming.Sound.{IsNonnegAmount}
use sovran_bitcoin.Store.Outgoing.Finalize.{WithinReserve}
use sovran_bitcoin.Store.Outgoing.{Purpose, reserve_outgoing_payment, finalize_outgoing_payment}
use sovran_bitcoin.Store.Rows.{TxRow, Db, empty_db}
use sovran_bitcoin.Store.Sql.{outgoing?, find_tx}
use sovran_bitcoin.Store.Transfer.{transfer}

-- The daemon never invoices or reserves a negative amount; LND never reports a negative one, and
-- takes no more in fees than the reserve, which is its `fee_limit`; the daemon closes only what it
-- reserved.
pub data Step (db : Db) : Db → Type 0 where
  create : (n : NewApp) (k : Keys) (at : String) → Step db (create_app n k at db).1
  delete : (pubkey : String) → Step db (delete_app_by_pubkey pubkey db).1
  move :
      (from to : Option ℕ) (amount : ℤ) (description : String) (now : ℤ)
      → Step db (transfer from to amount description now db).1
  invoice :
      (app : ℕ) (hash text : String) (amount : ℤ) (description description_hash : String)
      (created expires : ℤ)
      → pos 0 ≤ℤ amount
      → Step db
          (record_incoming_invoice app hash text amount description description_hash created expires
            db).1
  settle :
      (hash preimage : String) (amount settled_at : Option ℤ) (now : ℤ)
      → IsNonnegAmount amount
      → Step db (settle_incoming_by_payment_hash hash amount preimage settled_at now db).1
  preimage : (hash pre : String) → Step db (set_preimage_for_hash hash pre db).1
  reserve :
      (app : ℕ) (amount fees : ℤ) (p : Purpose) (now : ℤ)
      → pos 0 ≤ℤ amount
      → pos 0 ≤ℤ fees
      → Step db (reserve_outgoing_payment app amount fees p now db).1
  finalize :
      (i : ℕ) (done : Bool) (pre : String) (fees now : ℤ) (t : TxRow)
      → find_tx i db ≡ some t
      → outgoing? t.type ≡ true
      → WithinReserve done fees t
      → Step db (finalize_outgoing_payment i done pre fees now db).1
  mark : (event : String) (now : ℤ) → Step db (mark_event_processed event now db).1

pub data Reachable : Db → Type 0 where
  start : Reachable empty_db
  later : (db db' : Db) → Reachable db → Step db db' → Reachable db'
