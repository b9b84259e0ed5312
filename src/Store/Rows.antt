-- ===== src/Store/Rows.antt =====
-- The three tables of `_init_schema`, and the dicts that the store hands out.
-- A table is a list of its rows, the newest first. AUTOINCREMENT never uses an id again: the next
-- one is kept beside the rows, as SQLite keeps it in `sqlite_sequence`.
use sovran_bitcoin.Base.{ℕ, String, Bool, Option, none, some, List, [], if◌then◌else◌}
use sovran_bitcoin.Base.Int.{ℤ, pos, ◌==ℤ◌}
use sovran_bitcoin.Base.Json.{Dict}

-- sovran_apps. The scopes and the metadata are stored as JSON text; the model keeps what
-- `json.loads` reads back.
pub record AppRow : Type 0 where
  pub id : ℕ
  pub name : String
  pub app_pubkey : String
  pub wallet_privkey : String
  pub wallet_pubkey : String
  pub isolated : Bool
  pub balance_msat : ℤ
  pub max_amount_sat : ℤ
  pub budget_renewal : String
  pub scopes : List String
  pub metadata : Dict
  pub created_at : String

pub data TxType : Type 0 where
  incoming outgoing : TxType

pub data TxState : Type 0 where
  pending settled failed : TxState

-- sovran_transactions.
pub record TxRow : Type 0 where
  pub id : ℕ
  pub app_id : ℕ
  pub type : TxType
  pub state : TxState
  pub amount_msat : ℤ
  pub fees_paid_msat : ℤ
  pub fee_reserve_msat : ℤ
  pub payment_hash : String
  pub invoice : String
  pub preimage : String
  pub description : String
  pub description_hash : String
  pub created_at : ℤ
  pub expires_at : Option ℤ
  pub settled_at : Option ℤ

-- sovran_processed_events.
pub record EventRow : Type 0 where
  pub event_id : String
  pub processed_at : ℤ

pub record Db : Type 0 where
  pub apps : List AppRow
  pub next_app : ℕ
  pub txs : List TxRow
  pub next_tx : ℕ
  pub events : List EventRow

abbrev pub empty_db : Db
empty_db = record { apps = []; next_app = 1; txs = []; next_tx = 1; events = [] }

-- What `_row_to_app_dict` returns: the row without the wallet's private key, and the number of its
-- pending transactions. (`nostrPubkey` repeats `appPubkey`.)
pub record AppDict : Type 0 where
  pub id : ℕ
  pub name : String
  pub isolated : Bool
  pub app_pubkey : String
  pub wallet_pubkey : String
  pub balance_msat : ℤ
  pub max_amount_sat : ℤ
  pub budget_renewal : String
  pub scopes : List String
  pub metadata : Dict
  pub created_at : String
  pub pending_count : ℕ

-- What `_row_to_tx_dict` returns. (Its aliases `amount`, `payment_hash`, `created_at` and the like
-- repeat other keys, and `metadata` is always empty.)
pub record TxDict : Type 0 where
  pub id : ℕ
  pub app_id : ℕ
  pub type : TxType
  pub state : TxState
  pub amount_msat : ℤ
  pub fees_paid : ℤ
  pub payment_hash : String
  pub invoice : String
  pub preimage : String
  pub description : String
  pub description_hash : String
  pub created_at : ℤ
  pub expires_at : Option ℤ
  pub settled_at : Option ℤ

-- `int(x) if x else None`
abbrev pub nonzero : Option ℤ → Option ℤ
nonzero none = none
nonzero (some z) = if z ==ℤ pos 0 then none else some z

abbrev pub tx_dict : TxRow → TxDict
tx_dict t = record {
  id = t.id;
  app_id = t.app_id;
  type = t.type;
  state = t.state;
  amount_msat = t.amount_msat;
  fees_paid = t.fees_paid_msat;
  payment_hash = t.payment_hash;
  invoice = t.invoice;
  preimage = t.preimage;
  description = t.description;
  description_hash = t.description_hash;
  created_at = t.created_at;
  expires_at = nonzero t.expires_at;
  settled_at = nonzero t.settled_at;
}

-- The columns' defaults in `_init_schema`, for the columns that an INSERT leaves out.
abbrev pub default_tx : TxRow
default_tx = record {
  id = 0;
  app_id = 0;
  type = TxType.incoming;
  state = TxState.pending;
  amount_msat = pos 0;
  fees_paid_msat = pos 0;
  fee_reserve_msat = pos 0;
  payment_hash = "";
  invoice = "";
  preimage = "";
  description = "";
  description_hash = "";
  created_at = pos 0;
  expires_at = none;
  settled_at = none;
}
