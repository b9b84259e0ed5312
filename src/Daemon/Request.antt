-- ===== src/Daemon/Request.antt =====
-- A NIP-47 request and its response. The parameters stand as the handler reads them: texts behind
-- `str(params.get(k) or "")`, numbers behind `int(params.get(k) or default)`, where `none` is a value
-- that `int` refuses with a ValueError or TypeError.
use sovran_bitcoin.Base.{String, Bool, Option, none, some, List}
use sovran_bitcoin.Base.Int.{ℤ}
use sovran_bitcoin.Base.Monad.{Exc, Action, or_raise, pure, ◌>>=◌}
use sovran_bitcoin.Store.Rows.{TxType, TxState, TxDict}

pub record Tlv : Type 0 where
  pub type : Option ℤ
  pub value : String

pub record Params : Type 0 where
  pub invoice : String
  pub payment_hash : String
  pub description : String
  pub description_hash : String
  pub pubkey : String
  pub preimage : String
  pub amount : Option ℤ
  pub expiry : Option ℤ
  pub limit : Option ℤ
  pub offset : Option ℤ
  pub tx_type : Option TxType
  pub unpaid : Bool
  pub from_ts : Option (Option ℤ)
  pub until_ts : Option (Option ℤ)
  pub tlv_records : List Tlv

-- `int(…)` of a parameter.
abbrev pub int : {S : Type 0} → Option ℤ → Action S ℤ
int x = or_raise x Exc.value_error

-- A bound that may be left out, read by `int` where it is there.
abbrev pub bound : {S : Type 0} → Option (Option ℤ) → Action S (Option ℤ)
bound none = pure none
bound (some x) = do z ← int x; pure (some z)

-- `to_nip47_tx`; its `metadata` is always empty.
pub record Nip47Tx : Type 0 where
  pub type : TxType
  pub state : TxState
  pub invoice : String
  pub description : String
  pub description_hash : String
  pub preimage : String
  pub payment_hash : String
  pub amount : ℤ
  pub fees_paid : ℤ
  pub created_at : ℤ
  pub expires_at : Option ℤ
  pub settled_at : Option ℤ

abbrev pub to_nip47_tx : TxDict → Nip47Tx
to_nip47_tx t = record {
  type = t.type;
  state = t.state;
  invoice = t.invoice;
  description = t.description;
  description_hash = t.description_hash;
  preimage = t.preimage;
  payment_hash = t.payment_hash;
  amount = t.amount_msat;
  fees_paid = t.fees_paid;
  created_at = t.created_at;
  expires_at = t.expires_at;
  settled_at = t.settled_at;
}

pub record Info : Type 0 where
  pub alias : String
  pub color : String
  pub pubkey : String
  pub network : String
  pub block_height : ℤ
  pub block_hash : String
  pub methods : List String
  pub notifications : List String

-- `result_type` with `error`, or with one of the results.
pub data Payload : Type 0 where
  error : String → String → String → Payload
  info : Info → Payload
  balance : ℤ → Payload
  transaction : String → Nip47Tx → Payload
  transactions : List Nip47Tx → Payload
  paid : String → String → ℤ → Payload
