-- ===== src/Daemon/Lnd.antt =====
-- What the daemon uses of `LndRestClient` (packages/sovran-nwc/nwc_lnd.py): the requests it makes to
-- LND's REST server, and the fields that it reads of their results. The answers come from LND: they are
-- a parameter of the daemon's methods, held fixed over one request.
use sovran_bitcoin.Base.{String, ◌≡◌, Option}
use sovran_bitcoin.Base.Int.{ℤ, pos, ◌≤ℤ◌}

-- A result, or `LndError(code, message)`.
pub data Answer (A : Type 0) : Type 0 where
  answered : A → Answer A
  failed : String → String → Answer A

-- `lookup_invoice` and `create_invoice`
pub record LndInvoice : Type 0 where
  pub payment_hash : String
  pub invoice : String
  pub state : String
  pub amount_msat : ℤ
  pub preimage : String
  pub created_at : ℤ
  pub expires_at : ℤ
  pub settled_at : Option ℤ

-- `decode_payreq`
pub record Decoded : Type 0 where
  pub payment_hash : String
  pub amount_msat : ℤ
  pub description : String
  pub description_hash : String

-- `send_payment_v2`
pub record Paid : Type 0 where
  pub preimage : String
  pub fees_paid_msat : ℤ

-- `get_info`
pub record NodeInfo : Type 0 where
  pub alias : String
  pub color : String
  pub pubkey : String
  pub network : String
  pub block_height : ℤ
  pub block_hash : String

pub record Lnd : Type 0 where
  pub get_info : Answer NodeInfo
  pub get_channel_balance_msat : Answer ℤ
  pub lookup_invoice : String → Answer LndInvoice
  pub create_invoice : ℤ → String → ℤ → Option String → Answer LndInvoice
  pub decode_payreq : String → Answer Decoded
  pub pay_invoice : String → ℤ → Option ℤ → Answer Paid
  pub pay_keysend : String → ℤ → ℤ → String → Answer Paid

-- What LND documents: an invoice's amount is not negative, and a payment takes no more in fees than
-- its `fee_limit_msat`.
pub record IsLnd (lnd : Lnd) : Type 0 where
  pub amounts :
      (hash : String) (inv : LndInvoice)
      → lnd.lookup_invoice hash ≡ Answer.answered inv
      → pos 0 ≤ℤ inv.amount_msat
  pub invoice_fees :
      (bolt11 : String) (limit : ℤ) (amount : Option ℤ) (paid : Paid)
      → lnd.pay_invoice bolt11 limit amount ≡ Answer.answered paid
      → paid.fees_paid_msat ≤ℤ limit
  pub keysend_fees :
      (dest : String) (amount limit : ℤ) (preimage : String) (paid : Paid)
      → lnd.pay_keysend dest amount limit preimage ≡ Answer.answered paid
      → paid.fees_paid_msat ≤ℤ limit
