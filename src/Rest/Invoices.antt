-- ===== src/Rest/Invoices.antt =====
-- `get_info`, `get_channel_balance_msat`, `create_invoice`, `lookup_invoice` and `decode_payreq` of
-- nwc_lnd.py.
use Prim.Native.Char.{code}
use Prim.Native.String as S
use sovran_bitcoin.Base.{
  ℕ, String, Bool, true, false, Option, none, some, ◌||◌, not, ◌==◌, if◌then◌else◌,
}
use sovran_bitcoin.Base.Int.{ℤ, pos, ◌+ℤ◌, ◌*ℤ◌, ltb_ℤ}
use sovran_bitcoin.Base.Json.{Json, Items, Fields, Dict, get}
use sovran_bitcoin.Base.Monad.{Exc, ◌>>=◌, pure, or_raise}
use sovran_bitcoin.Base.Reading.{text_at, int_at, int_of, given, flag, if_truthy}
use sovran_bitcoin.Base.Text.{◌=ₛ◌, lower, nonempty, strip, upper}
use sovran_bitcoin.Rest.Payment.{lift, assign, limit_json}
use sovran_bitcoin.Rest.Request.{Rest, Call, Client, request}

pub record Info : Type 0 where
  pub pubkey : String
  pub alias : String
  pub color : String
  pub block_height : ℤ
  pub block_hash : String
  pub network : String
  pub synced_to_chain : Bool

pub record Made : Type 0 where
  pub invoice : String
  pub payment_hash : String
  pub amount_msat : ℤ
  pub description : String
  pub description_hash : String
  pub created_at : ℤ
  pub expires_at : ℤ

pub record Invoice : Type 0 where
  pub payment_hash : String
  pub invoice : String
  pub state : String
  pub amount_msat : ℤ
  pub created_at : ℤ
  pub expires_at : ℤ
  pub settled_at : Option ℤ
  pub description : String
  pub description_hash : String
  pub preimage : String

pub record PayReq : Type 0 where
  pub destination : String
  pub payment_hash : String
  pub amount_msat : ℤ
  pub timestamp : ℤ
  pub expiry : ℤ
  pub expires_at : ℤ
  pub description : String
  pub description_hash : String

abbrev get_call : String → ℕ → Call
get_call path timeout = record { method = "GET"; path = path; body = none; timeout = timeout }

module _ (lnd : Rest) where
  abbrev pub network_of : Option Json → String
  network_of (some (Json.arr (Items.cons (Json.obj chain) more))) =
      text_at lnd.py "network" "mainnet" chain
  network_of other = "mainnet"

  -- The chains come as a list, where there are any.
  unfoldable pub get_info : Client Info
  get_info = do
    resp ← request lnd (get_call "/v1/getinfo" 10)
    height ← lift (int_at "block_height" resp)
    pure (record {
      pubkey = text_at lnd.py "identity_pubkey" "" resp;
      alias = text_at lnd.py "alias" "" resp;
      color = text_at lnd.py "color" "#000000" resp;
      block_height = height;
      block_hash = text_at lnd.py "block_hash" "" resp;
      network = network_of (get "chains" resp);
      synced_to_chain = flag (get "synced_to_chain" resp) true;
    })

  abbrev pub balance_of : Option Json → Client ℤ
  balance_of none = pure (pos 0)
  balance_of (some sat) = do z ← lift (int_of sat); pure (z *ℤ 1000)

  abbrev pub msat_or : Option Json → Client ℤ → Client ℤ
  msat_or none rest = rest
  msat_or (some msat) rest = lift (int_of msat)

  abbrev pub local_msat : Option Json → Option Json
  local_msat (some (Json.obj local)) = given (get "msat" local)
  local_msat other = none

  unfoldable pub get_channel_balance_msat : Client ℤ
  get_channel_balance_msat = do
    resp ← request lnd (get_call "/v1/balance/channels" 10)
    msat_or (local_msat (get "local_balance" resp)) (balance_of (given (get "balance" resp)))

  -- `s` in base64 where it is not empty.
  abbrev pub with_hash : Option String → Dict → Client Dict
  with_hash none body = pure body
  with_hash (some hash) body =
      if nonempty hash
      then (do
        encoded ← or_raise (lnd.to_base64 hash) Exc.value_error
        pure (assign "description_hash" (Json.str encoded) body))
      else pure body

  abbrev pub hex_or_none : String → Client String
  hex_or_none s = if nonempty s then or_raise (lnd.of_base64 s) Exc.value_error else pure ""

  abbrev pub hash_or_none : Option String → String
  hash_or_none none = ""
  hash_or_none (some hash) = lower hash

  abbrev pub invoice_request : ℤ → String → ℤ → Bool → Dict
  invoice_request amount memo expiry private = Fields.field "value_msat" (limit_json lnd amount) (
      Fields.field "memo" (Json.str memo) (
        Fields.field "expiry" (limit_json lnd expiry)
          (Fields.field "private" (Json.bool private) Fields.end)))

  unfoldable pub create_invoice : ℤ → String → ℤ → Option String → Bool → Client Made
  create_invoice amount memo expiry hash private = do
    body ← with_hash hash (invoice_request amount memo expiry private)
    resp ←
        request lnd
          (record { method = "POST"; path = "/v1/invoices"; body = some body; timeout = 20 })
    r_hash ← hex_or_none (text_at lnd.py "r_hash" "" resp)
    pure (record {
      invoice = text_at lnd.py "payment_request" "" resp;
      payment_hash = lower r_hash;
      amount_msat = amount;
      description = memo;
      description_hash = hash_or_none hash;
      created_at = lnd.now;
      expires_at = lnd.now +ℤ expiry;
    })

  abbrev pub is_true : Option Json → Bool
  is_true (some (Json.bool b)) = b
  is_true other = false

  abbrev pub state_of : Dict → String
  state_of resp =
      let raw = upper (text_at lnd.py "state" "" resp) in
      if (raw =ₛ "SETTLED") || is_true (get "settled" resp)
      then "settled"
      else if raw =ₛ "CANCELED"
      then "failed"
      else "pending"

  -- `int(resp.get(k) or default)`
  abbrev pub int_or : Option Json → Client ℤ → Client ℤ
  int_or none default = default
  int_or (some x) default = lift (int_of x)

  abbrev pub int_from : String → Dict → Client ℤ → Client ℤ
  int_from k resp default = int_or (if_truthy (get k resp)) default

  abbrev pub thousands : String → Dict → Client ℤ
  thousands k resp = do z ← lift (int_at k resp); pure (z *ℤ 1000)

  pub any_set : String → Bool
  any_set S.[] = false
  any_set (S.◌∷◌ c s) = not (code c == b'0') || any_set s

  -- The hex of a value in base64, empty where it cannot be read or is all zeros.
  abbrev pub unless_zero : Option String → String
  unless_zero none = ""
  unless_zero (some hex) = if any_set hex then hex else ""

  abbrev pub hex_of : Option Json → String
  hex_of (some (Json.str s)) = if nonempty s then unless_zero (lnd.of_base64 s) else ""
  hex_of other = ""

  abbrev pub paid_amount : Dict → Client ℤ
  paid_amount resp =
      int_from "amt_paid_msat" resp (int_from "value_msat" resp (thousands "value" resp))

  abbrev pub after_zero : ℤ → Option ℤ
  after_zero z = if ltb_ℤ (pos 0) z then some z else none

  unfoldable pub lookup_invoice : String → Client Invoice
  unfolding any_set
  lookup_invoice hash = do
    resp ← request lnd (get_call (S.◌++◌ "/v1/invoice/" (lower (strip hash))) 15)
    amount ← paid_amount resp
    created ← int_from "creation_date" resp (pure lnd.now)
    expiry ← int_from "expiry" resp (pure (pos 3600))
    settled ← lift (int_at "settle_date" resp)
    pure (record {
      payment_hash = lower (strip hash);
      invoice = text_at lnd.py "payment_request" "" resp;
      state = state_of resp;
      amount_msat = amount;
      created_at = created;
      expires_at = created +ℤ expiry;
      settled_at = after_zero settled;
      description = text_at lnd.py "memo" "" resp;
      description_hash = hex_of (get "description_hash" resp);
      preimage = hex_of (get "r_preimage" resp);
    })

  unfoldable pub decode_payreq : String → Client PayReq
  decode_payreq bolt11 = do
    resp ← request lnd (get_call (S.◌++◌ "/v1/payreq/" (lnd.quote (strip bolt11))) 15)
    amount ← int_from "num_msat" resp (thousands "num_satoshis" resp)
    stamp ← int_from "timestamp" resp (pure lnd.now)
    expiry ← int_from "expiry" resp (pure (pos 3600))
    pure (record {
      destination = text_at lnd.py "destination" "" resp;
      payment_hash = lower (text_at lnd.py "payment_hash" "" resp);
      amount_msat = amount;
      timestamp = stamp;
      expiry = expiry;
      expires_at = stamp +ℤ expiry;
      description = text_at lnd.py "description" "" resp;
      description_hash = lower (text_at lnd.py "description_hash" "" resp);
    })
