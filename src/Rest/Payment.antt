-- ===== src/Rest/Payment.antt =====
-- `send_payment_v2`, `pay_invoice` and `pay_keysend` of nwc_lnd.py.
use Prim.Native.String as S
use sovran_bitcoin.Base.{String, true, Option, none, some, List, [], ◌∷◌, ◌&&◌, not, if◌then◌else◌}
use sovran_bitcoin.Base.Int.{ℤ, pos, ◌*ℤ◌, ◌==ℤ◌, ltb_ℤ}
use sovran_bitcoin.Base.Json.{Json, Fields, Dict, get}
use sovran_bitcoin.Base.Monad.{Exc, Result, ok, raised, ◌>>=◌, pure, raise, or_raise}
use sovran_bitcoin.Base.Reading.{text_at, int_at, given}
use sovran_bitcoin.Base.Text.{◌=ₛ◌, lower, nonempty, strip, upper}
use sovran_bitcoin.Rest.Request.{Rest, Call, Client, request_text}
use sovran_bitcoin.Rest.Stream.{parse_json_stream}

pub record Payment : Type 0 where
  pub preimage : String
  pub payment_hash : String
  pub fees_paid_msat : ℤ

abbrev pub payment_error : String → Exc
payment_error message = Exc.lnd_error "PAYMENT_FAILED" message

abbrev pub failure_reasons : String → Option String
failure_reasons reason =
    if reason =ₛ "FAILURE_REASON_TIMEOUT"
    then some "Payment timeout: no route found in time"
    else if reason =ₛ "FAILURE_REASON_NO_ROUTE"
    then some "No route found to destination"
    else if reason =ₛ "FAILURE_REASON_ERROR"
    then some "Payment failed due to an error"
    else if reason =ₛ "FAILURE_REASON_INCORRECT_PAYMENT_DETAILS"
    then some "Payment details incorrect"
    else if reason =ₛ "FAILURE_REASON_INSUFFICIENT_BALANCE"
    then some "Insufficient balance for payment"
    else if reason =ₛ "FAILURE_REASON_INVOICE_EXPIRED"
    then some "Invoice expired"
    else none

-- `s or default`
abbrev pub or_else : String → String → String
or_else s default = if nonempty s then s else default

abbrev pub first_of : Option String → String → String
first_of none default = default
first_of (some s) default = s

abbrev pub human : String → String
human reason =
    first_of (failure_reasons reason) (
      first_of (failure_reasons (S.◌++◌ "FAILURE_REASON_" reason))
        (or_else reason "payment failed"))

-- `updates[-1]`
abbrev pub last : List Dict → Option Dict
last [] = none
last (d ∷ []) = some d
last (d ∷ e ∷ es) = last (e ∷ es)

-- An item that wraps its payment in `result`.
abbrev pub result_or : Dict → Option Json → Dict
result_or d (some (Json.obj inner)) = inner
result_or d (some other) = d
result_or d none = d

abbrev pub unwrapped : Dict → Dict
unwrapped d = result_or d (get "result" d)

-- `body.setdefault(k, v)` and `body[k] = v`
abbrev pub assign : String → Json → Dict → Dict
assign k v Fields.end = Fields.field k v Fields.end
assign k v (Fields.field j w fs) =
    let rest = assign k v fs in if j =ₛ k then Fields.field j v fs else Fields.field j w rest

abbrev pub default_of : String → Json → Dict → Option Json → Dict
default_of k v d none = assign k v d
default_of k v d (some w) = d

abbrev pub setdefault : String → Json → Dict → Dict
setdefault k v d = default_of k v d (get k d)

abbrev pub lift : {A : Type 0} → Result A → Client A
lift r calls = (r, calls)

module _ (lnd : Rest) where
  abbrev pub status_of : Dict → String
  status_of d = upper (text_at lnd.py "status" "" d)

  -- `fee_msat`, or `fee_sat` in thousands where that is 0 and this is given.
  abbrev pub sat_fees : Dict → ℤ → Option Json → Client ℤ
  sat_fees d msat none = pure msat
  sat_fees d msat (some sat) =
      if msat ==ℤ pos 0
      then (do fees ← lift (int_at "fee_sat" d); pure (fees *ℤ 1000))
      else pure msat

  abbrev pub fees_of : Dict → Client ℤ
  fees_of d = do msat ← lift (int_at "fee_msat" d); sat_fees d msat (given (get "fee_sat" d))

  abbrev pub paid_as : Dict → ℤ → Payment
  paid_as d fees = record {
    preimage = lower (text_at lnd.py "payment_preimage" "" d);
    payment_hash = lower (text_at lnd.py "payment_hash" "" d);
    fees_paid_msat = fees;
  }

  abbrev pub unfinished : String → Exc
  unfinished status = payment_error (
      S.◌++◌ "Payment did not reach a terminal state (status="
        (S.◌++◌ (or_else status "unknown") ")"))

  abbrev pub outcome : Dict → ℤ → Client Payment
  outcome d fees =
      if status_of d =ₛ "SUCCEEDED"
      then pure (paid_as d fees)
      else if status_of d =ₛ "FAILED"
      then raise (payment_error (human (strip (text_at lnd.py "failure_reason" "" d))))
      else raise (unfinished (status_of d))

  abbrev pub concluded : Dict → Client Payment
  concluded d = do fees ← fees_of d; outcome d fees

  abbrev pub read_updates : List Dict → Client Payment
  read_updates updates = do
    d ← or_raise (last updates) (payment_error "LND returned no payment status")
    concluded (unwrapped d)

  abbrev pub limit_json : ℤ → Json
  limit_json limit = Json.str (lnd.str_int limit)

  abbrev pub completed : Dict → ℤ → Dict
  completed body limit = setdefault "timeout_seconds" (Json.num (pos 60)) (
      assign "no_inflight_updates" (Json.bool true) (
        assign "allow_self_payment" (Json.bool true)
          (setdefault "fee_limit_msat" (limit_json limit) body)))

  abbrev pub payment_call : Dict → ℤ → Call
  payment_call body limit = record {
    method = "POST";
    path = "/v2/router/send";
    body = some (completed body limit);
    timeout = 120;
  }

  -- `none` only where the fuel of `parse_json_stream` runs out.
  abbrev pub read_stream : Option (List Dict) → Client (Option Payment)
  read_stream none = pure none
  read_stream (some updates) = do p ← read_updates updates; pure (some p)

  unfoldable pub send_payment_v2 : Dict → ℤ → Client (Option Payment)
  send_payment_v2 body limit = do
    raw ← request_text lnd (payment_call body limit)
    read_stream (parse_json_stream lnd.raw_decode raw)

  abbrev pub with_amount : Option ℤ → Dict → Dict
  with_amount none body = body
  with_amount (some amount) body =
      if ltb_ℤ (pos 0) amount then assign "amt_msat" (limit_json amount) body else body

  abbrev pub invoice_body : String → ℤ → Option ℤ → Dict
  invoice_body bolt11 limit amount = with_amount amount (
      Fields.field "payment_request" (Json.str (strip bolt11))
        (Fields.field "fee_limit_msat" (limit_json limit) Fields.end))

  abbrev pub pay_invoice : String → ℤ → Option ℤ → Client (Option Payment)
  pay_invoice bolt11 limit amount = send_payment_v2 (invoice_body bolt11 limit amount) limit

  -- One TLV record: a type and a value in hex; what raises a `ValueError` is passed over.
  abbrev pub put_record : ℤ → Option String → Dict → Dict
  put_record type none records = records
  put_record type (some value) records = assign (lnd.str_int type) (Json.str value) records

  abbrev pub typed_record : Result ℤ → String → Dict → Client Dict
  typed_record (ok type) value records =
      if not (lnd.str_int type =ₛ "0") && nonempty value
      then pure (put_record type (lnd.to_base64 value) records)
      else pure records
  typed_record (raised Exc.value_error) value records = pure records
  typed_record (raised e) value records = raise e

  abbrev pub add_record : Dict → Dict → Client Dict
  add_record rec records = typed_record (int_at "type" rec) (text_at lnd.py "value" "" rec) records

  pub add_records : List Dict → Dict → Client Dict
  add_records [] records = pure records
  add_records (rec ∷ recs) records = do more ← add_record rec records; add_records recs more

  abbrev pub keysend_body : String → ℤ → ℤ → Dict → Dict
  keysend_body dest amount limit records = Fields.field "dest" (Json.str dest) (
      Fields.field "amt_msat" (limit_json amount) (
        Fields.field "fee_limit_msat" (limit_json limit)
          (Fields.field "dest_custom_records" (Json.obj records) Fields.end)))

  abbrev pub with_preimage : String → Option Payment → Option Payment
  with_preimage preimage none = none
  with_preimage preimage (some p) = some (record {
    preimage = or_else p.preimage preimage;
    payment_hash = p.payment_hash;
    fees_paid_msat = p.fees_paid_msat;
  })

  -- `preimage_hex` in the letters that `bytes.hex` writes.
  abbrev pub keysend_with : String → String → ℤ → ℤ → List Dict → String → Client (Option Payment)
  keysend_with preimage dest amount limit tlvs encoded = do
    records ← add_records tlvs Fields.end
    target ← or_raise (lnd.to_base64 (strip dest)) Exc.value_error
    p ←
        send_payment_v2
          (keysend_body target amount limit (assign "5482373484" (Json.str encoded) records)) limit
    pure (with_preimage preimage p)

  unfoldable pub pay_keysend : String → ℤ → ℤ → String → List Dict → Client (Option Payment)
  unfolding add_records
  pay_keysend dest amount limit preimage tlvs =
      let own = or_else (lower preimage) lnd.token_bytes in
      do
        encoded ← or_raise (lnd.to_base64 own) Exc.value_error
        keysend_with own dest amount limit tlvs encoded
