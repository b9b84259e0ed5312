-- ===== src/Daemon/Nip47.antt =====
-- `handle_nip47_method`: one request of a client, from the permission check to the response. `now` and
-- `later` are the clock where the handler reads it.
pub mod Receive
pub mod Sound
use Prim.Native.String as S
use sovran_bitcoin.Base.{
  ℕ, String, Bool, true, false, Option, none, some, List, [], ◌∷◌, map, ◌&&◌, ◌||◌, not,
  if◌then◌else◌,
}
use sovran_bitcoin.Base.Int.{ℤ, pos, leb_ℤ}
use sovran_bitcoin.Base.Monad.{
  Exc, store_error, lnd_error, value_error, type_error, integrity_error, hub_error, hub_http,
  Result, ok, raised, Action, pure, gets, ◌>>=◌, ◌>>◌,
}
use sovran_bitcoin.Base.Text.{◌=ₛ◌, nonempty, strip, lower, canonical}
use sovran_bitcoin.Daemon.Lnd.{Answer, LndInvoice, NodeInfo, Lnd}
use sovran_bitcoin.Daemon.Pay.{
  Hashing, or_lnd_error, record_preimage, pay_invoice_payload, pay_keysend_payload,
}
use sovran_bitcoin.Daemon.Reconcile.{reconcile_pending_invoices}
use sovran_bitcoin.Daemon.Request.{Params, Payload, Info, int, bound, to_nip47_tx}
use sovran_bitcoin.Daemon.Scopes.{all_known_nip47_methods, scopes_to_nip47_methods}
use sovran_bitcoin.Daemon.World.{World, member, on_store}
use sovran_bitcoin.Store.Apps.{get_app}
use sovran_bitcoin.Store.Incoming.{record_incoming_invoice, find_tx_for_app}
use sovran_bitcoin.Store.Queries.{Filter, list_transactions}
use sovran_bitcoin.Store.Rows.{AppDict, TxDict}

-- `x or y`, of texts.
abbrev pub or_text : String → String → String
or_text x y = if nonempty x then x else y

-- The methods stand in the order of the scopes; Python's set may permute them.
abbrev pub info_of : AppDict → NodeInfo → Info
info_of app i = record {
  alias = or_text app.name i.alias;
  color = i.color;
  pubkey = i.pubkey;
  network = i.network;
  block_height = i.block_height;
  block_hash = i.block_hash;
  methods = scopes_to_nip47_methods app.scopes;
  notifications =
      if member "notifications" app.scopes then "payment_received" ∷ "payment_sent" ∷ [] else [];
}

abbrev pub get_info : Lnd → AppDict → Action World Payload
get_info lnd app = do i ← or_lnd_error lnd.get_info; pure (Payload.info (info_of app i))

abbrev pub or_app : Option AppDict → AppDict → AppDict
or_app none app = app
or_app (some fresh) app = fresh

abbrev pub balance_now : AppDict → Action World Payload
balance_now app = do
  fresh ← gets (λ w. get_app app.id w.db)
  pure (Payload.balance (or_app fresh app).balance_msat)

abbrev pub get_balance : Lnd → ℤ → AppDict → Action World Payload
get_balance lnd now app = do reconcile_pending_invoices lnd now (some app.id); balance_now app

-- `try: str(lookup_invoice(…).get("preimage") or "")`, `except LndError: ""`
abbrev pub known_preimage : Answer LndInvoice → String
known_preimage (Answer.answered inv) = inv.preimage
known_preimage (Answer.failed code message) = ""

abbrev pub file_preimage : Lnd → String → TxDict → Action World Payload
file_preimage lnd hash tx = do
  record_preimage hash (known_preimage (lnd.lookup_invoice hash))
  pure (Payload.transaction "make_invoice" (to_nip47_tx tx))

abbrev pub file_invoice : Lnd → AppDict → Params → ℤ → LndInvoice → Action World Payload
file_invoice lnd app params amount inv =
    on_store (
      record_incoming_invoice app.id inv.payment_hash inv.invoice amount params.description
        params.description_hash inv.created_at inv.expires_at)
    >>= file_preimage lnd inv.payment_hash

abbrev pub issue : Lnd → AppDict → Params → ℤ → ℤ → Action World Payload
issue lnd app params amount expiry =
    or_lnd_error (
      lnd.create_invoice amount params.description expiry
        (if nonempty params.description_hash then some params.description_hash else none))
    >>= file_invoice lnd app params amount

abbrev pub make_positive : Lnd → AppDict → Params → ℤ → Action World Payload
make_positive lnd app params amount =
    if leb_ℤ amount (pos 0)
    then pure (Payload.error "make_invoice" "OTHER" "Amount must be positive")
    else (int params.expiry >>= issue lnd app params amount)

abbrev pub make_invoice : Lnd → AppDict → Params → Action World Payload
make_invoice lnd app params = int params.amount >>= make_positive lnd app params

abbrev pub found_or_not : Option TxDict → Payload
found_or_not none = Payload.error "lookup_invoice" "NOT_FOUND" "Invoice not found"
found_or_not (some tx) = Payload.transaction "lookup_invoice" (to_nip47_tx tx)

-- `if not ph and bolt11: ph = decode_payreq(bolt11)["payment_hash"]`
abbrev pub hash_of : Lnd → String → String → Action World String
hash_of lnd hash bolt11 =
    if not (nonempty hash) && nonempty bolt11
    then (do decoded ← or_lnd_error (lnd.decode_payreq bolt11); pure decoded.payment_hash)
    else pure hash

abbrev pub answer_lookup : AppDict → String → String → Action World Payload
answer_lookup app bolt11 hash = do
  tx ← gets (λ w. find_tx_for_app app.id hash bolt11 w.db)
  pure (found_or_not tx)

abbrev pub look_up : Lnd → ℤ → AppDict → String → String → Action World Payload
look_up lnd now app bolt11 hash = do
  reconcile_pending_invoices lnd now (some app.id)
  answer_lookup app bolt11 hash

abbrev pub lookup_invoice : Lnd → ℤ → AppDict → Params → Action World Payload
lookup_invoice lnd now app params =
    hash_of lnd (canonical params.payment_hash) (strip params.invoice)
    >>= look_up lnd now app (strip params.invoice)

-- `from_ts` and `until_ts` as `list_transactions` reads them.
abbrev pub list_between : AppDict → Params → ℤ → ℤ → Option ℤ → Option ℤ → Action World Payload
list_between app params limit offset earliest latest = do
  rows ← gets (λ w.
      list_transactions
        (record {
          app_id = some app.id;
          tx_type = params.tx_type;
          unpaid = params.unpaid;
          from_ts = earliest;
          until_ts = latest;
        })
        limit offset w.db)
  pure (Payload.transactions (map to_nip47_tx rows.0))

abbrev pub list_until : AppDict → Params → ℤ → ℤ → Option ℤ → Action World Payload
list_until app params limit offset earliest =
    bound params.until_ts >>= list_between app params limit offset earliest

abbrev pub list_from : AppDict → Params → ℤ → ℤ → Action World Payload
list_from app params limit offset = bound params.from_ts >>= list_until app params limit offset

abbrev pub list_limited : AppDict → Params → ℤ → Action World Payload
list_limited app params limit = int params.offset >>= list_from app params limit

abbrev pub list_page : AppDict → Params → Action World Payload
list_page app params = int params.limit >>= list_limited app params

abbrev pub list_all : Lnd → ℤ → AppDict → Params → Action World Payload
list_all lnd now app params = do
  reconcile_pending_invoices lnd now (some app.id)
  list_page app params

abbrev pub not_implemented : String → Payload
not_implemented method =
    Payload.error method "NOT_IMPLEMENTED" (S.◌++◌ "Method " (S.◌++◌ method " not implemented"))

abbrev pub dispatch : Lnd → Hashing → ℤ → ℤ → AppDict → String → Params → Action World Payload
dispatch lnd h now later app method params =
    if method =ₛ "get_info"
    then get_info lnd app
    else if method =ₛ "get_balance"
    then get_balance lnd now app
    else if method =ₛ "make_invoice"
    then make_invoice lnd app params
    else if method =ₛ "lookup_invoice"
    then lookup_invoice lnd now app params
    else if method =ₛ "list_transactions"
    then list_all lnd now app params
    else if method =ₛ "pay_invoice"
    then pay_invoice_payload lnd now later app.id params
    else if method =ₛ "pay_keysend"
    then pay_keysend_payload lnd h now later app.id params
    else pure (not_implemented method)

-- `except NwcStoreError`, `except LndError`; any other exception passes on.
abbrev pub answer_error : String → Exc → Result Payload
answer_error method (store_error code message status) = ok (Payload.error method code message)
answer_error method (lnd_error code message) = ok (Payload.error method "INTERNAL" message)
answer_error method value_error = raised value_error
answer_error method type_error = raised type_error
answer_error method integrity_error = raised integrity_error
answer_error method (hub_error code message) = raised (hub_error code message)
answer_error method (hub_http n) = raised (hub_http n)

abbrev pub answer : String → Result Payload → Result Payload
answer method (ok p) = ok p
answer method (raised e) = answer_error method e

abbrev pub guarded : String → Action World Payload → Action World Payload
guarded method m w = (answer method (m w).0, (m w).1)

abbrev pub not_supported : String → Payload
not_supported method =
    Payload.error (or_text method "unknown") "NOT_IMPLEMENTED"
      (S.◌++◌ "Method '" (S.◌++◌ method "' is not supported by this wallet"))

abbrev pub restricted : String → Payload
restricted method =
    Payload.error (or_text method "unknown") "RESTRICTED"
      (S.◌++◌ "This wallet does not have permission for '" (S.◌++◌ method "'"))

unfoldable pub handle_nip47_method :
    Lnd → Hashing → ℤ → ℤ → AppDict → String → Params → Action World Payload
handle_nip47_method lnd h now later app method params =
    if not (member method all_known_nip47_methods)
    then pure (not_supported method)
    else if not (member method (scopes_to_nip47_methods app.scopes))
    then pure (restricted method)
    else guarded method (dispatch lnd h now later app method params)
