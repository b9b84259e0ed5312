-- ===== src/Daemon/Http.antt =====
-- `handle_http`: the management API. `urlparse`, `parse_qs` and the header table come before it: the
-- route without its trailing slashes, the first value of each query key, and the headers are
-- arguments, and so is what one request draws (a token, keys, the time). What the relays are told
-- (`refresh_all_relays`) is left out.
pub mod Sound
pub mod Privilege
pub mod Funding
mod Tests
use Prim.Native.String as S
use sovran_bitcoin.Base.{
  ℕ, ◌+◌, String, Bool, false, Option, none, some, List, [], ◌∷◌, map, ◌&&◌, ◌||◌, not, is_none,
  is_some, if◌then◌else◌,
}
use sovran_bitcoin.Base.Int.{ℤ, pos, negsuc, ◌+ℤ◌, ◌*ℤ◌, ltb_ℤ, leb_ℤ}
use sovran_bitcoin.Base.Json.{Fields, Dict, get}
use sovran_bitcoin.Base.Monad.{
  Exc, Result, ok, raised, store_error, lnd_error, value_error, type_error, integrity_error,
  hub_error, hub_http, Action, pure, gets, or_raise, raise, ◌>>=◌, ◌>>◌,
}
use sovran_bitcoin.Base.Text.{◌=ₛ◌, nonempty}
use sovran_bitcoin.Base.Reading.{
  Python, text_at, int_at, given, optional_at, if_truthy, int_of, or_empty, dict_at, flag,
  query_int, starts_with, last_segment,
}
use sovran_bitcoin.Daemon.Lnd.{Answer, LndInvoice, NodeInfo, Lnd}
use sovran_bitcoin.Daemon.Reconcile.{reconcile_pending_invoices}
use sovran_bitcoin.Daemon.Tokens.{Token, issue_token, verify_token}
use sovran_bitcoin.Daemon.World.{World, on_store}
use sovran_bitcoin.Store.Apps.{
  Keys, NewApp, Internal, create_app, delete_app_by_pubkey, get_app, total_allocated_msat,
}
use sovran_bitcoin.Store.Incoming.{record_incoming_invoice}
use sovran_bitcoin.Store.Queries.{Filter, list_apps, list_transactions}
use sovran_bitcoin.Store.Rows.{Db, AppDict, TxDict}
use sovran_bitcoin.Store.Transfer.{transfer}

pub record Server : Type 0 where
  pub world : World
  pub tokens : List Token

pub record Request : Type 0 where
  pub method : String
  pub route : String
  pub query : String → Option String
  pub headers : String → Option String
  pub body : Option Dict

pub record Fresh : Type 0 where
  pub token : String
  pub keys : Keys
  pub created_at : String
  pub now : ℤ

-- The view of a sub-wallet for a token that may only mint invoices.
pub record PublicApp : Type 0 where
  pub id : ℕ
  pub isolated : Bool
  pub metadata : Dict

pub data Reply : Type 0 where
  info : Reply
  done : Reply
  unlocked : String → String → Reply
  node : Bool → Reply
  public_apps : List PublicApp → ℕ → Reply
  apps : List AppDict → ℕ → Reply
  app : AppDict → Reply
  transferred : ℤ → Reply
  invoice : String → String → ℤ → Reply
  transactions : List TxDict → ℕ → Reply
  error : String → Reply
  failure : String → String → Reply

pub record Response : Type 0 where
  pub status : ℕ
  pub reply : Reply

abbrev pub reply_with : {S : Type 0} → ℕ → Reply → Action S Response
reply_with status reply = pure (record { status = status; reply = reply })

abbrev pub on_world : {A : Type 0} → Action World A → Action Server A
on_world m s = let (r, w) = m s.world in (r, record s { world = w })

abbrev pub on_tokens : {A : Type 0} → Action (List Token) A → Action Server A
on_tokens m s = let (r, ts) = m s.tokens in (r, record s { tokens = ts })

abbrev pub lift : {S A : Type 0} → Result A → Action S A
lift r s = (r, s)

-- `self.verify_token(auth, …)`
abbrev pub verify : Option String → List String → Action Server String
verify auth required s = (verify_token auth required s.tokens, s)

abbrev pub full : List String
full = "full" ∷ []

abbrev pub full_read : List String
full_read = "full" ∷ "read" ∷ []

abbrev pub full_invoice : List String
full_invoice = "full" ∷ "invoice" ∷ []

abbrev pub anyone : List String
anyone = "full" ∷ "read" ∷ "invoice" ∷ []

-- `headers.get("Authorization") or headers.get("authorization")`
abbrev pub or_header : Option String → Option String → Option String
or_header none other = other
or_header (some h) other = if nonempty h then some h else other

abbrev pub auth_of : Request → Option String
auth_of r = or_header (r.headers "Authorization") (r.headers "authorization")

-- `body or {}`
abbrev pub payload_of : Request → Dict
payload_of r = elim r.body [ none ↦ Fields.end | some d ↦ d ]

-- A negative number is the id of no row: the next id that is not given out yet stands for it.
abbrev pub row_id : ℤ → Db → ℕ
row_id (pos n) db = n
row_id (negsuc n) db = db.next_app

abbrev pub row_of : Option ℤ → Db → Option ℕ
row_of none db = none
row_of (some z) db = some (row_id z db)

unfoldable pub unlock : Python → String → Fresh → Dict → Action Server Response
unlock py password fresh d = do
  let perm = text_at py "permission" "full" d
  token ← on_tokens (issue_token password (text_at py "unlockPassword" "" d) perm fresh.token)
  reply_with 200 (Reply.unlocked token perm)

abbrev pub ready : Answer NodeInfo → Bool
ready (Answer.answered node_info) = nonempty node_info.pubkey
ready (Answer.failed code message) = Bool.false

unfoldable pub node_status : Lnd → Option String → Action Server Response
node_status lnd auth = do verify auth anyone; reply_with 200 (Reply.node (ready lnd.get_info))

abbrev pub sanitized : AppDict → PublicApp
sanitized a = record { id = a.id; isolated = a.isolated; metadata = a.metadata }

-- `if perm == "invoice": …`
abbrev pub view_of : Bool → List AppDict × ℕ → Reply
view_of minting (found, total) =
    if minting then Reply.public_apps (map sanitized found) total else Reply.apps found total

abbrev pub reconcile_unless : Bool → Lnd → ℤ → Action World (Unit {0})
reconcile_unless minting lnd now =
    if minting then pure tt else reconcile_pending_invoices lnd now none

abbrev pub show_apps : Bool → ℤ → ℤ → Action Server Response
show_apps minting limit offset = do
  found ← gets (λ s. list_apps limit offset s.world.db)
  reply_with 200 (view_of minting found)

unfoldable pub get_apps : Lnd → Fresh → Option String → Request → Action Server Response
get_apps lnd fresh auth r = do
  perm ← verify auth anyone
  limit ← lift (query_int (r.query "limit") (pos 100))
  offset ← lift (query_int (r.query "offset") (pos 0))
  on_world (reconcile_unless (perm =ₛ "invoice") lnd fresh.now)
  show_apps (perm =ₛ "invoice") limit offset

abbrev pub new_app : Python → Dict → List String → ℤ → Dict → NewApp
new_app py d scopes max_amount metadata = record {
  name = text_at py "name" "" d;
  scopes = scopes;
  isolated = flag (get "isolated" d) Bool.true;
  max_amount_sat = max_amount;
  budget_renewal = text_at py "budgetRenewal" "never" d;
  metadata = metadata;
}

abbrev pub create : Fresh → NewApp → Action Server Response
create fresh n = do
  created ← on_world (on_store (create_app n fresh.keys fresh.created_at))
  reply_with 200 (Reply.app created.0)

unfoldable pub post_app : Python → Fresh → Option String → Dict → Action Server Response
post_app py fresh auth d = do
  verify auth full
  scopes ← lift (or_empty py (if_truthy (get "scopes" d)))
  max_amount ← lift (int_at "maxAmountSat" d)
  metadata ← lift (dict_at py (if_truthy (get "metadata" d)))
  create fresh (new_app py d scopes max_amount metadata)

abbrev pub found_app : Option AppDict → Action Server Response
found_app none = reply_with 404 (Reply.error "App not found")
found_app (some a) = reply_with 200 (Reply.app a)

unfoldable pub get_one : Lnd → Fresh → Option String → String → Action Server Response
get_one lnd fresh auth route = do
  verify auth full_read
  app_id ← lift (query_int (some (last_segment route)) (pos 0))
  id ← gets (λ s. row_id app_id s.world.db)
  on_world (reconcile_pending_invoices lnd fresh.now (some id))
  found ← gets (λ s. get_app id s.world.db)
  found_app found

abbrev pub deleted_reply : Bool → Action Server Response
deleted_reply gone =
    if gone then reply_with 200 Reply.done else reply_with 404 (Reply.error "App not found")

-- `route.split("/api/apps/", 1)[1]`, of a route that starts so.
abbrev pub behind_apps : String → String
behind_apps route = S.slice route (S.len "/api/apps/") (S.len route)

unfoldable pub delete_app : Python → Option String → String → Action Server Response
delete_app py auth route = do
  verify auth full
  gone ← on_world (on_store (delete_app_by_pubkey (py.unquote (behind_apps route))))
  deleted_reply gone

abbrev pub thousand : Result ℤ → Result ℤ
thousand (ok z) = ok (z *ℤ 1000)
thousand (raised e) = raised e

-- `amountMsat`, or `amountSat` by the thousand.
abbrev pub amount_at : Option ℤ → Dict → Result ℤ
amount_at none d = thousand (int_at "amountSat" d)
amount_at (some z) d = ok z

abbrev pub no_liquidity : String
no_liquidity = "Insufficient node channel liquidity to fund sub-wallet"

-- `node_local_msat > 0 and allocated_msat + amt_msat > node_local_msat`; an LndError is passed over.
abbrev pub exceeds : Answer ℤ → ℤ → ℤ → Bool
exceeds (Answer.failed code message) allocated amount = Bool.false
exceeds (Answer.answered local) allocated amount =
    ltb_ℤ (pos 0) local && ltb_ℤ local (allocated +ℤ amount)

-- `from_id is None and to_id is not None` and the test.
abbrev pub unbacked : Lnd → Option ℤ → Option ℤ → ℤ → Db → Bool
unbacked lnd from to amount db =
    (is_none from && is_some to)
    && exceeds lnd.get_channel_balance_msat (total_allocated_msat db) amount

abbrev pub make_transfer : Option ℤ → Option ℤ → ℤ → String → ℤ → Action Server Response
make_transfer from to amount description now = do
  db ← gets (λ s. s.world.db)
  moved ← on_world (on_store (transfer (row_of from db) (row_of to db) amount description now))
  reply_with 200 (Reply.transferred moved)

abbrev pub fund_or_move : Bool → Option ℤ → Option ℤ → ℤ → String → ℤ → Action Server Response
fund_or_move refused from to amount description now =
    if refused
    then reply_with 400 (Reply.error no_liquidity)
    else make_transfer from to amount description now

unfoldable pub post_transfer : Python → Lnd → Fresh → Option String → Dict → Action Server Response
post_transfer py lnd fresh auth d = do
  verify auth full
  msat ← lift (optional_at "amountMsat" d)
  amount ← lift (amount_at msat d)
  from ← lift (optional_at "fromAppId" d)
  to ← lift (optional_at "toAppId" d)
  refused ← gets (λ s. unbacked lnd from to amount s.world.db)
  fund_or_move refused from to amount (text_at py "description" "" d) fresh.now

-- `self.lnd.create_invoice(…)`
abbrev pub answer_of : {A : Type 0} → Answer A → Result A
answer_of (Answer.answered a) = ok a
answer_of (Answer.failed code message) = raised (lnd_error code message)

abbrev pub record_invoice : ℤ → ℤ → String → LndInvoice → Action Server Response
record_invoice to amount description inv = do
  id ← gets (λ s. row_id to s.world.db)
  on_world (
      on_store (
        record_incoming_invoice id inv.payment_hash inv.invoice amount description "" inv.created_at
          inv.expires_at))
  reply_with 200 (Reply.invoice inv.invoice inv.payment_hash to)

abbrev pub invoice_for : Lnd → ℤ → ℤ → String → Option AppDict → Action Server Response
invoice_for lnd to amount description none = reply_with 404 (Reply.error "Target app not found")
invoice_for lnd to amount description (some a) = do
  inv ← lift (answer_of (lnd.create_invoice amount description (pos 3600) none))
  record_invoice to amount description inv

abbrev pub mint : Lnd → ℤ → ℤ → String → Action Server Response
mint lnd to amount description =
    if leb_ℤ amount (pos 0) || leb_ℤ to (pos 0)
    then reply_with 400 (Reply.error "amountMsat and toAppId are required")
    else (do
      found ← gets (λ s. get_app (row_id to s.world.db) s.world.db)
      invoice_for lnd to amount description found)

unfoldable pub post_invoice : Python → Lnd → Option String → Dict → Action Server Response
post_invoice py lnd auth d = do
  verify auth full_invoice
  amount ← lift (int_at "amountMsat" d)
  to ← lift (int_at "toAppId" d)
  mint lnd to amount (text_at py "description" "" d)

abbrev pub optional_int : Option String → Result (Option ℤ)
optional_int none = ok none
optional_int (some s) = elim (query_int (some s) (pos 0)) [
  | ok z ↦ ok (some z)
  | raised e ↦ raised e
]

-- `if app_id is not None: …`
abbrev pub reconcile_app : Lnd → ℤ → Option ℕ → Action World (Unit {0})
reconcile_app lnd now none = pure tt
reconcile_app lnd now (some id) = reconcile_pending_invoices lnd now (some id)

abbrev pub of_app_only : Option ℕ → Filter
of_app_only id = record {
  app_id = id;
  tx_type = none;
  unpaid = false;
  from_ts = none;
  until_ts = none;
}

abbrev pub show_transactions : List TxDict × ℕ → Action Server Response
show_transactions (txs, total) = reply_with 200 (Reply.transactions txs total)

unfoldable pub get_transactions : Lnd → Fresh → Option String → Request → Action Server Response
get_transactions lnd fresh auth r = do
  verify auth full_read
  app_id ← lift (optional_int (r.query "appId"))
  id ← gets (λ s. row_of app_id s.world.db)
  on_world (reconcile_app lnd fresh.now id)
  limit ← lift (query_int (r.query "limit") (pos 100))
  offset ← lift (query_int (r.query "offset") (pos 0))
  found ← gets (λ s. list_transactions (of_app_only id) limit offset s.world.db)
  show_transactions found

-- What the tests on the route and the method lead to.
pub data Endpoint : Type 0 where
  get_info setup unlocking status listing creation single deletion : Endpoint
  transfers invoices history unknown : Endpoint

module _ (r : Request) where
  abbrev pub is : String → String → Bool
  is route method = r.route =ₛ route && r.method =ₛ method

  abbrev pub under : String → String → Bool
  under prefix method = starts_with prefix r.route && r.method =ₛ method

  unfoldable pub endpoint_of : Endpoint
  endpoint_of =
      if is "/api/info" "GET"
      then Endpoint.get_info
      else if is "/api/setup" "POST"
      then Endpoint.setup
      else if (r.route =ₛ "/api/unlock" || r.route =ₛ "/api/start") && r.method =ₛ "POST"
      then Endpoint.unlocking
      else if is "/api/node/status" "GET"
      then Endpoint.status
      else if is "/api/apps" "GET"
      then Endpoint.listing
      else if is "/api/apps" "POST"
      then Endpoint.creation
      else if under "/api/v2/apps/" "GET"
      then Endpoint.single
      else if under "/api/apps/" "DELETE"
      then Endpoint.deletion
      else if is "/api/transfers" "POST"
      then Endpoint.transfers
      else if is "/api/invoices" "POST"
      then Endpoint.invoices
      else if is "/api/transactions" "GET"
      then Endpoint.history
      else Endpoint.unknown

abbrev pub not_found : Request → Reply
not_found r = Reply.error (S.◌++◌ "Not found: " (S.◌++◌ r.method (S.◌++◌ " " r.route)))

module _ (py : Python) (lnd : Lnd) (password : String) (fresh : Fresh) where
  abbrev pub serve : Endpoint → Request → Action Server Response
  serve Endpoint.get_info r = reply_with 200 Reply.info
  serve Endpoint.setup r = reply_with 200 Reply.done
  serve Endpoint.unlocking r = unlock py password fresh (payload_of r)
  serve Endpoint.status r = node_status lnd (auth_of r)
  serve Endpoint.listing r = get_apps lnd fresh (auth_of r) r
  serve Endpoint.creation r = post_app py fresh (auth_of r) (payload_of r)
  serve Endpoint.single r = get_one lnd fresh (auth_of r) r.route
  serve Endpoint.deletion r = delete_app py (auth_of r) r.route
  serve Endpoint.transfers r = post_transfer py lnd fresh (auth_of r) (payload_of r)
  serve Endpoint.invoices r = post_invoice py lnd (auth_of r) (payload_of r)
  serve Endpoint.history r = get_transactions lnd fresh (auth_of r) r
  serve Endpoint.unknown r = reply_with 404 (not_found r)

-- The two `except` clauses; other exceptions pass.
abbrev pub caught : Result Response → Result Response
caught (ok x) = ok x
caught (raised (store_error code message http)) =
    ok (record { status = http; reply = Reply.failure message code })
caught (raised (lnd_error code message)) =
    ok (record { status = 502; reply = Reply.failure message code })
caught (raised value_error) = raised value_error
caught (raised type_error) = raised type_error
caught (raised integrity_error) = raised integrity_error
caught (raised (hub_error code message)) = raised (hub_error code message)
caught (raised (hub_http n)) = raised (hub_http n)

unfoldable pub handle_http : Python → Lnd → String → Fresh → Request → Action Server Response
handle_http py lnd password fresh r s =
    let (x, s') = serve py lnd password fresh (endpoint_of r) r s in (caught x, s')
