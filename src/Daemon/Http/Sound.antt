-- ===== src/Daemon/Http/Sound.antt =====
-- Every request of the management API keeps the store's books and the tokens in order.
use sovran_bitcoin.Base.{
  ℕ, String, ◌≡◌, refl, true, false, Bool, Option, none, some, List, ◌||◌, if◌then◌else◌, arith,
}
use sovran_bitcoin.Base.Int.{ℤ, pos, leb_ℤ, ◌≤ℤ◌}
use sovran_bitcoin.Base.Json.{Dict, get}
use sovran_bitcoin.Base.Monad.{Result, Action, Stays, Stays-bind, gets, ◌>>=◌}
use sovran_bitcoin.Base.Text.{◌=ₛ◌}
use sovran_bitcoin.Base.Reading.{
  Python, text_at, int_at, optional_at, if_truthy, or_empty, dict_at, query_int, last_segment,
}
use sovran_bitcoin.Daemon.Http.{
  Server, Request, Fresh, Reply, reply_with, on_world, on_tokens, lift, verify, full, full_read,
  full_invoice, anyone, row_id, row_of, unlock, node_status, reconcile_unless, show_apps, get_apps,
  new_app, create, post_app, found_app, get_one, behind_apps, deleted_reply, delete_app, amount_at,
  unbacked, make_transfer, fund_or_move, post_transfer, answer_of, record_invoice, invoice_for,
  mint, post_invoice, optional_int, reconcile_app, of_app_only, show_transactions, get_transactions,
  serve, Endpoint, endpoint_of, ready, handle_http, auth_of, payload_of, no_liquidity,
}
use sovran_bitcoin.Daemon.Lnd.{LndInvoice, Lnd, IsLnd}
use sovran_bitcoin.Daemon.Reconcile.{reconcile_pending_invoices, reconcile_pending_invoices-IsSound}
use sovran_bitcoin.Daemon.Tokens.{AreTokens, issue_token, issue_token-AreTokens}
use sovran_bitcoin.Daemon.World.{World, OfStore, on_store, on_store-Stays}
use sovran_bitcoin.Store.Apps.Delete.{delete_app_by_pubkey-IsSound}
use sovran_bitcoin.Store.Apps.Sound.{create_app-IsSound}
use sovran_bitcoin.Store.Apps.{NewApp, create_app, delete_app_by_pubkey, get_app}
use sovran_bitcoin.Store.Incoming.Sound.{record_incoming_invoice-IsSound}
use sovran_bitcoin.Store.Incoming.{record_incoming_invoice}
use sovran_bitcoin.Store.Ledger.{IsSound}
use sovran_bitcoin.Store.Queries.{list_transactions}
use sovran_bitcoin.Store.Rows.{Db, AppDict}
use sovran_bitcoin.Store.Transfer.Sound.{transfer-IsSound}
use sovran_bitcoin.Store.Transfer.{transfer}

-- The books are sound, and every token has one of the three permissions.
pub record IsOrderly (s : Server) : Type 0 where
  pub books : IsSound s.world.db
  pub permissions : AreTokens s.tokens

abbrev Keeps : {A : Type 0} → Action Server A → Type 0
Keeps m = Stays IsOrderly m

on_world-Keeps : {A : Type 0} (m : Action World A) → Stays (OfStore IsSound) m → Keeps (on_world m)
on_world-Keeps m h s p = record { books = h s.world p.books; permissions = p.permissions }

on_db-Keeps : {A : Type 0} (m : Action Db A) → Stays IsSound m → Keeps (on_world (on_store m))
on_db-Keeps m h = on_world-Keeps (on_store m) (on_store-Stays IsSound m h)

-- What reads, or raises, and then goes on.
lift-Keeps :
    {A B : Type 0} (r : Result A) (f : A → Action Server B)
    → ((a : A) → Keeps (f a))
    → Keeps (lift r >>= f)
lift-Keeps r f h = Stays-bind IsOrderly (lift r) f (λ s p. p) h

gets-Keeps :
    {A B : Type 0} (g : Server → A) (f : A → Action Server B)
    → ((a : A) → Keeps (f a))
    → Keeps (gets g >>= f)
gets-Keeps g f h = Stays-bind IsOrderly (gets g) f (λ s p. p) h

verify-Keeps :
    {B : Type 0} (auth : Option String) (required : List String) (f : String → Action Server B)
    → ((perm : String) → Keeps (f perm))
    → Keeps (verify auth required >>= f)
verify-Keeps auth required f h = Stays-bind IsOrderly (verify auth required) f (λ s p. p) h

if-Keeps :
    {A : Type 0} (c : Bool) (a b : Action Server A)
    → Keeps a
    → (c ≡ false → Keeps b)
    → Keeps (if c then a else b)
if-Keeps true a b h k = h
if-Keeps false a b h k = k refl

module _ (py : Python) (password : String) (fresh : Fresh) where
  unlock-Keeps : (d : Dict) → Keeps (unlock py password fresh d)
  unfolding unlock
  unlock-Keeps d =
      let perm = text_at py "permission" "full" d in
      let given = text_at py "unlockPassword" "" d in
      Stays-bind IsOrderly (on_tokens (issue_token password given perm fresh.token))
        (λ token. reply_with 200 (Reply.unlocked token perm))
        (λ s p. record {
          books = p.books;
          permissions =
              issue_token-AreTokens password given perm fresh.token s.tokens p.permissions;
        })
        (λ token s p. p)

  create-Keeps : (n : NewApp) → Keeps (create fresh n)
  create-Keeps n =
      Stays-bind IsOrderly (on_world (on_store (create_app n fresh.keys fresh.created_at)))
        (λ created. reply_with 200 (Reply.app created.0))
        (on_db-Keeps (create_app n fresh.keys fresh.created_at)
          (create_app-IsSound n fresh.keys fresh.created_at))
        (λ created s p. p)

  post_app-Keeps : (auth : Option String) (d : Dict) → Keeps (post_app py fresh auth d)
  unfolding post_app
  post_app-Keeps auth d =
      let scopes = or_empty py (if_truthy (get "scopes" d)) in
      let most = int_at "maxAmountSat" d in
      let metadata = dict_at py (if_truthy (get "metadata" d)) in
      verify-Keeps auth full
        (λ _. lift scopes >>= λ xs.
          lift most >>= λ z. lift metadata >>= λ m. create fresh (new_app py d xs z m))
        λ _.
          lift-Keeps scopes
            (λ xs. lift most >>= λ z. lift metadata >>= λ m. create fresh (new_app py d xs z m))
            λ xs.
              lift-Keeps most (λ z. lift metadata >>= λ m. create fresh (new_app py d xs z m))
                λ z.
                  lift-Keeps metadata (λ m. create fresh (new_app py d xs z m))
                    λ m. create-Keeps (new_app py d xs z m)

  delete_app-Keeps : (auth : Option String) (route : String) → Keeps (delete_app py auth route)
  unfolding delete_app
  delete_app-Keeps auth route =
      let remove = delete_app_by_pubkey (py.unquote (behind_apps route)) in
      verify-Keeps auth full (λ _. on_world (on_store remove) >>= deleted_reply)
        λ _.
          Stays-bind IsOrderly (on_world (on_store remove)) deleted_reply
            (on_db-Keeps remove (delete_app_by_pubkey-IsSound (py.unquote (behind_apps route))))
            λ gone.
              if-Keeps gone (reply_with 200 Reply.done)
                (reply_with 404 (Reply.error "App not found")) (λ s p. p) (λ e s p. p)

  make_transfer-Keeps :
      (from to : Option ℤ) (amount now : ℤ) (description : String)
      → Keeps (make_transfer from to amount description now)
  make_transfer-Keeps from to amount now description =
      gets-Keeps (λ s. s.world.db)
        (λ db.
          on_world (on_store (transfer (row_of from db) (row_of to db) amount description now))
          >>= λ moved. reply_with 200 (Reply.transferred moved))
        λ db.
          let run = transfer (row_of from db) (row_of to db) amount description now in
          Stays-bind IsOrderly (on_world (on_store run))
            (λ moved. reply_with 200 (Reply.transferred moved))
            (on_db-Keeps run
              (transfer-IsSound (row_of from db) (row_of to db) amount description now))
            (λ moved s p. p)

  fund_or_move-Keeps :
      (refused : Bool) (from to : Option ℤ) (amount now : ℤ) (description : String)
      → Keeps (fund_or_move refused from to amount description now)
  fund_or_move-Keeps refused from to amount now description =
      if-Keeps refused (reply_with 400 (Reply.error no_liquidity))
        (make_transfer from to amount description now) (λ s p. p)
        (λ e. make_transfer-Keeps from to amount now description)

  post_transfer-Keeps :
      (lnd : Lnd) (auth : Option String) (d : Dict) → Keeps (post_transfer py lnd fresh auth d)
  unfolding post_transfer
  post_transfer-Keeps lnd auth d =
      let text = text_at py "description" "" d in
      let last = λ (amount : ℤ) (from : Option ℤ) (to : Option ℤ).
        gets (λ s. unbacked lnd from to amount s.world.db) >>= λ refused.
        fund_or_move refused from to amount text fresh.now in
      let source = optional_at "fromAppId" d in
      let target = optional_at "toAppId" d in
      verify-Keeps auth full
        (λ _. lift (optional_at "amountMsat" d) >>= λ msat. lift (amount_at msat d) >>= λ amount.
          lift source >>= λ from. lift target >>= λ to. last amount from to)
        λ _.
          lift-Keeps (optional_at "amountMsat" d)
            (λ msat. lift (amount_at msat d) >>= λ amount.
              lift source >>= λ from. lift target >>= λ to. last amount from to)
            λ msat.
              lift-Keeps (amount_at msat d)
                (λ amount. lift source >>= λ from. lift target >>= λ to. last amount from to)
                λ amount.
                  lift-Keeps source (λ from. lift target >>= λ to. last amount from to)
                    λ from.
                      lift-Keeps target (λ to. last amount from to)
                        λ to.
                          gets-Keeps (λ s. unbacked lnd from to amount s.world.db)
                            (λ refused. fund_or_move refused from to amount text fresh.now)
                            λ refused. fund_or_move-Keeps refused from to amount fresh.now text

module _ (lnd : Lnd) (fresh : Fresh) (good : IsLnd lnd) where
  reconcile-Keeps :
      (app : Option ℕ) → Keeps (on_world (reconcile_pending_invoices lnd fresh.now app))
  reconcile-Keeps app =
      on_world-Keeps (reconcile_pending_invoices lnd fresh.now app)
        (reconcile_pending_invoices-IsSound lnd fresh.now good app)

  reconcile_unless-Keeps : (c : Bool) → Keeps (on_world (reconcile_unless c lnd fresh.now))
  reconcile_unless-Keeps true s p = p
  reconcile_unless-Keeps false s p = reconcile-Keeps none s p

  reconcile_app-Keeps : (app : Option ℕ) → Keeps (on_world (reconcile_app lnd fresh.now app))
  reconcile_app-Keeps none s p = p
  reconcile_app-Keeps (some id) s p = reconcile-Keeps (some id) s p

  get_apps-Keeps : (auth : Option String) (r : Request) → Keeps (get_apps lnd fresh auth r)
  unfolding get_apps
  get_apps-Keeps auth r =
      let limit = query_int (r.query "limit") (pos 100) in
      let offset = query_int (r.query "offset") (pos 0) in
      let last = λ (perm : String) (n : ℤ) (k : ℤ).
        on_world (reconcile_unless (perm =ₛ "invoice") lnd fresh.now) >>= λ _.
        show_apps (perm =ₛ "invoice") n k in
      verify-Keeps auth anyone (λ perm. lift limit >>= λ n. lift offset >>= λ k. last perm n k)
        λ perm.
          lift-Keeps limit (λ n. lift offset >>= λ k. last perm n k)
            λ n.
              lift-Keeps offset (λ k. last perm n k)
                λ k.
                  Stays-bind IsOrderly
                    (on_world (reconcile_unless (perm =ₛ "invoice") lnd fresh.now))
                    (λ _. show_apps (perm =ₛ "invoice") n k)
                    (reconcile_unless-Keeps (perm =ₛ "invoice")) (λ _ s p. p)

  found_app-Keeps : (found : Option AppDict) → Keeps (found_app found)
  found_app-Keeps none s p = p
  found_app-Keeps (some a) s p = p

  get_one-Keeps : (auth : Option String) (route : String) → Keeps (get_one lnd fresh auth route)
  unfolding get_one
  get_one-Keeps auth route =
      let number = query_int (some (last_segment route)) (pos 0) in
      let behind = λ (id : ℕ). gets (λ s. get_app id s.world.db) >>= found_app in
      let last = λ (id : ℕ).
        on_world (reconcile_pending_invoices lnd fresh.now (some id)) >>= λ _. behind id in
      verify-Keeps auth full_read
        (λ _. lift number >>= λ n. gets (λ s. row_id n s.world.db) >>= last)
        λ _.
          lift-Keeps number (λ n. gets (λ s. row_id n s.world.db) >>= last)
            λ n.
              gets-Keeps (λ s. row_id n s.world.db) last
                λ id.
                  Stays-bind IsOrderly
                    (on_world (reconcile_pending_invoices lnd fresh.now (some id))) (λ _. behind id)
                    (reconcile-Keeps (some id))
                    λ _. gets-Keeps (λ s. get_app id s.world.db) found_app found_app-Keeps

  get_transactions-Keeps :
      (auth : Option String) (r : Request) → Keeps (get_transactions lnd fresh auth r)
  unfolding get_transactions
  get_transactions-Keeps auth r =
      let limit = query_int (r.query "limit") (pos 100) in
      let offset = query_int (r.query "offset") (pos 0) in
      let number = optional_int (r.query "appId") in
      let page = λ (id : Option ℕ) (n : ℤ) (k : ℤ).
        gets (λ s. list_transactions (of_app_only id) n k s.world.db) >>= show_transactions in
      let shown = λ (id : Option ℕ). lift limit >>= λ n. lift offset >>= λ k. page id n k in
      let last = λ (id : Option ℕ). on_world (reconcile_app lnd fresh.now id) >>= λ _. shown id in
      verify-Keeps auth full_read
        (λ _. lift number >>= λ a. gets (λ s. row_of a s.world.db) >>= last)
        λ _.
          lift-Keeps number (λ a. gets (λ s. row_of a s.world.db) >>= last)
            λ a.
              gets-Keeps (λ s. row_of a s.world.db) last
                λ id.
                  Stays-bind IsOrderly (on_world (reconcile_app lnd fresh.now id)) (λ _. shown id)
                    (reconcile_app-Keeps id)
                    λ _.
                      lift-Keeps limit (λ n. lift offset >>= λ k. page id n k)
                        λ n.
                          lift-Keeps offset (λ k. page id n k)
                            λ k.
                              gets-Keeps (λ s. list_transactions (of_app_only id) n k s.world.db)
                                show_transactions (λ found s p. p)

  record_invoice-Keeps :
      (to amount : ℤ) (description : String) (inv : LndInvoice)
      → pos 0 ≤ℤ amount
      → Keeps (record_invoice to amount description inv)
  record_invoice-Keeps to amount description inv sign =
      let run = λ (id : ℕ).
        record_incoming_invoice id inv.payment_hash inv.invoice amount description "" inv.created_at
          inv.expires_at in
      let answer = reply_with 200 (Reply.invoice inv.invoice inv.payment_hash to) in
      gets-Keeps (λ s. row_id to s.world.db) (λ id. on_world (on_store (run id)) >>= λ _. answer)
        λ id.
          Stays-bind IsOrderly (on_world (on_store (run id))) (λ _. answer)
            (on_db-Keeps (run id) (λ db.
              record_incoming_invoice-IsSound id inv.payment_hash inv.invoice amount description ""
                inv.created_at inv.expires_at db sign))
            (λ _ s p. p)

  invoice_for-Keeps :
      (to amount : ℤ) (description : String) (found : Option AppDict)
      → pos 0 ≤ℤ amount
      → Keeps (invoice_for lnd to amount description found)
  invoice_for-Keeps to amount description none sign = λ s p. p
  invoice_for-Keeps to amount description (some a) sign =
      lift-Keeps (answer_of (lnd.create_invoice amount description (pos 3600) none))
        (record_invoice to amount description)
        λ inv. record_invoice-Keeps to amount description inv sign

  mint-Keeps : (to amount : ℤ) (description : String) → Keeps (mint lnd to amount description)
  mint-Keeps to amount description =
      if-Keeps (leb_ℤ amount (pos 0) || leb_ℤ to (pos 0))
        (reply_with 400 (Reply.error "amountMsat and toAppId are required"))
        (gets (λ s. get_app (row_id to s.world.db) s.world.db)
          >>= invoice_for lnd to amount description)
        (λ s p. p)
        λ e.
          gets-Keeps (λ s. get_app (row_id to s.world.db) s.world.db)
            (invoice_for lnd to amount description)
            λ found. invoice_for-Keeps to amount description found (nonneg_of amount to e)
    where
      nonneg_of : (z n : ℤ) → (leb_ℤ z (pos 0) || leb_ℤ n (pos 0)) ≡ false → pos 0 ≤ℤ z
      nonneg_of z n e = ground arith

  post_invoice-Keeps :
      (py : Python) (auth : Option String) (d : Dict) → Keeps (post_invoice py lnd auth d)
  unfolding post_invoice
  post_invoice-Keeps py auth d =
      let text = text_at py "description" "" d in
      verify-Keeps auth full_invoice
        (λ _. lift (int_at "amountMsat" d) >>= λ amount.
          lift (int_at "toAppId" d) >>= λ to. mint lnd to amount text)
        λ _.
          lift-Keeps (int_at "amountMsat" d)
            (λ amount. lift (int_at "toAppId" d) >>= λ to. mint lnd to amount text)
            λ amount.
              lift-Keeps (int_at "toAppId" d) (λ to. mint lnd to amount text)
                λ to. mint-Keeps to amount text

module _ (py : Python) (lnd : Lnd) (password : String) (fresh : Fresh) (good : IsLnd lnd) where
  serve-Keeps : (e : Endpoint) (r : Request) → Keeps (serve py lnd password fresh e r)
  unfolding node_status
  serve-Keeps Endpoint.get_info r = λ s p. p
  serve-Keeps Endpoint.setup r = λ s p. p
  serve-Keeps Endpoint.unlocking r = unlock-Keeps py password fresh (payload_of r)
  serve-Keeps Endpoint.status r =
      let answer = reply_with 200 (Reply.node (ready lnd.get_info)) in
      verify-Keeps (auth_of r) anyone (λ _. answer) (λ perm s p. p)
  serve-Keeps Endpoint.listing r = get_apps-Keeps lnd fresh good (auth_of r) r
  serve-Keeps Endpoint.creation r = post_app-Keeps py password fresh (auth_of r) (payload_of r)
  serve-Keeps Endpoint.single r = get_one-Keeps lnd fresh good (auth_of r) r.route
  serve-Keeps Endpoint.deletion r = delete_app-Keeps py password fresh (auth_of r) r.route
  serve-Keeps Endpoint.transfers r =
      post_transfer-Keeps py password fresh lnd (auth_of r) (payload_of r)
  serve-Keeps Endpoint.invoices r = post_invoice-Keeps lnd fresh good py (auth_of r) (payload_of r)
  serve-Keeps Endpoint.history r = get_transactions-Keeps lnd fresh good (auth_of r) r
  serve-Keeps Endpoint.unknown r = λ s p. p

  -- With an LND that reports no negative amount and takes no more in fees than its limit, every
  -- request of the management API, to any route, with any token or none, with any payload, answered or
  -- raising, keeps the invariant of the store, and every token's permission one of the three.
  pub handle_http-IsOrderly :
      (r : Request) (s : Server) → IsOrderly s → IsOrderly (handle_http py lnd password fresh r s).1
  unfolding handle_http
  handle_http-IsOrderly r s p = serve-Keeps (endpoint_of r) r s p
