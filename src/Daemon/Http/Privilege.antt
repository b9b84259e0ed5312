-- ===== src/Daemon/Http/Privilege.antt =====
-- What a client cannot do, and cannot see, whose token does not stand for `full` or `read`.
use Prim.Native.String as S
use text.Mathlib.TextEquality.{eq_iff}
use sovran_bitcoin.Base.{
  ℕ, String, ◌≡◌, refl, sym, ◌∙◌, inl, inr, true, false, Bool, Option, none, some, List, ◌||◌,
  Bool-cases, Option-cases, arith,
}
use sovran_bitcoin.Base.Int.{ℤ, pos, leb_ℤ}
use sovran_bitcoin.Base.Monad.{
  Exc, store_error, lnd_error, value_error, type_error, integrity_error, hub_error, hub_http,
  Result, Action, ok, raised, ◌>>=◌,
}
use sovran_bitcoin.Base.Json.{Dict}
use sovran_bitcoin.Base.Text.{◌=ₛ◌}
use sovran_bitcoin.Base.Reading.{Python, text_at, int_at, query_int}
use sovran_bitcoin.Daemon.Http.{
  Server, Request, Fresh, Response, Reply, reply_with, on_world, reconcile_unless, lift, verify,
  full, full_read, full_invoice, anyone, row_id, unlock, node_status, show_apps, get_apps, post_app,
  get_one, delete_app, post_transfer, answer_of, record_invoice, invoice_for, mint, post_invoice,
  get_transactions, auth_of, payload_of, caught, Endpoint, endpoint_of, ready, serve, handle_http,
}
use sovran_bitcoin.Daemon.Lnd.{LndInvoice, Lnd}
use sovran_bitcoin.Daemon.Tokens.{
  Token, permission_of, grant, bearer, missing_token, verify_token, issue_token,
}
use sovran_bitcoin.Daemon.World.{member, on_store}
use sovran_bitcoin.Store.Apps.{get_app}
use sovran_bitcoin.Store.Incoming.Sound.{record_incoming_invoice_new}
use sovran_bitcoin.Store.Incoming.{record_incoming_invoice}
use sovran_bitcoin.Store.Rows.{AppDict, Db, TxDict}
use sovran_bitcoin.Store.Sql.{find_app, insert_tx}

-- An answer in which a balance, a key or a transaction stands.
unfoldable pub shows_money : Reply → Bool
shows_money (Reply.apps xs n) = true
shows_money (Reply.app a) = true
shows_money (Reply.transferred z) = true
shows_money (Reply.transactions ts n) = true
shows_money _ = false

abbrev pub IsDiscreet : Result Response → Type 0
IsDiscreet (ok x) = shows_money x.reply ≡ false
IsDiscreet (raised e) = Unit

-- The exception that a result carries.
abbrev pub Fails : {A : Type 0} → Result A → Type 0
Fails r = (e : Exc) × (r ≡ raised e)

-- A text that is neither "full" nor "read".
grant-Fails :
    (o : Option String) (required : List String)
    → ((p : String) → member p full_read ≡ false → member p required ≡ false)
    → Fails (grant full_read o)
    → Fails (grant required o)
grant-Fails none required narrow h = (_, refl)
grant-Fails (some p) required narrow (e, h) = elim (Bool-cases (member p full_read)) [
  | inl allowed ↦ absurd (clash (rw allowed at h))
  | inr denied ↦ rw (narrow p denied) (_, refl)
]
  where
    clash : ◌≡◌ {A = Result String} (ok p) (raised e) → ⊥
    clash h = cc

verify_token-Fails :
    (auth : Option String) (required : List String) (tokens : List Token)
    → ((p : String) → member p full_read ≡ false → member p required ≡ false)
    → Fails (verify_token auth full_read tokens)
    → Fails (verify_token auth required tokens)
unfolding verify_token
verify_token-Fails none required tokens narrow h = (_, refl)
verify_token-Fails (some header) required tokens narrow h =
    elim (Bool-cases (S.slice header 0 7 =ₛ "Bearer ")) [
      | inr bare ↦ rw bare (_, refl)
      | inl bears ↦
          rw bears
            (grant-Fails (permission_of (bearer header) tokens) required narrow (rw bears at h))
    ]

-- A token that passes for anyone but not for `full` or `read` is one for invoices.
grant-invoice :
    (o : Option String) (perm : String)
    → Fails (grant full_read o)
    → grant anyone o ≡ ok perm
    → (perm =ₛ "invoice") ≡ true
grant-invoice none perm h g = absurd (cc)
grant-invoice (some p) perm (e, h) g = elim (Bool-cases (member p full_read)) [
  | inl allowed ↦ absurd (clash perm e (rw allowed at h))
  | inr denied ↦ elim (Bool-cases (member p anyone)) [
    | inl third ↦
        let text : "invoice" ≡ p = (eq_iff "invoice" p).0 (only_invoice p denied third) in
        (eq_iff perm "invoice").1 (sym (text ∙ ok_inj p perm (rw third at g)))
    | inr none_of_them ↦ absurd (clash' perm _ (rw none_of_them at g))
  ]
]
  where
    clash : (perm : String) (e : Exc) → ◌≡◌ {A = Result String} (ok p) (raised e) → ⊥
    clash perm e h = cc

    clash' : (perm : String) (e : Exc) → ◌≡◌ {A = Result String} (raised e) (ok perm) → ⊥
    clash' perm e h = cc

    ok_inj : (a b : String) → ◌≡◌ {A = Result String} (ok a) (ok b) → a ≡ b
    ok_inj a b e = cc

    only_invoice :
        (q : String) → member q full_read ≡ false → member q anyone ≡ true → ("invoice" =ₛ q) ≡ true
    only_invoice q h k = ground arith

verify_token-invoice :
    (auth : Option String) (perm : String) (tokens : List Token)
    → Fails (verify_token auth full_read tokens)
    → verify_token auth anyone tokens ≡ ok perm
    → (perm =ₛ "invoice") ≡ true
unfolding verify_token
verify_token-invoice none perm tokens h g = absurd (cc)
verify_token-invoice (some header) perm tokens h g =
    elim (Bool-cases (S.slice header 0 7 =ₛ "Bearer ")) [
      | inr bare ↦ absurd (clash (rw bare at g))
      | inl bears ↦
          grant-invoice (permission_of (bearer header) tokens) perm (rw bears at h) (rw bears at g)
    ]
  where
    clash : ◌≡◌ {A = Result String} (raised missing_token) (ok perm) → ⊥
    clash h = cc

full_narrow : (p : String) → member p full_read ≡ false → member p full ≡ false
full_narrow p h = ground arith

-- SELECT and INSERT only: the sub-wallets stay as they are.
record_incoming_invoice-apps :
    (app : ℕ) (hash invoice : String) (amount : ℤ) (description description_hash : String)
    (created expires : ℤ) (db : Db)
    → (record_incoming_invoice app hash invoice amount description description_hash created expires
        db).1.apps
      ≡ db.apps
unfolding record_incoming_invoice insert_tx
record_incoming_invoice-apps app hash invoice amount description description_hash created expires
      db =
    elim (Option-cases (find_app app db)) [
      | inl unknown ↦ rw unknown refl
      | inr (r, known) ↦
          rw
            (record_incoming_invoice_new app hash invoice amount description description_hash
              created expires r db known)
            refl
    ]

-- The state and the result behind a request that leaves the sub-wallets alone.
module _ (s : Server) where
  abbrev pub IsHarmless : Result Response × Server → Type 0
  IsHarmless x = (x.1.world.db.apps ≡ s.world.db.apps) × IsDiscreet x.0

  lift-IsHarmless :
      {A : Type 0} (r : Result A) (f : A → Action Server Response)
      → ((a : A) → IsHarmless (f a s))
      → IsHarmless ((lift r >>= f) s)
  lift-IsHarmless (ok a) f h = h a
  lift-IsHarmless (raised e) f h = (refl, tt)

  unlock-IsHarmless :
      (py : Python) (password : String) (fresh : Fresh) (d : Dict)
      → IsHarmless (unlock py password fresh d s)
  unfolding unlock issue_token shows_money
  unlock-IsHarmless py password fresh d = ground arith

  get_apps-IsHarmless :
      (lnd : Lnd) (fresh : Fresh) (auth : Option String) (r : Request)
      → Fails (verify_token auth full_read s.tokens)
      → IsHarmless (get_apps lnd fresh auth r s)
  unfolding get_apps shows_money
  get_apps-IsHarmless lnd fresh auth r fails = allowed (verify_token auth anyone s.tokens) refl
    where
      allowed :
          (x : Result String)
          → verify_token auth anyone s.tokens ≡ x
          → IsHarmless (get_apps lnd fresh auth r s)
      allowed (raised e) h = rw (h, ◌>>=◌) (refl, tt)
      allowed (ok perm) h =
          let limit = query_int (r.query "limit") (pos 100) in
          let offset = query_int (r.query "offset") (pos 0) in
          let last = λ (n : ℤ) (k : ℤ).
            on_world (reconcile_unless (perm =ₛ "invoice") lnd fresh.now) >>= λ _.
            show_apps (perm =ₛ "invoice") n k in
          rw (h, ◌>>=◌)
            (lift-IsHarmless limit (λ n. lift offset >>= last n)
              λ n.
                lift-IsHarmless offset (last n)
                  λ k. rw (verify_token-invoice auth perm s.tokens fails h) (refl, refl))

  verified-IsHarmless :
      (auth : Option String) (required : List String) (f : String → Action Server Response)
      → ((perm : String) → IsHarmless (f perm s))
      → IsHarmless ((verify auth required >>= f) s)
  verified-IsHarmless auth required f h = lift-IsHarmless (verify_token auth required s.tokens) f h

  record_invoice-IsHarmless :
      (to amount : ℤ) (description : String) (inv : LndInvoice)
      → IsHarmless (record_invoice to amount description inv s)
  unfolding shows_money
  record_invoice-IsHarmless to amount description inv =
      answered
        (record_incoming_invoice (row_id to s.world.db) inv.payment_hash inv.invoice amount
          description "" inv.created_at inv.expires_at s.world.db)
        (record_incoming_invoice-apps (row_id to s.world.db) inv.payment_hash inv.invoice amount
          description "" inv.created_at inv.expires_at s.world.db)
    where
      answered :
          (x : Result TxDict × Db)
          → x.1.apps ≡ s.world.db.apps
          → IsHarmless (
              (on_world (on_store (λ db. x)) >>= λ _.
              reply_with 200 (Reply.invoice inv.invoice inv.payment_hash to))
                s)
      answered (ok tx, db) h = (h, refl)
      answered (raised e, db) h = (h, tt)

  invoice_for-IsHarmless :
      (lnd : Lnd) (to amount : ℤ) (description : String) (found : Option AppDict)
      → IsHarmless (invoice_for lnd to amount description found s)
  unfolding shows_money
  invoice_for-IsHarmless lnd to amount description none = (refl, refl)
  invoice_for-IsHarmless lnd to amount description (some a) =
      lift-IsHarmless (answer_of (lnd.create_invoice amount description (pos 3600) none))
        (record_invoice to amount description) (record_invoice-IsHarmless to amount description)

  mint-IsHarmless :
      (lnd : Lnd) (to amount : ℤ) (description : String)
      → IsHarmless (mint lnd to amount description s)
  unfolding shows_money
  mint-IsHarmless lnd to amount description =
      elim (Bool-cases (leb_ℤ amount (pos 0) || leb_ℤ to (pos 0))) [
        | inl bad ↦ rw bad (refl, refl)
        | inr good ↦ rw good (
            invoice_for-IsHarmless lnd to amount description
              (get_app (row_id to s.world.db) s.world.db))
      ]

  post_invoice-IsHarmless :
      (py : Python) (lnd : Lnd) (auth : Option String) (d : Dict)
      → IsHarmless (post_invoice py lnd auth d s)
  unfolding post_invoice
  post_invoice-IsHarmless py lnd auth d =
      let text = text_at py "description" "" d in
      verified-IsHarmless auth full_invoice
        (λ _. lift (int_at "amountMsat" d) >>= λ amount.
          lift (int_at "toAppId" d) >>= λ to. mint lnd to amount text)
        λ _.
          lift-IsHarmless (int_at "amountMsat" d)
            (λ amount. lift (int_at "toAppId" d) >>= λ to. mint lnd to amount text)
            λ amount.
              lift-IsHarmless (int_at "toAppId" d) (λ to. mint lnd to amount text)
                λ to. mint-IsHarmless lnd to amount text

module _ (py : Python) (lnd : Lnd) (password : String) (fresh : Fresh) (r : Request)
    (s : Server) where
  Fails-full :
      Fails (verify_token (auth_of r) full_read s.tokens)
      → Fails (verify_token (auth_of r) full s.tokens)
  Fails-full = verify_token-Fails (auth_of r) full s.tokens full_narrow

  serve-IsHarmless :
      (e : Endpoint)
      → Fails (verify_token (auth_of r) full_read s.tokens)
      → IsHarmless s (serve py lnd password fresh e r s)
  unfolding node_status post_app get_one delete_app post_transfer get_transactions shows_money
  serve-IsHarmless Endpoint.get_info fails = (refl, refl)
  serve-IsHarmless Endpoint.setup fails = (refl, refl)
  serve-IsHarmless Endpoint.unlocking fails = unlock-IsHarmless s py password fresh (payload_of r)
  serve-IsHarmless Endpoint.status fails =
      verified-IsHarmless s (auth_of r) anyone
        (λ _. reply_with 200 (Reply.node (ready lnd.get_info))) (λ perm. (refl, refl))
  serve-IsHarmless Endpoint.listing fails = get_apps-IsHarmless s lnd fresh (auth_of r) r fails
  serve-IsHarmless Endpoint.creation fails = rw ((Fails-full fails).1, ◌>>=◌) (refl, tt)
  serve-IsHarmless Endpoint.single fails = rw (fails.1, ◌>>=◌) (refl, tt)
  serve-IsHarmless Endpoint.deletion fails = rw ((Fails-full fails).1, ◌>>=◌) (refl, tt)
  serve-IsHarmless Endpoint.transfers fails = rw ((Fails-full fails).1, ◌>>=◌) (refl, tt)
  serve-IsHarmless Endpoint.invoices fails =
      post_invoice-IsHarmless s py lnd (auth_of r) (payload_of r)
  serve-IsHarmless Endpoint.history fails = rw (fails.1, ◌>>=◌) (refl, tt)
  serve-IsHarmless Endpoint.unknown fails = (refl, refl)

  caught-IsDiscreet : (x : Result Response) → IsDiscreet x → IsDiscreet (caught x)
  unfolding shows_money
  caught-IsDiscreet (ok x) h = h
  caught-IsDiscreet (raised (store_error code message http)) h = refl
  caught-IsDiscreet (raised (lnd_error code message)) h = refl
  caught-IsDiscreet (raised value_error) h = tt
  caught-IsDiscreet (raised type_error) h = tt
  caught-IsDiscreet (raised integrity_error) h = tt
  caught-IsDiscreet (raised (hub_error code message)) h = tt
  caught-IsDiscreet (raised (hub_http n)) h = tt

  -- Where the request's header does not pass for `full` or `read` (no token, an unknown one, or one
  -- for `invoice` only), whatever route and payload it has: no sub-wallet is created, deleted or
  -- changed, its balance included, and the answer, if there is one, shows no balance, no key of a
  -- sub-wallet and no transaction.
  pub handle_http-IsHarmless :
      Fails (verify_token (auth_of r) full_read s.tokens)
      → IsHarmless s (handle_http py lnd password fresh r s)
  unfolding handle_http
  handle_http-IsHarmless fails =
      let both = serve-IsHarmless (endpoint_of r) fails in
      (both.0, caught-IsDiscreet (serve py lnd password fresh (endpoint_of r) r s).0 both.1)
