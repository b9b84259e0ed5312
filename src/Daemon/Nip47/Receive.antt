-- ===== src/Daemon/Nip47/Receive.antt =====
-- The methods that do not pay keep what receiving keeps.
use sovran_bitcoin.Base.{
  String, ◌≡◌, true, inl, inr, Option, none, some, ◌&&◌, not, Bool-cases, arith, if◌then◌else◌,
}
use sovran_bitcoin.Base.Int.{ℤ, pos, leb_ℤ, ◌≤ℤ◌, ◌<ℤ◌, lt_of_not-leb}
use sovran_bitcoin.Base.Monad.{Action, Stays, Stays-bind, pure, ◌>>=◌, ◌>>◌}
use sovran_bitcoin.Base.Text.{◌=ₛ◌, nonempty, strip, canonical}
use sovran_bitcoin.Daemon.Lnd.{LndInvoice, Lnd, IsLnd}
use sovran_bitcoin.Daemon.Nip47.{
  get_info, get_balance, info_of, known_preimage, file_preimage, file_invoice, issue, make_positive,
  make_invoice, hash_of, answer_lookup, look_up, balance_now, not_implemented, list_between,
  list_until, list_from, list_limited, lookup_invoice, list_page, dispatch,
}
use sovran_bitcoin.Daemon.Stays.{
  int-Stays, bound-Stays, or_lnd_error-Stays, either-Stays, when-Stays, record_preimage-Stays,
}
use sovran_bitcoin.Daemon.Pay.{
  Hashing, or_lnd_error, record_preimage, pay_invoice_payload, pay_keysend_payload,
}
use sovran_bitcoin.Daemon.Reconcile.{reconcile_pending_invoices, reconcile_pending_invoices-Stays}
use sovran_bitcoin.Daemon.Request.{Params, Payload, int, bound, to_nip47_tx}
use sovran_bitcoin.Daemon.World.{World, OfStore, on_store, on_store-Stays}
use sovran_bitcoin.Store.Incoming.{record_incoming_invoice}
use sovran_bitcoin.Store.Receiving.{Receives}
use sovran_bitcoin.Store.Rows.{AppDict, Db, TxDict}

module _ (P : Db → Type 0) (receives : Receives P) (lnd : Lnd) (good : IsLnd lnd) (app : AppDict)
    (params : Params) where
  file_preimage-Stays :
      (hash : String) (tx : TxDict) → Stays (OfStore P) (file_preimage lnd hash tx)
  file_preimage-Stays hash tx =
      Stays-bind (OfStore P) (record_preimage hash (known_preimage (lnd.lookup_invoice hash)))
        (λ _. pure (Payload.transaction "make_invoice" (to_nip47_tx tx)))
        (record_preimage-Stays P receives hash (known_preimage (lnd.lookup_invoice hash)))
        (λ _ v q. q)

  file_invoice-Stays :
      (amount : ℤ) (inv : LndInvoice)
      → pos 0 ≤ℤ amount
      → Stays (OfStore P) (file_invoice lnd app params amount inv)
  file_invoice-Stays amount inv sign =
      Stays-bind (OfStore P)
        (on_store (
          record_incoming_invoice app.id inv.payment_hash inv.invoice amount params.description
            params.description_hash inv.created_at inv.expires_at))
        (file_preimage lnd inv.payment_hash)
        (on_store-Stays P
          (record_incoming_invoice app.id inv.payment_hash inv.invoice amount params.description
            params.description_hash inv.created_at inv.expires_at)
          (λ db.
            receives.records app.id inv.payment_hash inv.invoice amount params.description
              params.description_hash inv.created_at inv.expires_at db sign))
        (file_preimage-Stays inv.payment_hash)

  make_positive-Stays : (amount : ℤ) → Stays (OfStore P) (make_positive lnd app params amount)
  make_positive-Stays amount w s = elim (Bool-cases (leb_ℤ amount (pos 0))) [
    | inl bad ↦ rw bad s
    | inr positive ↦ rw positive (
        Stays-bind (OfStore P) (int params.expiry) (issue lnd app params amount)
          (int-Stays P params.expiry)
          (λ expiry.
            Stays-bind (OfStore P)
              (or_lnd_error (lnd.create_invoice amount params.description expiry (asked)))
              (file_invoice lnd app params amount)
              (or_lnd_error-Stays P (lnd.create_invoice amount params.description expiry asked))
              (λ inv.
                file_invoice-Stays amount inv
                  (below amount (lt_of_not-leb amount (pos 0) positive))))
          w s)
  ]
    where
      asked : Option String
      asked = if nonempty params.description_hash then some params.description_hash else none

      below : (z : ℤ) → pos 0 <ℤ z → pos 0 ≤ℤ z
      below z h = omega arith

  pub make_invoice-Stays : Stays (OfStore P) (make_invoice lnd app params)
  make_invoice-Stays =
      Stays-bind (OfStore P) (int params.amount) (make_positive lnd app params)
        (int-Stays P params.amount) make_positive-Stays

  pub get_info-Stays : Stays (OfStore P) (get_info lnd app)
  get_info-Stays =
      Stays-bind (OfStore P) (or_lnd_error lnd.get_info) (λ i. pure (Payload.info (info_of app i)))
        (or_lnd_error-Stays P lnd.get_info) (λ i v q. q)

  module _ (now : ℤ) where
    pub reconcile-Stays :
        (next : Action World Payload)
        → Stays (OfStore P) next
        → Stays (OfStore P) (reconcile_pending_invoices lnd now (some app.id) >> next)
    reconcile-Stays next h =
        Stays-bind (OfStore P) (reconcile_pending_invoices lnd now (some app.id)) (λ _. next)
          (reconcile_pending_invoices-Stays P receives lnd now good (some app.id)) (λ _. h)

    hash_of-Stays : (hash bolt11 : String) → Stays (OfStore P) (hash_of lnd hash bolt11)
    hash_of-Stays hash bolt11 =
        either-Stays P (not (nonempty hash) && nonempty bolt11)
          (or_lnd_error (lnd.decode_payreq bolt11) >>= λ d. pure d.payment_hash) (pure hash)
          (Stays-bind (OfStore P) (or_lnd_error (lnd.decode_payreq bolt11))
            (λ d. pure d.payment_hash) (or_lnd_error-Stays P (lnd.decode_payreq bolt11))
            (λ d v q. q))
          (λ v q. q)

    pub lookup_invoice-Stays : Stays (OfStore P) (lookup_invoice lnd now app params)
    lookup_invoice-Stays =
        Stays-bind (OfStore P) (hash_of lnd (canonical params.payment_hash) (strip params.invoice))
          (look_up lnd now app (strip params.invoice))
          (hash_of-Stays (canonical params.payment_hash) (strip params.invoice))
          (λ hash. reconcile-Stays (answer_lookup app (strip params.invoice) hash) (λ v q. q))

    list_from-Stays : (limit offset : ℤ) → Stays (OfStore P) (list_from app params limit offset)
    list_from-Stays limit offset =
        Stays-bind (OfStore P) (bound params.from_ts) (list_until app params limit offset)
          (bound-Stays P params.from_ts)
          (λ earliest.
            Stays-bind (OfStore P) (bound params.until_ts)
              (list_between app params limit offset earliest) (bound-Stays P params.until_ts)
              (λ latest v q. q))

    pub list_page-Stays : Stays (OfStore P) (list_page app params)
    list_page-Stays =
        Stays-bind (OfStore P) (int params.limit) (list_limited app params)
          (int-Stays P params.limit)
          (λ limit.
            Stays-bind (OfStore P) (int params.offset) (list_from app params limit)
              (int-Stays P params.offset) (λ offset. list_from-Stays limit offset))

    pub get_balance-Stays : Stays (OfStore P) (get_balance lnd now app)
    get_balance-Stays = reconcile-Stays (balance_now app) (λ v q. q)

    module _ (h : Hashing) (later : ℤ) (method : String) where
      abbrev unknown_method : Action World Payload
      unknown_method = pure (not_implemented method)

      -- Every method keeps it, if those that pay do.
      pub dispatch-Stays :
          ((method =ₛ "pay_invoice") ≡ true
            → Stays (OfStore P) (pay_invoice_payload lnd now later app.id params))
          → ((method =ₛ "pay_keysend") ≡ true
              → Stays (OfStore P) (pay_keysend_payload lnd h now later app.id params))
          → Stays (OfStore P) (dispatch lnd h now later app method params)
      dispatch-Stays pays sends = either-Stays P (method =ₛ "get_info") _ _ get_info-Stays (
          either-Stays P (method =ₛ "get_balance") _ _ get_balance-Stays (
            either-Stays P (method =ₛ "make_invoice") _ _ make_invoice-Stays (
              either-Stays P (method =ₛ "lookup_invoice") _ _ lookup_invoice-Stays (
                either-Stays P (method =ₛ "list_transactions") _ _
                  (reconcile-Stays (list_page app params) list_page-Stays)
                  (when-Stays P (method =ₛ "pay_invoice") _ _ pays
                    (when-Stays P (method =ₛ "pay_keysend") _ _ sends (λ v q. q)))))))
