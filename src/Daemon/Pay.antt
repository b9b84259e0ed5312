-- ===== src/Daemon/Pay.antt =====
-- Payments: `_pay_invoice_payload`, `_pay_keysend_payload`, `_finish_internal_payment`. `now` is the
-- clock when the payment is reserved, `later` when it is closed. `bytes.fromhex`, sha256 and the
-- random preimage are the parameter `Hashing`.
pub mod Sound
pub mod Requests
use Prim.Native.String as S
use sovran_bitcoin.Base.{
  ℕ, ◌+◌, ◌*◌, String, Bool, true, false, Option, none, some, List, [], ◌∷◌, ◌&&◌, ◌||◌, not, ◌==◌,
  is_some, is_none, if◌then◌else◌,
}
use sovran_bitcoin.Base.Int.{ℤ, pos, ◌+ℤ◌, ◌==ℤ◌, leb_ℤ, max_ℤ, floor_div}
use sovran_bitcoin.Base.Monad
use sovran_bitcoin.Base.Monad.{Exc, Action, pure, gets, or_raise, ◌>>=◌, ◌>>◌}
use sovran_bitcoin.Base.Text.{nonempty, strip, lower, canonical}
use sovran_bitcoin.Daemon.Lnd.{Answer, LndInvoice, Decoded, Paid, Lnd}
use sovran_bitcoin.Daemon.Request.{Tlv, Params, Payload, int}
use sovran_bitcoin.Daemon.World.{World, on_store, emit_notification}
use sovran_bitcoin.Store.Incoming.{find_tx_for_app, set_preimage_for_hash}
use sovran_bitcoin.Store.Outgoing.{Purpose, reserve_outgoing_payment, finalize_outgoing_payment}
use sovran_bitcoin.Store.Rows.{TxDict, nonzero}

-- `max(10_000, (amount_msat + 99) // 100)`
unfoldable pub fee_reserve_msat : ℤ → ℤ
fee_reserve_msat amount = max_ℤ (pos 10000) (floor_div (amount +ℤ pos 99) 100)

abbrev pub preimage_of : Option TxDict → String
preimage_of none = ""
preimage_of (some tx) = tx.preimage

-- `try: str(lookup_invoice(…).get("preimage") or "").lower()`, `except LndError: ""`
abbrev pub lnd_preimage : Answer LndInvoice → String
lnd_preimage (Answer.answered inv) = lower inv.preimage
lnd_preimage (Answer.failed code message) = ""

abbrev pub record_preimage : String → String → Action World ℕ
record_preimage hash preimage =
    if nonempty preimage then on_store (set_preimage_for_hash hash preimage) else pure 0

abbrev pub resolve : Lnd → String → String → Action World String
resolve lnd hash preimage = if nonempty preimage then pure preimage else (do
  let found = lnd_preimage (lnd.lookup_invoice hash)
  record_preimage hash found
  pure found)

-- `if tx: …`
abbrev pub tell : Option TxDict → ℕ → String → String → Action World (Unit {0})
tell none app kind preimage = pure tt
tell (some tx) app kind preimage =
    emit_notification app kind (if nonempty preimage then record tx { preimage = preimage } else tx)

abbrev pub tell_payee : String → ℕ → String → String → Action World Payload
tell_payee result_type payee hash preimage = do
  inc_tx ← gets (λ w. find_tx_for_app payee hash "" w.db)
  tell inc_tx payee "payment_received" preimage
  pure (Payload.paid result_type preimage (pos 0))

abbrev pub tell_both : String → ℕ → ℕ → String → Option TxDict → String → Action World Payload
tell_both result_type app payee hash tx preimage = do
  tell tx app "payment_sent" preimage
  tell_payee result_type payee hash preimage

-- The result type is the caller's: `_pay_keysend_payload` overwrites it.
unfoldable pub finish_internal_payment : Lnd → String → ℕ → ℕ → String → Action World Payload
finish_internal_payment lnd result_type app payee hash = do
  tx ← gets (λ w. find_tx_for_app app hash "" w.db)
  preimage ← resolve lnd hash (preimage_of tx)
  tell_both result_type app payee hash tx preimage

abbrev pub report_sent : String → ℕ → Paid → TxDict → Action World Payload
report_sent result_type app r settled_tx = do
  emit_notification app "payment_sent" settled_tx
  pure (Payload.paid result_type r.preimage r.fees_paid_msat)

-- What stands behind LND's answer.
unfoldable pub conclude : String → ℕ → ℕ → ℤ → Answer Paid → Action World Payload
conclude result_type app tx_id later (Answer.failed code message) = do
  on_store (finalize_outgoing_payment tx_id false "" (pos 0) later)
  pure (Payload.error result_type "PAYMENT_FAILED" message)
conclude result_type app tx_id later (Answer.answered r) = do
  settled_tx ← on_store (finalize_outgoing_payment tx_id true r.preimage r.fees_paid_msat later)
  report_sent result_type app r settled_tx

-- `if internal_payee_id is not None: …`, and the rest behind it.
abbrev pub settle_or_send :
    Lnd → String → ℕ → String → ℤ → Answer Paid → ℕ × Option ℕ → Action World Payload
settle_or_send lnd result_type app hash later sent (tx_id, some payee) =
    finish_internal_payment lnd result_type app payee hash
settle_or_send lnd result_type app hash later sent (tx_id, none) =
    conclude result_type app tx_id later sent

-- Reserve, then settle inside the node or send. LND is asked to send only where the payment goes out.
unfoldable pub reserve_and_pay :
    Lnd → String → ℕ → ℤ → Purpose → Answer Paid → ℤ → ℤ → Action World Payload
reserve_and_pay lnd result_type app amount p sent now later = do
  reserved ← on_store (reserve_outgoing_payment app amount (fee_reserve_msat amount) p now)
  settle_or_send lnd result_type app p.payment_hash later sent reserved

-- `int(decoded["amount_msat"] or override_amt or 0)`
abbrev pub invoice_amount : ℤ → ℤ → ℤ
invoice_amount decoded override = if decoded ==ℤ pos 0 then override else decoded

abbrev pub pay_decoded : Lnd → ℕ → String → ℤ → ℤ → ℤ → Decoded → Action World Payload
pay_decoded lnd app bolt11 override now later decoded =
    let amount = invoice_amount decoded.amount_msat override in
    if leb_ℤ amount (pos 0)
    then pure
        (Payload.error "pay_invoice" "OTHER" "Zero-amount invoice requires an explicit amount")
    else reserve_and_pay lnd "pay_invoice" app amount
        (record {
          payment_hash = decoded.payment_hash;
          invoice = bolt11;
          description = decoded.description;
          description_hash = decoded.description_hash;
        })
        (lnd.pay_invoice bolt11 (fee_reserve_msat amount)
          (if decoded.amount_msat ==ℤ pos 0 then nonzero (some override) else none))
        now later

abbrev pub or_lnd_error : {A : Type 0} → Answer A → Action World A
or_lnd_error (Answer.answered a) w = (Monad.ok a, w)
or_lnd_error (Answer.failed code message) w = (Monad.raised (Exc.lnd_error code message), w)

unfoldable pub pay_invoice_payload : Lnd → ℤ → ℤ → ℕ → Params → Action World Payload
pay_invoice_payload lnd now later app params =
    let bolt11 = strip params.invoice in
    if not (nonempty bolt11)
    then pure (Payload.error "pay_invoice" "OTHER" "Missing invoice")
    else (do
      decoded ← or_lnd_error (lnd.decode_payreq bolt11)
      override ← int params.amount
      pay_decoded lnd app bolt11 override now later decoded)

-- `bytes.fromhex` gives the number of bytes, if it accepts the text; `sha256` is that of the bytes, in
-- hexadecimal; `fresh` is `secrets.token_bytes(32).hex()`.
pub record Hashing : Type 0 where
  pub fromhex : String → Option ℕ
  pub sha256 : String → String
  pub fresh : String

-- The first record of the keysend type, if its value is a preimage.
abbrev pub usable : Hashing → String → String
usable h candidate = elim (h.fromhex candidate) [
  | none ↦ ""
  | some n ↦ if n == 32 then candidate else ""
]

abbrev pub tlv_or : Hashing → String → Action World String → ℤ → Action World String
tlv_or h value rest type =
    if type ==ℤ pos 5482373484 then pure (usable h (canonical value)) else rest

abbrev pub tlv_preimage : Hashing → List Tlv → Action World String
tlv_preimage h [] = pure ""
tlv_preimage h (t ∷ ts) = int t.type >>= tlv_or h t.value (tlv_preimage h ts)

abbrev pub search_preimage : Hashing → String → List Tlv → Action World String
search_preimage h given tlvs = if nonempty given then pure given else tlv_preimage h tlvs

abbrev pub or_fresh : Hashing → String → Action World String
or_fresh h found = pure (if nonempty found then found else h.fresh)

abbrev pub keysend_purpose : Hashing → String → String → Purpose
keysend_purpose h pubkey preimage = record {
  payment_hash = h.sha256 preimage;
  invoice = "";
  description = S.◌++◌ "Keysend to " (S.◌++◌ (S.slice pubkey 0 16) "…");
  description_hash = "";
}

abbrev pub keysend_error : String → Action World Payload
keysend_error message = pure (Payload.error "pay_keysend" "OTHER" message)

abbrev pub send_keysend : Lnd → Hashing → ℤ → ℤ → ℕ → String → ℤ → String → Action World Payload
send_keysend lnd h now later app pubkey amount preimage =
    if not (S.count preimage == 64)
    then keysend_error "Invalid preimage"
    else if is_none (h.fromhex preimage)
    then (λ w. (Monad.raised Exc.value_error, w))
    else reserve_and_pay lnd "pay_keysend" app amount (keysend_purpose h pubkey preimage)
        (lnd.pay_keysend pubkey amount (fee_reserve_msat amount) preimage) now later

abbrev pub keysend_to :
    Lnd → Hashing → ℤ → ℤ → ℕ → String → String → List Tlv → ℤ → Action World Payload
keysend_to lnd h now later app pubkey given tlvs amount =
    if not (S.count pubkey == 66) || is_none (h.fromhex pubkey)
    then keysend_error "Missing or invalid pubkey"
    else if leb_ℤ amount (pos 0)
    then keysend_error "Amount must be positive"
    else if nonempty given && is_none (h.fromhex given)
    then keysend_error "Invalid preimage"
    else search_preimage h given tlvs
      >>= or_fresh h
      >>= send_keysend lnd h now later app pubkey amount

unfoldable pub pay_keysend_payload : Lnd → Hashing → ℤ → ℤ → ℕ → Params → Action World Payload
pay_keysend_payload lnd h now later app params =
    int params.amount
    >>= keysend_to lnd h now later app (canonical params.pubkey) (canonical params.preimage)
        params.tlv_records
