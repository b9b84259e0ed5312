-- ===== src/Daemon/Pay/Requests.antt =====
-- The two payment requests keep the invariant of the store.
use Prim.Native.String as S
use sovran_bitcoin.Base.{
  ℕ, String, ◌≡◌, refl, inl, inr, false, Option, none, some, not, ◌||◌, ◌&&◌, ◌==◌, is_none, List,
  [], ◌∷◌, Bool-cases, if◌then◌else◌,
}
use sovran_bitcoin.Base.Int.{ℤ, pos, ◌==ℤ◌, leb_ℤ, lt_of_not-leb}
use sovran_bitcoin.Base.Monad.{Stays-bind, pure, ◌>>=◌}
use sovran_bitcoin.Base.Text.{nonempty, strip, canonical}
use sovran_bitcoin.Daemon.Lnd.{Answer, Decoded, Paid, Lnd, IsLnd}
use sovran_bitcoin.Daemon.Pay.Sound.{Keeps, SentWithin, reserve_and_pay-IsSound}
use sovran_bitcoin.Daemon.Pay.{
  fee_reserve_msat, invoice_amount, pay_decoded, or_lnd_error, pay_invoice_payload, Hashing, usable,
  tlv_or, tlv_preimage, search_preimage, or_fresh, keysend_to, keysend_purpose, keysend_error,
  send_keysend, pay_keysend_payload,
}
use sovran_bitcoin.Daemon.Stays.{int-Stays, or_lnd_error-Stays, either-Stays}
use sovran_bitcoin.Daemon.Request.{Tlv, Params, int}
use sovran_bitcoin.Daemon.World.{OfStore}
use sovran_bitcoin.Store.Ledger.{IsSound}
use sovran_bitcoin.Store.Rows.{nonzero}

within_limit :
    (limit : ℤ) (sent : Answer Paid)
    → ((paid : Paid) → sent ≡ Answer.answered paid → SentWithin limit (Answer.answered paid))
    → SentWithin limit sent
within_limit limit (Answer.answered paid) h = h paid refl
within_limit limit (Answer.failed code message) h = tt

int-Keeps : (x : Option ℤ) → Keeps (int x)
int-Keeps = int-Stays IsSound

or_lnd_error-Keeps : {A : Type 0} (x : Answer A) → Keeps (or_lnd_error x)
or_lnd_error-Keeps = or_lnd_error-Stays IsSound

module _ (lnd : Lnd) (good : IsLnd lnd) (now later : ℤ) (app : ℕ) where
  pay_decoded-Keeps :
      (bolt11 : String) (override : ℤ) (d : Decoded)
      → Keeps (pay_decoded lnd app bolt11 override now later d)
  pay_decoded-Keeps bolt11 override d w s =
      elim (Bool-cases (leb_ℤ (invoice_amount d.amount_msat override) (pos 0))) [
        | inl bad ↦ rw bad s
        | inr positive ↦ rw positive (
            reserve_and_pay-IsSound lnd "pay_invoice" app (invoice_amount d.amount_msat override)
              (record {
                payment_hash = d.payment_hash;
                invoice = bolt11;
                description = d.description;
                description_hash = d.description_hash;
              })
              (lnd.pay_invoice bolt11 (fee_reserve_msat (invoice_amount d.amount_msat override))
                amount)
              now later w s (lt_of_not-leb (invoice_amount d.amount_msat override) (pos 0) positive)
              (within_limit (fee_reserve_msat (invoice_amount d.amount_msat override))
                (lnd.pay_invoice bolt11 (fee_reserve_msat (invoice_amount d.amount_msat override))
                  amount)
                (λ paid e.
                  good.invoice_fees bolt11
                    (fee_reserve_msat (invoice_amount d.amount_msat override)) amount paid e)))
      ]
    where
      amount : Option ℤ
      amount = if d.amount_msat ==ℤ pos 0 then nonzero (some override) else none

  -- A `pay_invoice` request keeps the store's invariant, however it ends: refused, paid inside the
  -- node, sent, or failed; if LND takes no more in fees than its limit.
  pub pay_invoice_payload-IsSound :
      (params : Params) → Keeps (pay_invoice_payload lnd now later app params)
  unfolding pay_invoice_payload
  pay_invoice_payload-IsSound params w s = elim (Bool-cases (nonempty (strip params.invoice))) [
    | inr missing ↦ rw missing s
    | inl given ↦ rw given (
        Stays-bind (OfStore IsSound) (or_lnd_error (lnd.decode_payreq (strip params.invoice)))
          (λ d. int params.amount >>= λ override.
            pay_decoded lnd app (strip params.invoice) override now later d)
          (or_lnd_error-Keeps (lnd.decode_payreq (strip params.invoice)))
          (λ d.
            Stays-bind (OfStore IsSound) (int params.amount)
              (λ override. pay_decoded lnd app (strip params.invoice) override now later d)
              (int-Keeps params.amount)
              (λ override. pay_decoded-Keeps (strip params.invoice) override d))
          w s)
  ]

  module _ (h : Hashing) where
    tlv_preimage-Keeps : (ts : List Tlv) → Keeps (tlv_preimage h ts)
    tlv_preimage-Keeps [] w s = s
    tlv_preimage-Keeps (t ∷ ts) w s =
        Stays-bind (OfStore IsSound) (int t.type) (tlv_or h t.value (tlv_preimage h ts))
          (int-Keeps t.type)
          (λ type.
            either-Stays IsSound (type ==ℤ pos 5482373484) (pure (usable h (canonical t.value)))
              (tlv_preimage h ts) (λ v q. q) (tlv_preimage-Keeps ts))
          w s

    send-Keeps :
        (pubkey : String) (amount : ℤ) (preimage : String)
        → leb_ℤ amount (pos 0) ≡ false
        → Keeps (send_keysend lnd h now later app pubkey amount preimage)
    send-Keeps pubkey amount preimage positive w s = elim (Bool-cases (S.count preimage == 64)) [
      | inr short ↦ rw short s
      | inl whole ↦ elim (Bool-cases (is_none (h.fromhex preimage))) [
        | inl bad ↦ rw (whole, bad) s
        | inr hex ↦
            rw (whole, hex)
              (reserve_and_pay-IsSound lnd "pay_keysend" app amount
                (keysend_purpose h pubkey preimage)
                (lnd.pay_keysend pubkey amount (fee_reserve_msat amount) preimage) now later w s
                (lt_of_not-leb amount (pos 0) positive)
                (within_limit (fee_reserve_msat amount)
                  (lnd.pay_keysend pubkey amount (fee_reserve_msat amount) preimage)
                  (λ paid e.
                    good.keysend_fees pubkey amount (fee_reserve_msat amount) preimage paid e)))
      ]
    ]

    keysend_to-Keeps :
        (pubkey given : String) (tlvs : List Tlv) (amount : ℤ)
        → Keeps (keysend_to lnd h now later app pubkey given tlvs amount)
    keysend_to-Keeps pubkey given tlvs amount w s =
        elim (Bool-cases (not (S.count pubkey == 66) || is_none (h.fromhex pubkey))) [
          | inl bad ↦ rw bad s
          | inr fine ↦ elim (Bool-cases (leb_ℤ amount (pos 0))) [
            | inl negative ↦ rw (fine, negative) s
            | inr positive ↦
                rw (fine, positive)
                  (either-Stays IsSound (nonempty given && is_none (h.fromhex given))
                    (keysend_error "Invalid preimage")
                    (search_preimage h given tlvs
                      >>= or_fresh h
                      >>= send_keysend lnd h now later app pubkey amount)
                    (λ v q. q)
                    (Stays-bind (OfStore IsSound) (search_preimage h given tlvs >>= or_fresh h)
                      (send_keysend lnd h now later app pubkey amount)
                      (Stays-bind (OfStore IsSound) (search_preimage h given tlvs) (or_fresh h)
                        (either-Stays IsSound (nonempty given) (pure given) (tlv_preimage h tlvs)
                          (λ v q. q) (tlv_preimage-Keeps tlvs))
                        (λ found v q. q))
                      (λ preimage. send-Keeps pubkey amount preimage positive))
                    w s)
          ]
        ]

    -- A `pay_keysend` request keeps the store's invariant, however it ends, if LND takes no more in
    -- fees than its limit.
    pub pay_keysend_payload-IsSound :
        (params : Params) → Keeps (pay_keysend_payload lnd h now later app params)
    unfolding pay_keysend_payload
    pay_keysend_payload-IsSound params =
        Stays-bind (OfStore IsSound) (int params.amount)
          (keysend_to lnd h now later app (canonical params.pubkey) (canonical params.preimage)
            params.tlv_records)
          (int-Keeps params.amount)
          (keysend_to-Keeps (canonical params.pubkey) (canonical params.preimage)
            params.tlv_records)
