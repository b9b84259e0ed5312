-- ===== src/Rest/Settled.antt =====
-- What it takes for `send_payment_v2` to report a payment as made.
use mathlib.Core.Path.{subst}
use text.Mathlib.TextEquality.{eq_iff}
use sovran_bitcoin.Base.{
  String, ◌≡◌, refl, sym, ap, ◌∙◌, inl, inr, Option, none, some, List, ◌∷◌, Bool-cases,
}
use sovran_bitcoin.Base.Int.{ℤ, pos, ◌*ℤ◌, ◌==ℤ◌}
use sovran_bitcoin.Base.Inverse.{bind_inverse, or_raise_inverse, raise_if_inverse, pure_inverse}
use sovran_bitcoin.Base.Json.{Json, Dict, get}
use sovran_bitcoin.Base.Monad.{Exc, Result, ok, raised, ◌>>=◌, ◌>>◌, pure, raise_if, modify}
use sovran_bitcoin.Base.Reading.{int_at, given}
use sovran_bitcoin.Base.Text.{◌=ₛ◌}
use sovran_bitcoin.Rest.Payment.{
  Payment, payment_error, last, unwrapped, lift, status_of, sat_fees, fees_of, paid_as, outcome,
  concluded, read_updates, payment_call, read_stream, send_payment_v2,
}
use sovran_bitcoin.Rest.Request.{Rest, Call, Wire, Client, needs_cert, received, request_text}
use sovran_bitcoin.Rest.Stream.{parse_json_stream}

module _ (lnd : Rest) where
  received-body :
      (c : Call) (w : Wire) (calls after : List Call) (raw : String)
      → received lnd c w calls ≡ (ok raw, after)
      → (w ≡ Wire.body raw) × (calls ≡ after)
  received-body c (Wire.body s) calls after raw h =
      let (same, kept) = pure_inverse s raw calls after h in (rw same refl, kept)
  received-body c (Wire.http_error status message) calls after raw h = absurd (cc)
  received-body c (Wire.unreachable name) calls after raw h = absurd (cc)

  abbrev sent : Call → Client String
  sent c = modify (λ calls. c ∷ calls) >> received lnd c (lnd.wire c)

  abbrev certified : Call → Client String
  certified c =
      raise_if (needs_cert lnd) (Exc.lnd_error "cert_unavailable" "Cannot read LND TLS certificate")
      >> sent c

  -- A text that comes back is the body of one request.
  request_text-body :
      (c : Call) (calls after : List Call) (raw : String)
      → request_text lnd c calls ≡ (ok raw, after)
      → (lnd.wire c ≡ Wire.body raw) × (c ∷ calls ≡ after)
  request_text-body c calls after raw h =
      let (mac, _, found) =
        or_raise_inverse lnd.macaroon
          (Exc.lnd_error "macaroon_unavailable" "Cannot read LND macaroon") (λ _. certified c) calls
          raw after h in
      let (_, go) =
        raise_if_inverse (needs_cert lnd)
          (Exc.lnd_error "cert_unavailable" "Cannot read LND TLS certificate") (sent c) calls raw
          after found in
      received-body c (lnd.wire c) (c ∷ calls) after raw go

  sat_fees-keeps :
      (d : Dict) (z : ℤ) (o : Option Json) (calls : List Call)
      → (sat_fees lnd d z o calls).1 ≡ calls
  sat_fees-keeps d z none calls = refl
  sat_fees-keeps d z (some sat) calls = elim (Bool-cases (z ==ℤ pos 0)) [
    | inl empty ↦ rw empty (read (int_at "fee_sat" d))
    | inr full ↦ rw full refl
  ]
    where
      read : (r : Result ℤ) → ((lift r >>= λ fees. pure (fees *ℤ 1000)) calls).1 ≡ calls
      read (ok fees) = refl
      read (raised e) = refl

  fees_of-keeps : (d : Dict) (calls : List Call) → (fees_of lnd d calls).1 ≡ calls
  fees_of-keeps d calls = read (int_at "fee_msat" d)
    where
      read :
          (r : Result ℤ)
          → ((lift r >>= λ z. sat_fees lnd d z (given (get "fee_sat" d))) calls).1 ≡ calls
      read (ok z) = sat_fees-keeps d z (given (get "fee_sat" d)) calls
      read (raised e) = refl

  outcome-succeeded :
      (d : Dict) (fees : ℤ) (calls after : List Call) (p : Payment)
      → outcome lnd d fees calls ≡ (ok p, after)
      → (status_of lnd d ≡ "SUCCEEDED") × (paid_as lnd d fees ≡ p) × (calls ≡ after)
  outcome-succeeded d fees calls after p h = elim (Bool-cases (status_of lnd d =ₛ "SUCCEEDED")) [
    | inl done ↦
        let (same, kept) = pure_inverse (paid_as lnd d fees) p calls after (rw done at h) in
        ((eq_iff (status_of lnd d) "SUCCEEDED").0 done, same, kept)
    | inr other ↦ elim (Bool-cases (status_of lnd d =ₛ "FAILED")) [
      | inl lost ↦ absurd (not_ok _ calls after p (rw (other, lost) at h))
      | inr flying ↦ absurd (not_ok _ calls after p (rw (other, flying) at h))
    ]
  ]
    where
      not_ok :
          (e : Exc) (calls after : List Call) (p : Payment)
          → ◌≡◌ {A = Result Payment × List Call} (raised e, calls) (ok p, after)
          → ⊥
      not_ok e calls after p h = cc

  -- The last update says that the payment succeeded, and the payment, its fees too, is read from it.
  abbrev pub IsSettled : List Call → List Dict → Payment → Type 0
  IsSettled calls updates p =
      (d : Dict) × (fees : ℤ) × (last updates ≡ some d)
      × (status_of lnd (unwrapped d) ≡ "SUCCEEDED")
      × ((fees_of lnd (unwrapped d) calls).0 ≡ ok fees)
      × (paid_as lnd (unwrapped d) fees ≡ p)

  read_updates-IsSettled :
      (updates : List Dict) (calls after : List Call) (p : Payment)
      → read_updates lnd updates calls ≡ (ok p, after)
      → IsSettled calls updates p × (calls ≡ after)
  read_updates-IsSettled updates calls after p h =
      let (d, at_end, go) =
        or_raise_inverse (last updates) (payment_error "LND returned no payment status")
          (λ d. concluded lnd (unwrapped d)) calls p after h in
      let (fees, t, read, done) =
        bind_inverse (fees_of lnd (unwrapped d)) (outcome lnd (unwrapped d)) calls p after go in
      let (success, same, kept) = outcome-succeeded (unwrapped d) fees t after p done in
      (
        (d, fees, at_end, success, ap (λ x. x.0) read, same),
        sym (fees_of-keeps (unwrapped d) calls) ∙ ap (λ x. x.1) read ∙ kept,
      )

  some_inj : (q p : Payment) → some q ≡ some p → q ≡ p
  some_inj q p h = cc

  read_stream-IsSettled :
      (o : Option (List Dict)) (calls after : List Call) (p : Payment)
      → read_stream lnd o calls ≡ (ok (some p), after)
      → (updates : List Dict) × (o ≡ some updates) × IsSettled calls updates p × (calls ≡ after)
  read_stream-IsSettled none calls after p h = absurd (cc)
  read_stream-IsSettled (some updates) calls after p h =
      let (q, t, read, done) =
        bind_inverse (read_updates lnd updates) (λ q. pure (some q)) calls (some p) after h in
      let (same, kept) = pure_inverse (some q) (some p) t after done in
      let (settled, still) = read_updates-IsSettled updates calls t q read in
      (updates, refl, subst (IsSettled calls updates) (some_inj q p same) settled, still ∙ kept)

  -- A payment is reported as made only behind one request, the payment's own, whose answer is a stream
  -- that ends in an update of status SUCCEEDED, and with that update's
  -- preimage, hash and fees.
  pub send_payment_v2-IsSettled :
      (body : Dict) (limit : ℤ) (calls after : List Call) (p : Payment)
      → send_payment_v2 lnd body limit calls ≡ (ok (some p), after)
      → (payment_call lnd body limit ∷ calls ≡ after)
        × (raw : String) × (updates : List Dict) × (lnd.wire (payment_call lnd body limit)
            ≡ Wire.body raw)
        × (parse_json_stream lnd.raw_decode raw ≡ some updates)
        × IsSettled after updates p
  unfolding send_payment_v2
  send_payment_v2-IsSettled body limit calls after p h =
      let (raw, t, answered, read) =
        bind_inverse (request_text lnd (payment_call lnd body limit))
          (λ raw. read_stream lnd (parse_json_stream lnd.raw_decode raw)) calls (some p) after h in
      let (wired, pushed) = request_text-body (payment_call lnd body limit) calls t raw answered in
      let (updates, parsed, settled, kept) =
        read_stream-IsSettled (parse_json_stream lnd.raw_decode raw) t after p read in
      (pushed ∙ kept, raw, updates, wired, parsed, subst (λ s. IsSettled s updates p) kept settled)
