-- ===== src/Rest/Request.antt =====
-- `LndRestClient.request` and `request_text` of nwc_lnd.py. What the wire brings back, the files, JSON,
-- base64 and URL quoting are parameters; LND is taken to answer in JSON objects. The state is the list
-- of the requests sent, the latest first. The cache of the macaroon is left out.
use Prim.Native.String as S
use sovran_bitcoin.Base.{
  ℕ, String, Bool, Option, none, some, List, ◌∷◌, ◌==◌, not, ◌&&◌, if◌then◌else◌,
}
use sovran_bitcoin.Base.Int.{ℤ}
use sovran_bitcoin.Base.Json.{Json, Fields, Dict}
use sovran_bitcoin.Base.Monad.{Exc, Action, ◌>>=◌, ◌>>◌, pure, raise, raise_if, or_raise, modify}
use sovran_bitcoin.Base.Reading.{Python, starts_with}
use sovran_bitcoin.Base.Text.{lower, nonempty}

pub record Call : Type 0 where
  pub method : String
  pub path : String
  pub body : Option Dict
  pub timeout : ℕ

-- A body of status 200, an `HTTPError` with the message of its body where that is an object that has
-- one, or a connection that fails, with its exception's name.
pub data Wire : Type 0 where
  body : String → Wire
  http_error : ℕ → Option String → Wire
  unreachable : String → Wire

pub record Rest : Type 0 where
  pub py : Python
  pub rest_url : String
  -- The macaroon's bytes in hex, and whether the certificate's file is there.
  pub macaroon : Option String
  pub cert_exists : Bool
  pub wire : Call → Wire
  pub loads : String → Option Dict
  -- `raw_decode(text, idx)`: from the text behind `idx`, the value and the text behind its end.
  pub raw_decode : String → Option (Json × String)
  pub quote : String → String
  -- `str` of a number.
  pub str_int : ℤ → String
  -- `b64encode(bytes.fromhex(s))` and `b64decode(s).hex()`, none where they raise a `ValueError`.
  pub to_base64 : String → Option String
  pub of_base64 : String → Option String
  pub now : ℤ
  -- `secrets.token_bytes(32)` in hex.
  pub token_bytes : String

abbrev pub Client : Type 0 → Type 0
Client A = Action (List Call) A

module _ (lnd : Rest) where
  abbrev pub needs_cert : Bool
  needs_cert = starts_with "https://" (lower lnd.rest_url) && not lnd.cert_exists

  abbrev pub code_of : ℕ → String
  code_of status =
      if status == 404 then "NOT_FOUND" else S.◌++◌ "http_" (lnd.str_int (ℤ.pos status))

  abbrev pub status_message : Call → ℕ → String
  status_message c status = S.◌++◌ "LND " (
      S.◌++◌ c.method
        (S.◌++◌ " " (S.◌++◌ c.path (S.◌++◌ " returned HTTP " (lnd.str_int (ℤ.pos status))))))

  abbrev pub message_or : String → Option String → String
  message_or default none = default
  message_or default (some s) = if nonempty s then s else default

  abbrev pub received : Call → Wire → Client String
  received c (Wire.body s) = pure s
  received c (Wire.http_error status message) =
      raise (Exc.lnd_error (code_of status) (message_or (status_message c status) message))
  received c (Wire.unreachable name) = raise (
      Exc.lnd_error "lnd_unreachable"
        (S.◌++◌ "LND REST API " (S.◌++◌ c.path (S.◌++◌ " unreachable: " name))))

  -- The message of a macaroon or a certificate that cannot be read ends in the file's name.
  abbrev pub request_text : Call → Client String
  request_text c = do
    or_raise lnd.macaroon (Exc.lnd_error "macaroon_unavailable" "Cannot read LND macaroon")
    raise_if needs_cert (Exc.lnd_error "cert_unavailable" "Cannot read LND TLS certificate")
    modify (λ calls. c ∷ calls)
    received c (lnd.wire c)

  abbrev pub loaded : String → Client Dict
  loaded raw = if nonempty raw then or_raise (lnd.loads raw) Exc.value_error else pure Fields.end

  abbrev pub request : Call → Client Dict
  request c = do raw ← request_text c; loaded raw
