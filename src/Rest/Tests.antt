-- ===== src/Rest/Tests.antt =====
-- The theorems on the REST client at concrete answers.
use Prim.Native.String as S
use Prim.Native.String.count.{cons as count_cons}
use sovran_bitcoin.Base.{String, ◌≡◌, refl, ap, true, Option, none, some, List, [], ◌∷◌, arith}
use sovran_bitcoin.Base.Int.{pos}
use sovran_bitcoin.Base.Json.{Json, Fields, Dict}
use sovran_bitcoin.Base.Monad.{ok}
use sovran_bitcoin.Base.Reading.{Python, read_int, digits}
use sovran_bitcoin.Base.Text.{strip, lstrip, lower, upper}
use sovran_bitcoin.Rest.Documents.{Advances, parse_json_stream-ends}
use sovran_bitcoin.Rest.Payment.{Payment, payment_call, send_payment_v2}
use sovran_bitcoin.Rest.Request.{Rest, Wire}
use sovran_bitcoin.Rest.Settled.{IsSettled, send_payment_v2-IsSettled}
use sovran_bitcoin.Rest.Stream.{documents, parse_json_stream}

abbrev update : String → Dict
update status = Fields.field "status" (Json.str status) (
    Fields.field "payment_preimage" (Json.str "00AA")
      (Fields.field "fee_msat" (Json.str "21") Fields.end))

-- A decoder of one-letter documents, each an update of a payment that succeeded.
abbrev decode : String → Option (Json × String)
decode S.[] = none
decode (S.◌∷◌ c s) = some (Json.obj (update "succeeded"), s)

decode-Advances : Advances decode
decode-Advances S.[] v rest h = absurd (cc)
decode-Advances (S.◌∷◌ c s) v rest h =
    let same : s ≡ rest = cc in omega (arith, count_cons c s, ap S.count same)

parse_json_stream-ends_example :
    (out : List Dict) × (parse_json_stream decode " F\n S\n" ≡ some out)
parse_json_stream-ends_example = parse_json_stream-ends decode decode-Advances " F\n S\n"

abbrev python : Python
python = record { repr = λ x. ""; dict_of = λ xs. none; unquote = λ s. s }

abbrev node : Rest
node = record {
  py = python;
  rest_url = "https://127.0.0.1:8080";
  macaroon = some "0201";
  cert_exists = true;
  wire = λ c. Wire.body "S\n";
  loads = λ s. none;
  raw_decode = decode;
  quote = λ s. s;
  str_int = λ z. "10000";
  to_base64 = λ s. some s;
  of_base64 = λ s. some s;
  now = pos 0;
  token_bytes = "";
}

abbrev paid : Payment
paid = record { preimage = "00aa"; payment_hash = ""; fees_paid_msat = pos 21 }

sent :
    send_payment_v2 node Fields.end (pos 10000) []
    ≡ (ok (some paid), payment_call node Fields.end (pos 10000) ∷ [])
unfolding send_payment_v2 parse_json_stream documents strip lstrip lower upper read_int digits
sent = refl

send_payment_v2-IsSettled_example :
    (payment_call node Fields.end (pos 10000) ∷ [] ≡ payment_call node Fields.end (pos 10000) ∷ [])
    × (raw : String) × (updates : List Dict) × (node.wire (payment_call node Fields.end (pos 10000))
        ≡ Wire.body raw)
    × (parse_json_stream decode raw ≡ some updates)
    × IsSettled node (payment_call node Fields.end (pos 10000) ∷ []) updates paid
send_payment_v2-IsSettled_example =
    send_payment_v2-IsSettled node Fields.end (pos 10000) []
      (payment_call node Fields.end (pos 10000) ∷ []) paid sent
