-- ===== src/Rest/Stream.antt =====
-- `LndRestClient.parse_json_stream` of nwc_lnd.py. A position in the text is the text from there on. The
-- loop runs on fuel, a round for each document.
use Prim.Native.String as S
use sovran_bitcoin.Base.{ℕ, zero, suc, String, Option, none, some, List, [], ◌∷◌}
use sovran_bitcoin.Base.Json.{Json, Dict}
use sovran_bitcoin.Base.Text.{lstrip, strip}

abbrev pub add_dict : Json → List Dict → List Dict
add_dict (Json.obj d) out = d ∷ out
add_dict Json.null out = out
add_dict (Json.bool b) out = out
add_dict (Json.num z) out = out
add_dict (Json.str s) out = out
add_dict (Json.arr xs) out = out

abbrev pub also : Json → Option (List Dict) → Option (List Dict)
also v none = none
also v (some out) = some (add_dict v out)

module _ (raw_decode : String → Option (Json × String)) where
  abbrev pub then_more : (String → Option (List Dict)) → Option (Json × String) → Option (List Dict)
  then_more more none = some []
  then_more more (some (v, rest)) = also v (more rest)

  -- One round, on a text without white space before it.
  abbrev pub next : (String → Option (List Dict)) → String → Option (List Dict)
  next more S.[] = some []
  next more (S.◌∷◌ c s) = then_more more (raw_decode (S.◌∷◌ c s))

  -- `none` only where the fuel runs out.
  unfoldable pub documents : ℕ → String → Option (List Dict)
  documents zero s = none
  documents (suc n) s = next (documents n) (lstrip s)

  unfoldable pub parse_json_stream : String → Option (List Dict)
  parse_json_stream raw = documents (suc (S.count (strip raw))) (strip raw)
