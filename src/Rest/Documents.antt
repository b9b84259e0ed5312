-- ===== src/Rest/Documents.antt =====
-- The loop of `parse_json_stream`.
use Prim.Native.String as S
use Prim.Native.String.count.{cons as count_cons}
use sovran_bitcoin.Base.{
  ℕ, zero, suc, ◌≤◌, ◌<◌, String, ◌≡◌, refl, inl, inr, Option, none, some, List, [], Bool-cases,
  arith,
}
use sovran_bitcoin.Base.Json.{Json, Dict}
use sovran_bitcoin.Base.Text.{lstrip, is_space, strip}
use sovran_bitcoin.Rest.Stream.{add_dict, also, then_more, next, documents, parse_json_stream}

-- What `raw_decode` promises: a value ends behind its beginning.
abbrev pub Advances : (String → Option (Json × String)) → Type 0
Advances raw_decode =
    (s : String) (v : Json) (rest : String)
    → raw_decode s ≡ some (v, rest)
    → S.count rest < S.count s

lstrip-count : (s : String) → S.count (lstrip s) ≤ S.count s
unfolding lstrip
lstrip-count S.[] = omega arith
lstrip-count (S.◌∷◌ c s) = elim (Bool-cases (is_space c)) [
  | inl space ↦ rw space (omega (arith, lstrip-count s, count_cons c s))
  | inr other ↦ rw other (omega arith)
]

also-some :
    (v : Json) (o : Option (List Dict))
    → ((out : List Dict) × (o ≡ some out))
    → (out : List Dict) × (also v o ≡ some out)
also-some v o (out, e) = (add_dict v out, rw e refl)

module _ (raw_decode : String → Option (Json × String)) (advances : Advances raw_decode) where
  then_more-ends :
      (more : String → Option (List Dict)) (s : String) (o : Option (Json × String))
      → raw_decode s ≡ o
      → ((t : String) → S.count t < S.count s → (out : List Dict) × (more t ≡ some out))
      → (out : List Dict) × (then_more raw_decode more o ≡ some out)
  then_more-ends more s none e ends = ([], refl)
  then_more-ends more s (some (v, rest)) e ends =
      also-some v (more rest) (ends rest (advances s v rest e))

  next-ends :
      (more : String → Option (List Dict)) (s : String)
      → ((t : String) → S.count t < S.count s → (out : List Dict) × (more t ≡ some out))
      → (out : List Dict) × (next raw_decode more s ≡ some out)
  next-ends more S.[] ends = ([], refl)
  next-ends more (S.◌∷◌ c s) ends =
      then_more-ends more (S.◌∷◌ c s) (raw_decode (S.◌∷◌ c s)) refl ends

  documents-end :
      (n : ℕ) (s : String)
      → S.count s < n
      → (out : List Dict) × (documents raw_decode n s ≡ some out)
  unfolding documents
  documents-end zero s h = absurd (omega arith)
  documents-end (suc n) s h =
      next-ends (documents raw_decode n) (lstrip s)
        (λ t shorter. documents-end n t (omega (arith, shorter, lstrip-count s, h)))

  -- Where a value that the decoder finds ends behind its beginning, the loop over a streamed body
  -- ends, within one round more than the body has characters without the white space around it.
  pub parse_json_stream-ends :
      (raw : String) → (out : List Dict) × (parse_json_stream raw_decode raw ≡ some out)
  unfolding parse_json_stream
  parse_json_stream-ends raw = documents-end (suc (S.count (strip raw))) (strip raw) (omega arith)
