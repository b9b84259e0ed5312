-- ===== src/Helpers/Tests.antt =====
-- The theorems on the helpers at concrete texts.
use Prim.Native.String as S
use sovran_bitcoin.Base.{◌≤◌, ◌≡◌, refl, true, none, some, List, ℕ, [], ◌∷◌, length, arith}
use sovran_bitcoin.Base.Text.{lower, strip}
use sovran_bitcoin.Helpers.Bech32.Groups.{Writes, number, convertbits-Writes}
use sovran_bitcoin.Helpers.Bech32.{convertbits, encode}
use sovran_bitcoin.Helpers.Domain.Hostname.{all_host, nwc_domain-host}
use sovran_bitcoin.Helpers.Domain.{nwc_domain, validate_domain_value}

abbrev payload : List ℕ
payload = 255 ∷ 0 ∷ 17 ∷ []

regrouped : convertbits payload 8 5 ≡ 31 ∷ 28 ∷ 0 ∷ 1 ∷ 2 ∷ []
unfolding convertbits
regrouped = refl

convertbits-Writes_example : Writes (length payload) (number 256 payload) (convertbits payload 8 5)
convertbits-Writes_example =
    convertbits-Writes payload (omega arith, (omega arith, (omega arith, tt)))

-- The test vector of BIP-173 for an empty payload.
empty_text : encode "a" [] ≡ "a12uel5l"
unfolding encode
empty_text = refl

pay_example : nwc_domain " Pay.Example.org " none ≡ some "pay.example.org"
unfolding nwc_domain validate_domain_value lower strip
pay_example = refl

nwc_domain-host_example : (all_host "pay.example.org" ≡ true) × (S.len "pay.example.org" ≤ 253)
nwc_domain-host_example = nwc_domain-host " Pay.Example.org " "pay.example.org" none pay_example
