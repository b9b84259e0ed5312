-- ===== src/Helpers/Bech32.antt =====
-- Bech32 (`_bech32_…`): regrouping bytes by five bits, the checksum, and the text. On bytes, `acc << 8 |
-- value` is `acc * 2 ^ 8 + value`; `& (2 ^ k - 1)` is `% 2 ^ k`, and `>> k` is `/ 2 ^ k`.
pub mod Groups
use Prim.Native.Char.{code}
use Prim.Native.Nat.{bit_xor}
use Prim.Native.String as S
use sovran_bitcoin.Base.{
  ℕ, zero, suc, ◌+◌, ◌-◌, ◌*◌, ◌/◌, ◌%◌, ◌^◌, String, List, [], ◌∷◌, ◌++◌, map, leb, ◌==◌,
  if◌then◌else◌,
}
use sovran_bitcoin.Base.Text.{nonempty}

-- `while bits >= tobits`: the bits that are left, and what was written. At most `bits` rounds are made,
-- since `tobits` is not 0.
unfoldable pub emit : ℕ → ℕ → ℕ → ℕ → List ℕ → ℕ × List ℕ
emit zero to acc bits ret = (bits, ret)
emit (suc fuel) to acc bits ret =
    let rest = emit fuel to acc (bits - to) (ret ++ (acc / 2 ^ (bits - to) % 2 ^ to ∷ [])) in
    if leb to bits then rest else (bits, ret)

unfoldable pub last_group : ℕ → ℕ → ℕ → List ℕ → List ℕ
last_group to acc bits ret = if bits == 0 then ret else ret ++ (acc * 2 ^ (to - bits) % 2 ^ to ∷ [])

-- `for value in data`
unfoldable pub regroup : ℕ → ℕ → ℕ → ℕ → List ℕ → List ℕ → List ℕ
regroup from to acc bits ret [] = last_group to acc bits ret
regroup from to acc bits ret (value ∷ bytes) =
    let acc' = acc * 2 ^ from + value in
    let (bits', ret') = emit (bits + from) to acc' (bits + from) ret in
    regroup from to acc' bits' ret' bytes

-- `_bech32_convertbits`
unfoldable pub convertbits : List ℕ → ℕ → ℕ → List ℕ
unfolding regroup emit last_group
convertbits bytes from to = regroup from to 0 0 [] bytes

abbrev pub bit : ℕ → ℕ → ℕ
bit top i = top / 2 ^ i % 2

abbrev pub mix : ℕ → ℕ → ℕ → ℕ → ℕ
mix top i generator chk = if bit top i == 1 then bit_xor chk generator else chk

-- One round of `_bech32_polymod`, its inner loop unrolled over `_BECH32_GENERATOR`.
abbrev pub polymod_step : ℕ → ℕ → ℕ
polymod_step chk value =
    let top = chk / 2 ^ 25 in
    mix top 4 0x2A1462B3 (
      mix top 3 0x3D4233DD (
        mix top 2 0x1EA119FA
          (mix top 1 0x26508E6D (mix top 0 0x3B6A57B2 (bit_xor (chk % 2 ^ 25 * 2 ^ 5) value)))))

unfoldable pub polymod_from : ℕ → List ℕ → ℕ
polymod_from chk [] = chk
polymod_from chk (value ∷ values) = polymod_from (polymod_step chk value) values

abbrev pub polymod : List ℕ → ℕ
polymod = polymod_from 1

-- The code points of a text.
abbrev pub codes : String → List ℕ
codes S.[] = []
codes (S.◌∷◌ c s) = code c ∷ codes s

unfoldable pub hrp_expand : String → List ℕ
hrp_expand hrp = map (λ c. c / 2 ^ 5) (codes hrp) ++ (0 ∷ map (λ c. c % 2 ^ 5) (codes hrp))

abbrev pub zeros : List ℕ
zeros = 0 ∷ 0 ∷ 0 ∷ 0 ∷ 0 ∷ 0 ∷ []

abbrev pub sixth : ℕ → ℕ → ℕ
sixth p i = p / 2 ^ (5 * (5 - i)) % 2 ^ 5

abbrev pub sixths : ℕ → List ℕ
sixths p = sixth p 0 ∷ sixth p 1 ∷ sixth p 2 ∷ sixth p 3 ∷ sixth p 4 ∷ sixth p 5 ∷ []

unfoldable pub create_checksum : String → List ℕ → List ℕ
unfolding polymod_from hrp_expand
create_checksum hrp values = sixths (bit_xor (polymod (hrp_expand hrp ++ values ++ zeros)) 1)

-- `_BECH32_CHARSET[d]`
abbrev pub symbol : ℕ → String
symbol d = S.slice "qpzry9x8gf2tvdw0s3jn54khce6mua7l" d (d + 1)

unfoldable pub joined : List ℕ → String
joined [] = ""
joined (d ∷ ds) = S.◌++◌ (symbol d) (joined ds)

unfoldable pub encode : String → List ℕ → String
unfolding convertbits create_checksum joined
encode hrp payload =
    let values = convertbits payload 8 5 in
    S.◌++◌ hrp (S.◌++◌ "1" (joined (values ++ create_checksum hrp values)))

-- `_nwc_lnurl_bech32`, of texts in ASCII.
unfoldable pub lnurl_bech32 : String → String → String
unfolding encode
lnurl_bech32 alias domain =
    encode "lnurl" (codes (S.◌++◌ "https://" (S.◌++◌ domain (S.◌++◌ "/.well-known/lnurlp/" alias))))
