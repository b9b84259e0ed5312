-- ===== src/Daemon/Tokens.antt =====
-- `issue_token` and `verify_token`: the management API's tokens. The token that `secrets` draws is an
-- argument; the table of tokens is a list, the newest first. `hmac.compare_digest` is equality.
use Prim.Native.String as S
use mathlib.Core.Path.{subst}
use sovran_bitcoin.Base.{
  String, ◌≡◌, refl, inl, inr, true, Option, none, some, List, [], ◌∷◌, All, ◌||◌, not, Bool-cases,
  if◌then◌else◌,
}
use sovran_bitcoin.Base.Monad.{Exc, store_error, Result, Action, ok, raised}
use sovran_bitcoin.Base.Text.{◌=ₛ◌, nonempty, strip, canonical}
use sovran_bitcoin.Daemon.World.{member}

pub record Token : Type 0 where
  pub token : String
  pub permission : String

abbrev pub permissions : List String
permissions = "full" ∷ "read" ∷ "invoice" ∷ []

abbrev pub known_or_full : String → String
known_or_full perm = if member perm permissions then perm else "full"

abbrev pub normal : String → String
normal permission = known_or_full (if nonempty permission then canonical permission else "full")

unfoldable pub issue_token : String → String → String → String → Action (List Token) String
issue_token unlock password permission fresh tokens =
    if not (nonempty unlock) || not (strip password =ₛ strip unlock)
    then (raised (store_error "unauthorized" "Invalid unlock password" 401), tokens)
    else (ok fresh, record { token = fresh; permission = normal permission } ∷ tokens)

-- `self._tokens.get(token)`
abbrev pub permission_of : String → List Token → Option String
permission_of token [] = none
permission_of token (t ∷ ts) =
    if t.token =ₛ token then some t.permission else permission_of token ts

abbrev pub grant : List String → Option String → Result String
grant required none = raised (store_error "unauthorized" "Invalid or expired Bearer token" 401)
grant required (some perm) =
    if member perm required
    then ok perm
    else raised (
        store_error "forbidden"
          (S.◌++◌ "Token with '" (S.◌++◌ perm "' permission cannot access this endpoint")) 403)

-- `header[len("Bearer "):].strip()`
abbrev pub bearer : String → String
bearer header = strip (S.slice header 7 (S.len header))

abbrev pub missing_token : Exc
missing_token = store_error "unauthorized" "Missing Bearer token" 401

unfoldable pub verify_token : Option String → List String → List Token → Result String
verify_token none required tokens = raised missing_token
verify_token (some header) required tokens =
    if not (S.slice header 0 7 =ₛ "Bearer ")
    then raised missing_token
    else grant required (permission_of (bearer header) tokens)

-- Every token has one of the three permissions.
abbrev pub IsPermission : String → Type 0
IsPermission perm = member perm permissions ≡ true

abbrev pub AreTokens : List Token → Type 0
AreTokens tokens = All (λ t. IsPermission t.permission) tokens

normal-IsPermission : (p : String) → IsPermission (known_or_full p)
normal-IsPermission p = elim (Bool-cases (member p permissions)) [
  | inl good ↦ rw good good
  | inr other ↦ rw other refl
]

-- Whatever password and permission are asked with, tokens that all have one of the three permissions
-- stay such, with the new one if there is one.
pub issue_token-AreTokens :
    (unlock password permission fresh : String) (tokens : List Token)
    → AreTokens tokens
    → AreTokens (issue_token unlock password permission fresh tokens).1
unfolding issue_token
issue_token-AreTokens unlock password permission fresh tokens good =
    elim (Bool-cases (not (nonempty unlock) || not (strip password =ₛ strip unlock))) [
      | inl refused ↦ rw refused good
      | inr right ↦
          rw right (
            normal-IsPermission (if nonempty permission then canonical permission else "full"),
            good,
          )
    ]

permission_of-IsPermission :
    (token perm : String) (ts : List Token)
    → AreTokens ts
    → permission_of token ts ≡ some perm
    → IsPermission perm
permission_of-IsPermission token perm [] good h = absurd (cc)
permission_of-IsPermission token perm (t ∷ ts) good h = elim (Bool-cases (t.token =ₛ token)) [
  | inl hit ↦ subst IsPermission (some_inj (rw hit at h)) good.0
  | inr miss ↦ permission_of-IsPermission token perm ts good.1 (rw miss at h)
]
  where
    some_inj : {a b : String} → some a ≡ some b → a ≡ b
    some_inj e = cc

grant-IsPermission :
    (required : List String) (perm : String) (o : Option String)
    → ((p : String) → o ≡ some p → IsPermission p)
    → grant required o ≡ ok perm
    → (member perm required ≡ true) × IsPermission perm
grant-IsPermission required perm none good h = absurd (cc)
grant-IsPermission required perm (some p) good h = elim (Bool-cases (member p required)) [
  | inl allowed ↦
      let same : p ≡ perm = ok_inj (rw allowed at h) in
      (subst (λ q. member q required ≡ true) same allowed, subst IsPermission same (good p refl))
  | inr denied ↦ absurd (not_ok _ (rw denied at h))
]
  where
    ok_inj : {a b : String} → ◌≡◌ {A = Result String} (ok a) (ok b) → a ≡ b
    ok_inj e = cc

    not_ok : (e : Exc) → ◌≡◌ {A = Result String} (raised e) (ok perm) → ⊥
    not_ok e h = cc

-- Where all tokens have one of the three permissions, a header passes only with a permission that is
-- one of the three and one of those that the endpoint requires.
verify_token-IsPermission :
    (header perm : String) (required : List String) (tokens : List Token)
    → AreTokens tokens
    → verify_token (some header) required tokens ≡ ok perm
    → (member perm required ≡ true) × IsPermission perm
unfolding verify_token
verify_token-IsPermission header perm required tokens good h =
    elim (Bool-cases (S.slice header 0 7 =ₛ "Bearer ")) [
      | inr bare ↦ absurd (not_ok (rw bare at h))
      | inl bears ↦
          grant-IsPermission required perm (permission_of (bearer header) tokens)
            (λ p e. permission_of-IsPermission (bearer header) p tokens good e) (rw bears at h)
    ]
  where
    not_ok : ◌≡◌ {A = Result String} (raised missing_token) (ok perm) → ⊥
    not_ok h = cc
