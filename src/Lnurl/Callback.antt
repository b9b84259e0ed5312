-- ===== src/Lnurl/Callback.antt =====
-- The LNURL-pay endpoints `_lnurl_discovery` and `_lnurl_callback`. The hub manager's answers and the
-- domain that `_read_domain` finds are parameters; the manager is asked for the alias twice in a
-- callback, and may answer differently. The audit log is left out. Digits and letters are ASCII ones.
use Prim.Native.Char.{Char, code}
use Prim.Native.String as S
use sovran_bitcoin.Base.{
  ℕ, ◌+◌, ◌-◌, ◌*◌, ◌%◌, String, ◌≡◌, refl, inl, inr, Bool, true, false, Option, none, some, ◌&&◌,
  ◌||◌, not, ◌==◌, ==_iff, leb, Bool-cases, if◌then◌else◌,
}
use sovran_bitcoin.Base.Int.{ℤ, pos, ◌≤ℤ◌, ltb_ℤ, le_of_not-ltb}
use sovran_bitcoin.Base.Text.{nonempty, canonical}

pub record LnurlApp : Type 0 where
  pub id : ℕ
  pub min_sendable : Option ℤ
  pub max_sendable : Option ℤ
  pub description : String

-- `find_app_by_alias`: an `AlbyHubError`, None, or an app with its parsed metadata.
pub data Found : Type 0 where
  unavailable unknown : Found
  found : LnurlApp → Found

-- `issue_invoice` gives none where it raises an `AlbyHubError`.
pub record Manager : Type 0 where
  pub find_app_by_alias : String → Found
  pub find_app_again : String → Found
  pub issue_invoice : ℕ → ℤ → String → Option String

pub record PayRequest : Type 0 where
  pub callback : String
  pub min_sendable : ℤ
  pub max_sendable : ℤ
  pub description : String

-- A body with its status: 200 but for failures.
pub data Offer : Type 0 where
  refused : String → ℕ → Offer
  offered : PayRequest → Offer

pub data Reply : Type 0 where
  failure : String → ℕ → Reply
  invoice : String → Reply

abbrev digit? : Char → Bool
digit? c = leb b'0' (code c) && leb (code c) b'9'

abbrev alnum? : Char → Bool
alnum? c = digit? c || (leb b'a' (code c) && leb (code c) b'z')

abbrev alias_char? : Char → Bool
alias_char? c = alnum? c || (code c == b'_' || code c == b'-')

abbrev all_alias : String → Bool
all_alias S.[] = true
all_alias (S.◌∷◌ c s) = alias_char? c && all_alias s

-- `^[a-z0-9][a-z0-9_-]{0,31}$`, on a text without white space around it.
abbrev pub is_alias : String → Bool
is_alias S.[] = false
is_alias (S.◌∷◌ c s) = alnum? c && (all_alias s && leb (S.count s) 31)

abbrev pub default_to : ℤ → Option ℤ → ℤ
default_to z none = z
default_to z (some x) = x

abbrev pub nwc_min_sendable_msat : ℤ
nwc_min_sendable_msat = pos 1000

abbrev pub nwc_max_sendable_msat : ℤ
nwc_max_sendable_msat = pos 1000000000

abbrev pub description_of : String → LnurlApp → String
description_of alias app = if nonempty app.description then app.description else S.◌++◌ "Pay " alias

abbrev pub describe : String → String → Found → Offer
describe alias domain Found.unavailable = Offer.refused "Service temporarily unavailable" 503
describe alias domain Found.unknown = Offer.refused "Unknown Lightning Address alias" 404
describe alias domain (Found.found app) = Offer.offered (record {
  callback = S.◌++◌ "https://" (S.◌++◌ domain (S.◌++◌ "/lnurlp/" (S.◌++◌ alias "/callback")));
  min_sendable = default_to nwc_min_sendable_msat app.min_sendable;
  max_sendable = default_to nwc_max_sendable_msat app.max_sendable;
  description = description_of alias app;
})

abbrev pub at_domain : Manager → String → Option String → Offer
at_domain m alias none = Offer.refused "Lightning domain is not configured" 503
at_domain m alias (some domain) = describe alias domain (m.find_app_by_alias alias)

unfoldable pub lnurl_discovery : Manager → Option String → String → Offer
lnurl_discovery m domain alias =
    let name = canonical alias in
    if not (is_alias name)
    then Offer.refused "Unknown Lightning Address alias" 404
    else at_domain m name domain

-- `^\d+$` and `int`; `$` lets one line feed stand at the end.
abbrev digits : ℕ → String → Option ℕ
digits n S.[] = some n
digits n (S.◌∷◌ c s) =
    let rest = digits (n * 10 + (code c - b'0')) s in
    if digit? c then rest else if code c == 10 && not (nonempty s) then some n else none

abbrev pub number : String → Option ℕ
number S.[] = none
number (S.◌∷◌ c s) = if digit? c then digits 0 (S.◌∷◌ c s) else none

abbrev pub issue : Manager → String → ℕ → Found → Reply
issue m alias amount Found.unavailable = Reply.failure "Service temporarily unavailable" 503
issue m alias amount Found.unknown = Reply.failure "Unknown Lightning Address alias" 404
issue m alias amount (Found.found app) =
    elim (m.issue_invoice app.id (pos amount) (description_of alias app)) [
      | none ↦ Reply.failure "Invoice creation failed" 502
      | some pr ↦ Reply.invoice pr
    ]

abbrev pub checked : Manager → String → PayRequest → ℕ → Reply
checked m alias p amount =
    if ltb_ℤ (pos amount) p.min_sendable
    then Reply.failure "Amount is below the minimum sendable value" 400
    else if ltb_ℤ p.max_sendable (pos amount)
    then Reply.failure "Amount is above the maximum sendable value" 400
    else if not (amount % 1000 == 0)
    then Reply.failure "Amount must be a whole-satoshi value" 400
    else issue m alias amount (m.find_app_again alias)

abbrev pub parsed : Manager → String → PayRequest → Option ℕ → Reply
parsed m alias p none = Reply.failure "Amount must be an integer millisatoshi value" 400
parsed m alias p (some amount) = checked m alias p amount

abbrev pub with_amount : Manager → String → Option String → Offer → Reply
with_amount m alias text (Offer.refused reason status) = Reply.failure reason status
with_amount m alias none (Offer.offered p) = Reply.failure "Missing amount parameter" 400
with_amount m alias (some text) (Offer.offered p) = parsed m alias p (number text)

unfoldable pub lnurl_callback : Manager → Option String → String → Option String → Reply
lnurl_callback m domain alias text = with_amount m alias text (lnurl_discovery m domain alias)

-- What the offer allows: an amount within its bounds, in whole satoshis.
abbrev pub IsSendable : PayRequest → ℕ → Type 0
IsSendable p amount =
    (p.min_sendable ≤ℤ pos amount) × (pos amount ≤ℤ p.max_sendable) × (amount % 1000 ≡ 0)

-- The invoice is the manager's, for the app that stands behind the alias and for this amount.
abbrev pub IsIssued : Manager → String → ℕ → String → Type 0
IsIssued m alias amount pr =
    (app : LnurlApp) × (m.find_app_again alias ≡ Found.found app)
    × (m.issue_invoice app.id (pos amount) (description_of alias app) ≡ some pr)

issue-IsIssued :
    (m : Manager) (alias pr : String) (amount : ℕ) (f : Found)
    → m.find_app_again alias ≡ f
    → issue m alias amount f ≡ Reply.invoice pr
    → IsIssued m alias amount pr
issue-IsIssued m alias pr amount Found.unavailable e h = absurd (cc)
issue-IsIssued m alias pr amount Found.unknown e h = absurd (cc)
issue-IsIssued m alias pr amount (Found.found app) e h =
    (app, e, answered (m.issue_invoice app.id (pos amount) (description_of alias app)) h)
  where
    answered :
        (o : Option String)
        → elim o [ none ↦ Reply.failure "Invoice creation failed" 502 | some x ↦ Reply.invoice x ]
          ≡ Reply.invoice pr
        → o ≡ some pr
    answered none h = absurd (cc)
    answered (some x) h = let same : x ≡ pr = cc in rw same

checked-IsSendable :
    (m : Manager) (alias pr : String) (p : PayRequest) (amount : ℕ)
    → checked m alias p amount ≡ Reply.invoice pr
    → IsSendable p amount × IsIssued m alias amount pr
checked-IsSendable m alias pr p amount h = elim (Bool-cases (ltb_ℤ (pos amount) p.min_sendable)) [
  | inl low ↦ absurd (failed _ _ pr (rw low at h))
  | inr not_low ↦ elim (Bool-cases (ltb_ℤ p.max_sendable (pos amount))) [
    | inl high ↦ absurd (failed _ _ pr (rw (not_low, high) at h))
    | inr not_high ↦ elim (Bool-cases (amount % 1000 == 0)) [
      | inr odd ↦ absurd (failed _ _ pr (rw (not_low, not_high, odd) at h))
      | inl whole ↦ (
        (
          le_of_not-ltb (pos amount) p.min_sendable not_low,
          le_of_not-ltb p.max_sendable (pos amount) not_high,
          (==_iff (amount % 1000) 0).0 whole,
        ),
        issue-IsIssued m alias pr amount (m.find_app_again alias) refl
            (rw (not_low, not_high, whole) at h),
      )
    ]
  ]
]
  where
    failed :
        (reason : String) (status : ℕ) (pr : String)
        → Reply.failure reason status ≡ Reply.invoice pr
        → ⊥
    failed reason status pr h = cc

abbrev pub Sold : Manager → Option String → String → String → String → Type 0
Sold m domain alias text pr =
    (p : PayRequest) × (amount : ℕ) × (lnurl_discovery m domain alias ≡ Offer.offered p)
    × (number text ≡ some amount)
    × IsSendable p amount
    × IsIssued m alias amount pr

-- An invoice is only handed out for an address that discovery offers, and for an amount that is a
-- number, lies within the bounds that discovery offered, and is a whole number of satoshis; and it is
-- the invoice that the manager issued for this very amount to the app that it found for the alias.
pub lnurl_callback-Sold :
    (m : Manager) (domain : Option String) (alias text pr : String)
    → lnurl_callback m domain alias (some text) ≡ Reply.invoice pr
    → Sold m domain alias text pr
unfolding lnurl_callback
lnurl_callback-Sold m domain alias text pr h = offer (lnurl_discovery m domain alias) refl h
  where
    amounts :
        (p : PayRequest) (n : Option ℕ)
        → lnurl_discovery m domain alias ≡ Offer.offered p
        → number text ≡ n
        → parsed m alias p n ≡ Reply.invoice pr
        → Sold m domain alias text pr
    amounts p none e k q = absurd (cc)
    amounts p (some n) e k q =
        let (sendable, issued) = checked-IsSendable m alias pr p n q in
        (p, n, e, k, sendable, issued)

    offer :
        (o : Offer)
        → lnurl_discovery m domain alias ≡ o
        → with_amount m alias (some text) o ≡ Reply.invoice pr
        → Sold m domain alias text pr
    offer (Offer.refused reason status) e q = absurd (cc)
    offer (Offer.offered p) e q = amounts p (number text) e refl q
