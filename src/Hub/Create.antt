-- ===== src/Hub/Create.antt =====
-- `create_wallet`: a new sub-wallet, its first funding, and what is shown of it. An answer of another
-- shape than an app's is taken for none when the new app is read back.
use Prim.Native.String as Str
use sovran_bitcoin.Base.{
  ℕ, String, Bool, true, false, Option, none, some, List, [], ◌∷◌, ◌&&◌, not, first, if◌then◌else◌,
}
use sovran_bitcoin.Base.Int.{ℤ, pos, ◌*ℤ◌, ◌==ℤ◌}
use sovran_bitcoin.Base.Json.{Json, Fields}
use sovran_bitcoin.Base.Monad.{
  Exc, Result, ok, raised, hub_error, hub_http, Action, pure, raise, ◌>>=◌, ◌>>◌,
}
use sovran_bitcoin.Base.Reading.{Python, text}
use sovran_bitcoin.Base.Text.{◌=ₛ◌, lower}
use sovran_bitcoin.Hub.Actions.{ask, create_app}
use sovran_bitcoin.Hub.Client.{Call, Answer, Hub, Managed, Setting, attempt}
use sovran_bitcoin.Hub.Wallets.{WalletMeta, raw_alias, shown, meta_of, all_managed_apps}
use sovran_bitcoin.Store.Apps.{NewApp}
use sovran_bitcoin.Store.Rows.{AppDict}

abbrev pub receive_only_scopes : List String
receive_only_scopes =
    "get_info" ∷ "get_balance" ∷ "make_invoice" ∷ "lookup_invoice" ∷ "list_transactions"
    ∷ "notifications" ∷ []

abbrev pub limited_send_scopes : List String
limited_send_scopes =
    "get_info" ∷ "get_balance" ∷ "make_invoice" ∷ "lookup_invoice" ∷ "list_transactions"
    ∷ "notifications" ∷ "pay_invoice" ∷ []

pub record Funding : Type 0 where
  pub attempted : Bool
  pub success : Bool
  pub error : Option Exc

pub record NewWallet : Type 0 where
  pub wallet : WalletMeta
  pub pairing_uri : String
  pub funding : Funding

module _ {S : Type 0} (py : Python) (hub : Hub S) (setting : Setting) (fuel : ℕ) where
  -- The first managed app that is in the way of a new one.
  pub clash : String → String → List AppDict → Option Exc
  clash name alias [] = none
  clash name alias (a ∷ as') =
      if lower (text py (raw_alias a)) =ₛ lower alias
      then some (hub_error "alias_exists" "That Lightning Address alias is already in use.")
      else if lower a.name =ₛ lower name
      then some (hub_error "wallet_name_exists" "That Wallet Connection name already exists.")
      else clash name alias as'

  abbrev pub no_clash : Option Exc → Action (Managed S) (Unit {0})
  no_clash none = pure tt
  no_clash (some e) = raise e

  abbrev pub metadata_for : String → Fields
  metadata_for alias = Fields.field "app_store_app_id" (Json.str "uncle-jim") (
      Fields.field "lnurl_alias" (Json.str alias) (
        Fields.field "lnurl_description" (Json.str "Pay via Lightning") (
          Fields.field "lnurl_min_sendable_msat" (Json.num (pos 1000))
            (Fields.field "lnurl_max_sendable_msat" (Json.num (pos 1_000_000_000)) Fields.end))))

  abbrev pub new_wallet : String → String → Bool → NewApp
  new_wallet name alias sends = record {
    name = name;
    scopes = if sends then limited_send_scopes else receive_only_scopes;
    isolated = true;
    max_amount_sat = pos 0;
    budget_renewal = "never";
    metadata = metadata_for alias;
  }

  abbrev pub unfunded : Funding
  unfunded = record { attempted = false; success = false; error = none }

  -- `except AlbyHubError`
  abbrev pub hub_failure : Exc → Bool
  hub_failure (hub_error code message) = true
  hub_failure (hub_http n) = true
  hub_failure _ = false

  abbrev pub outcome : Result Answer → Result Funding
  outcome (ok x) = ok (record { attempted = true; success = true; error = none })
  outcome (raised e) =
      if hub_failure e
      then ok (record { attempted = true; success = false; error = some e })
      else raised e

  abbrev pub asked_for : Bool → Option ℤ → Option ℤ
  asked_for sends none = none
  asked_for sends (some z) = if sends && not (z ==ℤ pos 0) then some z else none

  abbrev pub fund : String → ℕ → Option ℤ → Action (Managed S) Funding
  fund name id none = pure unfunded
  fund name id (some sats) = do
    tried ← attempt hub setting (
        ask py hub setting fuel
          (Call.transfer none (some id) (sats *ℤ 1000) (Str.◌++◌ "Initial funding for " name)))
    λ m. (outcome tried, m)

  abbrev pub detail_of : Result Answer → Result (Option AppDict)
  detail_of (ok (Answer.wallet a)) = ok (some a)
  detail_of (ok _) = ok none
  detail_of (raised e) = if hub_failure e then ok none else raised e

  -- `if app_detail is None: …`
  abbrev pub or_listed : ℕ → Option AppDict → Action (Managed S) (Option AppDict)
  or_listed id (some a) = pure (some a)
  or_listed id none = do
    apps ← all_managed_apps py hub setting fuel
    pure (first (λ a. shown py a.id =ₛ shown py id) apps)

  abbrev pub or_created : AppDict → Option AppDict → AppDict
  or_created a none = a
  or_created a (some b) = b

  unfoldable pub create_wallet :
      String → String → String → Option ℤ → Option String → Action (Managed S) NewWallet
  unfolding clash
  create_wallet name alias access_preset spending_limit_sats domain = do
    let sends = access_preset =ₛ "send_receive_limited"
    managed ← all_managed_apps py hub setting fuel
    no_clash (clash name alias managed)
    made ← create_app py hub setting fuel (new_wallet name alias sends)
    funding ← fund name made.0.id (asked_for sends spending_limit_sats)
    answer ← attempt hub setting (ask py hub setting fuel (Call.one_app made.0.id))
    detail ← λ m. (detail_of answer, m)
    listed ← or_listed made.0.id detail
    wallet ← meta_of py hub setting fuel (or_created made.0 listed) domain
    pure (record { wallet = wallet; pairing_uri = made.1; funding = funding })
