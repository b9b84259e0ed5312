-- ===== src/Hub/Wallets.antt =====
-- The sub-wallets as the manager sees them: which ones it manages, how they are listed, and how one is
-- found by what a user types. An app is the dict that the daemon sends (`_row_to_app_dict`).
use Prim.Native.Char.{code}
use Prim.Native.String as S
use sovran_bitcoin.Base.{
  ℕ, String, Bool, false, Option, none, some, List, [], ◌∷◌, ◌&&◌, ◌||◌, select, first, length,
  ◌==◌, if◌then◌else◌,
}
use sovran_bitcoin.Base.Int.{ℤ, pos, ◌-ℤ◌, ◌*ℤ◌, ◌==ℤ◌, floor_div}
use sovran_bitcoin.Base.Json.{Json, get}
use sovran_bitcoin.Base.Monad.{Exc, Result, ok, raised, hub_error, Action, pure, or_raise, ◌>>=◌}
use sovran_bitcoin.Base.Reading.{Python, text, truthy, int_of}
use sovran_bitcoin.Base.Text.{◌=ₛ◌, nonempty, strip, lower, canonical}
use sovran_bitcoin.Daemon.World.{member}
use sovran_bitcoin.Hub.Client.{Call, Hub, Managed, Setting}
use sovran_bitcoin.Hub.Paginate.{apps_of, transactions_of, paginate}
use sovran_bitcoin.Store.Rows.{AppDict, TxDict}
use sovran_bitcoin.Store.Sql.{pending?}

-- `meta.get("lnurl_alias", "")`
abbrev pub or_json : Option Json → Json → Json
or_json none default = default
or_json (some x) default = x

abbrev pub raw_alias : AppDict → Json
raw_alias a = or_json (get "lnurl_alias" a.metadata) (Json.str "")

-- `meta.get("app_store_app_id") == "uncle-jim"`
abbrev pub is_text : Option Json → String → Bool
is_text (some (Json.str s)) t = s =ₛ t
is_text _ t = false

abbrev pub is_managed : Python → AppDict → Bool
is_managed py a =
    is_text (get "app_store_app_id" a.metadata) "uncle-jim"
    && nonempty (canonical (text py (raw_alias a)))

-- `_app_alias`
abbrev pub app_alias : Python → AppDict → String
app_alias py a = strip (if truthy (raw_alias a) then text py (raw_alias a) else "")

-- `str(n)`
abbrev pub shown : Python → ℕ → String
shown py n = py.repr (Json.num (pos n))

-- `s.split("@", 1)[0]`
unfoldable pub local_part : String → String
local_part S.[] = S.[]
local_part (S.◌∷◌ c s) = let rest = local_part s in if code c == b'@' then S.[] else S.◌∷◌ c rest

-- The test on the name and the alias.
abbrev pub is_called : Python → String → AppDict → Bool
is_called py needle a =
    let name = canonical a.name in
    let alias = lower (app_alias py a) in
    (nonempty name || nonempty alias)
    && ((name =ₛ needle || alias =ₛ needle)
        || (nonempty (local_part needle) && local_part needle =ₛ alias))

-- `matches[str(app.get("id", ""))] = app`
unfoldable pub put : AppDict → List AppDict → List AppDict
put a [] = a ∷ []
put a (b ∷ bs) = if b.id == a.id then a ∷ bs else b ∷ put a bs

unfoldable pub collect_matches : List AppDict → List AppDict → List AppDict
unfolding put
collect_matches [] found = found
collect_matches (a ∷ as') found = collect_matches as' (put a found)

abbrev pub ambiguous : String → Exc
ambiguous identifier = hub_error "wallet_ambiguous" (
    S.◌++◌ "Multiple wallets match '"
      (S.◌++◌ (strip identifier) "'. Re-run using the wallet id from 'nwc-wallet list'."))

abbrev pub only_one : String → List AppDict → Result (Option AppDict)
only_one identifier [] = ok none
only_one identifier (a ∷ []) = ok (some a)
only_one identifier (a ∷ b ∷ bs) = raised (ambiguous identifier)

abbrev pub or_else : {A : Type 0} → Option A → A → A
or_else none a = a
or_else (some x) a = x

abbrev pub or_next : Option AppDict → Result (Option AppDict) → Result (Option AppDict)
or_next (some a) r = ok (some a)
or_next none r = r

-- `_find_managed_app`, in the list of the managed apps: by id, by key, then by name or alias.
unfoldable pub search_apps : Python → String → List AppDict → Result (Option AppDict)
unfolding collect_matches
search_apps py identifier apps =
    let needle = canonical identifier in
    or_next (first (λ a. lower (shown py a.id) =ₛ needle) apps) (
      or_next (first (λ a. lower a.app_pubkey =ₛ needle) apps)
        (only_one identifier (collect_matches (select (is_called py needle) apps) [])))

-- `_app_to_wallet_meta`
pub record WalletMeta : Type 0 where
  pub id : String
  pub pubkey : String
  pub name : String
  pub alias : Json
  pub lightning_address : Option String
  pub access_preset : String
  pub spending_limit_sats : Option ℤ
  pub balance_sats : ℤ
  pub dust_msat : ℤ
  pub pending_transactions : ℕ
  pub created_at : String
  pub min_sendable_msat : ℤ
  pub max_sendable_msat : ℤ

abbrev pub address_of : Python → Json → Option String → Option String
address_of py alias none = none
address_of py alias (some domain) =
    if truthy alias && nonempty domain
    then some (S.◌++◌ (text py alias) (S.◌++◌ "@" domain))
    else none

-- `x % k`
abbrev pub floor_mod : ℤ → ℕ → ℤ
floor_mod z k = z -ℤ floor_div z k *ℤ k

abbrev pub int_or : Option Json → ℤ → Result ℤ
int_or none default = ok default
int_or (some x) default = int_of x

abbrev pub meta_with : Python → AppDict → Option String → ℤ → ℤ → WalletMeta
meta_with py a domain least most = record {
  id = shown py a.id;
  pubkey = a.app_pubkey;
  name = a.name;
  alias = raw_alias a;
  lightning_address = address_of py (raw_alias a) domain;
  access_preset = if member "pay_invoice" a.scopes then "send_receive_limited" else "receive_only";
  spending_limit_sats = if a.max_amount_sat ==ℤ pos 0 then none else some a.max_amount_sat;
  balance_sats = floor_div a.balance_msat 1000;
  dust_msat = floor_mod a.balance_msat 1000;
  pending_transactions = a.pending_count;
  created_at = a.created_at;
  min_sendable_msat = least;
  max_sendable_msat = most;
}

abbrev pub then_most : Python → AppDict → Option String → Result ℤ → ℤ → Result WalletMeta
then_most py a domain (raised e) least = raised e
then_most py a domain (ok most) least = ok (meta_with py a domain least most)

abbrev pub then_least : Python → AppDict → Option String → Result ℤ → Result WalletMeta
then_least py a domain (raised e) = raised e
then_least py a domain (ok least) =
    then_most py a domain (int_or (get "lnurl_max_sendable_msat" a.metadata) (pos 1_000_000_000))
      least

unfoldable pub app_to_wallet_meta : Python → AppDict → Option String → Result WalletMeta
app_to_wallet_meta py a domain =
    then_least py a domain (int_or (get "lnurl_min_sendable_msat" a.metadata) (pos 1000))

-- The exception of the model for a loop that has not ended.
abbrev pub ended : {S A : Type 0} → Option A → Action S A
ended x = or_raise x (hub_error "model_fuel" "the fuel of the loop ran out")

module _ {S : Type 0} (py : Python) (hub : Hub S) (setting : Setting) (fuel : ℕ) where
  -- `_all_managed_apps`
  unfoldable pub all_managed_apps : Action (Managed S) (List AppDict)
  all_managed_apps = do
    pages ← paginate hub setting apps_of Call.apps fuel
    apps ← ended pages
    pure (select (λ a. a.isolated && is_managed py a) apps)

  -- `_get_app_pending_txs`
  unfoldable pub pending_txs : ℕ → Action (Managed S) (List TxDict)
  pending_txs id = do
    pages ← paginate hub setting transactions_of (Call.transactions id) fuel
    txs ← ended pages
    pure (select (λ t. pending? t.state) txs)

  abbrev pub search_in : String → List AppDict → Action (Managed S) (Option AppDict)
  search_in identifier apps m = (search_apps py identifier apps, m)

  unfoldable pub find_managed_app : String → Action (Managed S) (Option AppDict)
  find_managed_app identifier =
      if nonempty (canonical identifier)
      then all_managed_apps >>= search_in identifier
      else pure none

  -- `find_app_by_alias`
  unfoldable pub find_app_by_alias : String → Action (Managed S) (Option AppDict)
  find_app_by_alias alias = do
    apps ← all_managed_apps
    pure (first (λ a. lower (text py (raw_alias a)) =ₛ canonical alias) apps)

  abbrev pub with_pending : AppDict → ℕ → AppDict
  with_pending a n = record a { pending_count = n }

  abbrev pub meta_of : AppDict → Option String → Action (Managed S) WalletMeta
  meta_of a domain m = (app_to_wallet_meta py a domain, m)

  pub list_each : Option String → List AppDict → Action (Managed S) (List WalletMeta)
  list_each domain [] = pure []
  list_each domain (a ∷ as') = do
    txs ← pending_txs a.id
    wallet ← meta_of (with_pending a (length txs)) domain
    others ← list_each domain as'
    pure (wallet ∷ others)

  -- `list_wallets`
  unfoldable pub list_wallets : Option String → Action (Managed S) (List WalletMeta)
  unfolding list_each
  list_wallets domain = do apps ← all_managed_apps; list_each domain apps
