-- ===== src/Store/Apps.antt =====
-- Sub-wallets: `create_app`, `delete_app_by_pubkey`, `_row_to_app_dict` and the lookups.
-- The two key pairs of a new sub-wallet come from `secrets.token_bytes` and
-- `pubkey_from_privkey`: they are arguments, in hexadecimal, and so is the time's text.
pub mod Sound
pub mod Delete
pub mod Lookup
use sovran_bitcoin.Base.{
  ℕ, ◌+◌, String, Bool, Option, none, some, List, [], ◌∷◌, map, reverse, ◌&&◌, ◌||◌, not, first,
  select, length, ◌==◌, is_some, if◌then◌else◌,
}
use sovran_bitcoin.Base.Int.{ℤ, pos, ◌+ℤ◌}
use sovran_bitcoin.Base.Json.{Dict}
use sovran_bitcoin.Base.Monad
use sovran_bitcoin.Base.Monad.{
  Exc, store_error, Action, pure, or_raise, gets, transaction, modify, raise_if, ◌>>=◌, ◌>>◌,
}
use sovran_bitcoin.Base.Text.{◌=ₛ◌, nonempty, strip, lower, canonical}
use sovran_bitcoin.Store.Rows.{AppRow, TxRow, TxState, Db, AppDict}
use sovran_bitcoin.Store.Sql.{pending?, find_app}

-- `_row_to_app_dict`
abbrev pub app_dict : Db → AppRow → AppDict
app_dict db r = record {
  id = r.id;
  name = r.name;
  isolated = r.isolated;
  app_pubkey = r.app_pubkey;
  wallet_pubkey = r.wallet_pubkey;
  balance_msat = r.balance_msat;
  max_amount_sat = r.max_amount_sat;
  budget_renewal = r.budget_renewal;
  scopes = r.scopes;
  metadata = r.metadata;
  created_at = r.created_at;
  pending_count = length (select (λ t. t.app_id == r.id && pending? t.state) db.txs);
}

unfoldable pub get_app : ℕ → Db → Option AppDict
get_app a db = elim (find_app a db) [ none ↦ none | some r ↦ some (app_dict db r) ]

-- A dict together with `wallet_privkey`.
abbrev pub Internal : Type 0
Internal = AppDict × String

abbrev pub with_privkey : Db → AppRow → Internal
with_privkey db r = (app_dict db r, r.wallet_privkey)

unfoldable pub get_all_active_apps_internal : Db → List Internal
get_all_active_apps_internal db = map (with_privkey db) (reverse db.apps)

abbrev pub internal_of : Db → Option AppRow → Option Internal
internal_of db none = none
internal_of db (some r) = some (with_privkey db r)

-- `if wallet_pubkey:` is false of None and of the empty text.
abbrev pub has_keys : String → Option String → AppRow → Bool
has_keys client none r = r.app_pubkey =ₛ lower client
has_keys client (some wallet) r =
    r.app_pubkey =ₛ lower client
    && (if nonempty wallet then r.wallet_pubkey =ₛ lower wallet else Bool.true)

unfoldable pub get_app_internal_by_pubkeys : String → Option String → Db → Option Internal
get_app_internal_by_pubkeys client wallet db =
    internal_of db (first (has_keys client wallet) db.apps)

pub record Keys : Type 0 where
  pub client_pub : String
  pub wallet_priv : String
  pub wallet_pub : String

-- `app_pubkey … UNIQUE`, `wallet_pubkey … UNIQUE`
abbrev pub taken : Keys → Db → Bool
taken k db =
    is_some (first (λ r. r.app_pubkey =ₛ k.client_pub || r.wallet_pubkey =ₛ k.wallet_pub) db.apps)

pub record NewApp : Type 0 where
  pub name : String
  pub scopes : List String
  pub isolated : Bool
  pub max_amount_sat : ℤ
  pub budget_renewal : String
  pub metadata : Dict

abbrev pub new_row : NewApp → Keys → String → ℕ → AppRow
new_row n k created_at id = record {
  id = id;
  name = strip n.name;
  app_pubkey = k.client_pub;
  wallet_privkey = k.wallet_priv;
  wallet_pubkey = k.wallet_pub;
  isolated = n.isolated;
  balance_msat = pos 0;
  max_amount_sat = n.max_amount_sat;
  budget_renewal = if nonempty n.budget_renewal then n.budget_renewal else "never";
  scopes = n.scopes;
  metadata = n.metadata;
  created_at = created_at;
}

abbrev pub insert_app : NewApp → Keys → String → Db → Db
insert_app n k created_at db = record db {
  apps = new_row n k created_at db.next_app ∷ db.apps;
  next_app = db.next_app + 1;
}

-- What stands between BEGIN and COMMIT: the new id.
unfoldable pub add_row : NewApp → Keys → String → Action Db ℕ
add_row n k created_at = do
  clash ← gets (taken k)
  raise_if clash Exc.integrity_error
  id ← gets (λ db. db.next_app)
  modify (insert_app n k created_at)
  pure id

unfoldable pub read_back : ℕ → Action Db Internal
read_back id = do
  row ← gets (find_app id)
  r ← or_raise row Exc.type_error
  gets (λ db. with_privkey db r)

-- The dict of the new row, with its private key. (The pairing URI is left out: it is text for the
-- caller, and the client's secret is not stored.)
unfoldable pub create_app : NewApp → Keys → String → Action Db Internal
create_app n k created_at = do
  raise_if (not (nonempty n.name && nonempty (strip n.name)))
      (store_error "invalid_name" "App name is required" 400)
  app_id ← transaction (add_row n k created_at)
  read_back app_id

abbrev pub named_by : String → AppRow → Bool
named_by pubkey r = lower r.app_pubkey =ₛ canonical pubkey

-- ON DELETE CASCADE
abbrev pub orphaned : String → Db → TxRow → Bool
orphaned pubkey db t = is_some (first (λ r. r.id == t.app_id && named_by pubkey r) db.apps)

-- Whether a row was deleted.
unfoldable pub delete_app_by_pubkey : String → Action Db Bool
delete_app_by_pubkey pubkey db = (
  Monad.ok (is_some (first (named_by pubkey) db.apps)),
  record db {
    apps = select (λ r. not (named_by pubkey r)) db.apps;
    txs = select (λ t. not (orphaned pubkey db t)) db.txs;
  },
)

-- SELECT COALESCE(SUM(balance_msat), 0) FROM sovran_apps WHERE isolated = 1
abbrev pub allocated_row : AppRow → ℤ
allocated_row r = if r.isolated then r.balance_msat else pos 0

unfoldable pub allocated : List AppRow → ℤ
allocated [] = pos 0
allocated (r ∷ rs) = allocated_row r +ℤ allocated rs

unfoldable pub total_allocated_msat : Db → ℤ
unfolding allocated
total_allocated_msat db = allocated db.apps
