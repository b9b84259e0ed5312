-- ===== src/Hub/Actions.antt =====
-- What the manager does with a sub-wallet: `create_wallet`, `drain_wallet`, `delete_wallet`,
-- `issue_invoice` and `rotate_wallet_secret`. The answer to a creation is taken to be the new app with
-- its pairing URI; `type_error` stands for any other.
pub mod Safe
pub mod Invoice
use Prim.Native.String as Str
use sovran_bitcoin.Base.{
  ℕ, String, Bool, true, false, Option, none, some, List, [], ◌∷◌, ◌&&◌, ◌||◌, not, first, is_some,
  ◌==◌, if◌then◌else◌,
}
use sovran_bitcoin.Base.Int.{ℤ, pos, ◌-ℤ◌, ◌*ℤ◌, ◌==ℤ◌, ltb_ℤ, leb_ℤ, floor_div}
use sovran_bitcoin.Base.Json.{Json, Fields}
use sovran_bitcoin.Base.Monad.{
  Exc, Result, ok, raised, hub_error, hub_http, type_error, Action, pure, raise, raise_if, or_raise,
  ◌>>=◌, ◌>>◌,
}
use sovran_bitcoin.Base.Reading.{Python, text}
use sovran_bitcoin.Base.Text.{◌=ₛ◌, nonempty, lower}
use sovran_bitcoin.Hub.Client.{
  Call, Answer, Minted, Hub, Managed, Setting, attempt, authenticated_request,
}
use sovran_bitcoin.Hub.Wallets.{
  WalletMeta, raw_alias, shown, meta_of, all_managed_apps, pending_txs, find_managed_app,
}
use sovran_bitcoin.Store.Apps.{NewApp}
use sovran_bitcoin.Store.Rows.{AppDict, TxDict}

-- `_get_app_balance_msat`, of an answer.
abbrev pub balance_of : Answer → ℤ
balance_of (Answer.wallet a) = a.balance_msat
balance_of (Answer.created a uri) = a.balance_msat
balance_of _ = pos 0

pub record Drained : Type 0 where
  pub drained_sats : ℤ
  pub dust_msat : ℤ

abbrev pub not_found : Exc
not_found = hub_error "wallet_not_found" "Wallet connection not found."

abbrev pub negative : String → Exc
negative message = hub_error "negative_balance" message

abbrev pub pending : String → Exc
pending message = hub_error "pending_transactions" message

abbrev pub incomplete : String → Exc
incomplete message = hub_error "drain_incomplete" message

abbrev pub no_pubkey : String → Exc
no_pubkey message = hub_error "app_pubkey_missing" message

abbrev pub any {ℓ} : {A : Type ℓ} → List A → Bool
any [] = false
any (x ∷ xs) = true

-- `(balance_msat // 1000) * 1000`
abbrev pub transferable : ℤ → ℤ
transferable balance = floor_div balance 1000 *ℤ 1000

abbrev pub dust : ℤ → ℤ
dust balance = balance -ℤ transferable balance

module _ {S : Type 0} (py : Python) (hub : Hub S) (setting : Setting) (fuel : ℕ) where
  abbrev pub ask : Call → Action (Managed S) Answer
  ask = authenticated_request hub setting

  abbrev pub all_drained : AppDict → Drained
  all_drained a = record {
    drained_sats = floor_div (transferable a.balance_msat) 1000;
    dust_msat = dust a.balance_msat;
  }

  abbrev pub verify_rest : AppDict → Answer → Action (Managed S) Drained
  verify_rest a refreshed = do
    raise_if (not (balance_of refreshed ==ℤ dust a.balance_msat))
        (incomplete "Drain verification failed: final balance does not match expected dust.")
    pure (all_drained a)

  -- The transfer and the check behind it.
  abbrev pub move_out : AppDict → Action (Managed S) Drained
  move_out a =
      ask (
        Call.transfer (some a.id) none (transferable a.balance_msat)
          (Str.◌++◌ "Drain isolated subwallet " a.name))
      >> (ask (Call.one_app a.id) >>= verify_rest a)

  abbrev pub nothing_to_move : AppDict → Drained
  nothing_to_move a = record { drained_sats = pos 0; dust_msat = dust a.balance_msat }

  abbrev pub empty_out : AppDict → Action (Managed S) Drained
  empty_out a =
      if transferable a.balance_msat ==ℤ pos 0 then pure (nothing_to_move a) else move_out a

  abbrev pub drain_settled : AppDict → List TxDict → Action (Managed S) Drained
  drain_settled a txs = do
    raise_if (any txs) (pending "Wallet has pending transactions and cannot be drained.")
    empty_out a

  abbrev pub drain_app : AppDict → Action (Managed S) Drained
  drain_app a = do
    raise_if (ltb_ℤ a.balance_msat (pos 0)) (negative "Wallet has a negative balance.")
    pending_txs py hub setting fuel a.id >>= drain_settled a

  abbrev pub drain_found : Option AppDict → Action (Managed S) Drained
  drain_found found = or_raise found not_found >>= drain_app

  unfoldable pub drain_wallet : String → Action (Managed S) Drained
  drain_wallet identifier = find_managed_app py hub setting fuel identifier >>= drain_found

  abbrev pub removed : Drained → Answer → Drained
  removed drained refreshed = record {
    drained_sats = drained.drained_sats;
    dust_msat = balance_of refreshed;
  }

  -- `DELETE`, and the result.
  abbrev pub remove : AppDict → Drained → Answer → Action (Managed S) Drained
  remove a drained refreshed =
      ask (Call.delete_app a.app_pubkey) >> pure (removed drained refreshed)

  abbrev pub remove_keyed : AppDict → Drained → Answer → Action (Managed S) Drained
  remove_keyed a drained refreshed = do
    raise_if (not (nonempty a.app_pubkey))
        (no_pubkey "Cannot delete app: nostr pubkey not available.")
    remove a drained refreshed

  abbrev pub remove_if_empty : AppDict → Drained → Answer → Action (Managed S) Drained
  remove_if_empty a drained refreshed = do
    raise_if (leb_ℤ (pos 1000) (balance_of refreshed))
        (incomplete "Drain verification failed: funds still remain.")
    remove_keyed a drained refreshed

  abbrev pub remove_checked : AppDict → Drained → Answer → Action (Managed S) Drained
  remove_checked a drained refreshed = do
    raise_if (ltb_ℤ (balance_of refreshed) (pos 0))
        (negative "Wallet has a negative final balance and cannot be deleted.")
    remove_if_empty a drained refreshed

  -- What stands behind the drain in `delete_wallet`.
  abbrev pub remove_empty : AppDict → Drained → Action (Managed S) Drained
  remove_empty a drained = ask (Call.one_app a.id) >>= remove_checked a drained

  abbrev pub delete_settled : String → AppDict → List TxDict → Action (Managed S) Drained
  delete_settled identifier a txs = do
    raise_if (any txs) (pending "Wallet has pending transactions and cannot be deleted.")
    drain_wallet identifier >>= remove_empty a

  abbrev pub delete_app : String → AppDict → Action (Managed S) Drained
  delete_app identifier a = pending_txs py hub setting fuel a.id >>= delete_settled identifier a

  abbrev pub delete_found : String → Option AppDict → Action (Managed S) Drained
  delete_found identifier found = or_raise found not_found >>= delete_app identifier

  unfoldable pub delete_wallet : String → Action (Managed S) Drained
  delete_wallet identifier =
      find_managed_app py hub setting fuel identifier >>= delete_found identifier

  -- `re.match(r"^ln", invoice, re.IGNORECASE)`
  abbrev pub is_bolt11 : String → Bool
  is_bolt11 invoice = lower (Str.slice invoice 0 2) =ₛ "ln"

  abbrev pub minted_of : Answer → Minted
  minted_of (Answer.minted m) = m
  minted_of _ = record { invoice = ""; app_id = none }

  abbrev pub is_for : Option ℕ → ℕ → Bool
  is_for none id = false
  is_for (some n) id = n == id

  abbrev pub attributed : ℕ → Minted → Action (Managed S) String
  attributed id m = do
    raise_if (not (is_for m.app_id id)) (
        hub_error "invoice_attribution_failed"
          "Invoice attribution mismatch: returned appId does not match.")
    pure m.invoice

  abbrev pub bolt11_only : ℕ → Minted → Action (Managed S) String
  bolt11_only id m = do
    raise_if (not (is_bolt11 m.invoice))
        (hub_error "invalid_invoice" "Hub returned a non-BOLT11 invoice string.")
    attributed id m

  abbrev pub checked_invoice : ℕ → Answer → Action (Managed S) String
  checked_invoice id answer = do
    raise_if (not (nonempty (minted_of answer).invoice))
        (hub_error "invoice_creation_failed" "Hub returned empty invoice.")
    bolt11_only id (minted_of answer)

  unfoldable pub issue_invoice : ℕ → ℤ → String → Action (Managed S) String
  issue_invoice id amount description =
      ask
        (Call.invoice id amount (if nonempty description then description else "Pay via Lightning"))
      >>= checked_invoice id

  abbrev pub created_of : Answer → Result (AppDict × String)
  created_of (Answer.created a uri) = ok (a, uri)
  created_of _ = raised type_error

  abbrev pub create_app : NewApp → Action (Managed S) (AppDict × String)
  create_app n = do answer ← ask (Call.create_app n); λ m. (created_of answer, m)

  abbrev pub same_again : AppDict → NewApp
  same_again a = record {
    name = a.name;
    scopes = a.scopes;
    isolated = true;
    max_amount_sat = a.max_amount_sat;
    budget_renewal = "never";
    metadata = a.metadata;
  }

  -- The new wallet's id and its pairing URI.
  unfoldable pub rotate_wallet_secret : String → Action (Managed S) (String × String)
  rotate_wallet_secret identifier = do
    found ← find_managed_app py hub setting fuel identifier
    a ← or_raise found not_found
    raise_if (not (nonempty a.app_pubkey))
        (no_pubkey "Cannot rotate secret: app public key not available.")
    drain_wallet identifier
    ask (Call.delete_app a.app_pubkey)
    made ← create_app (same_again a)
    pure (shown py made.0.id, made.1)
