-- ===== src/Hub/Tests.antt =====
-- The theorems on the hub manager with a hub of one wallet, whose balance is its state.
use sovran_bitcoin.Base.{
  String, ◌≡◌, refl, sym, ap, inr, true, Option, none, some, [], ◌∷◌, take, drop, arith,
  if◌then◌else◌,
}
use sovran_bitcoin.Base.Int.{ℤ, pos, ◌+ℤ◌, ◌-ℤ◌, ◌*ℤ◌, ◌≤ℤ◌, ◌<ℤ◌, floor_div}
use sovran_bitcoin.Base.Json.{Json, Fields}
use sovran_bitcoin.Base.Monad.{Action, ok, raised, hub_http}
use sovran_bitcoin.Base.Reading.{Python}
use sovran_bitcoin.Base.Text.{◌=ₛ◌, lower, strip, nonempty}
use sovran_bitcoin.Hub.Actions.Invoice.{issue_invoice-attributed}
use sovran_bitcoin.Hub.Actions.Safe.{
  ShowsWallets, IsDrained, IsRemoved, drain_wallet-IsDrained, delete_wallet-IsRemoved,
}
use sovran_bitcoin.Hub.Actions.{
  ask, minted_of, is_bolt11, drain_wallet, delete_wallet, issue_invoice,
}
use sovran_bitcoin.Hub.Client.{
  Call, Answer, Hub, Managed, Setting, ensure_ready, authenticated_request,
}
use sovran_bitcoin.Hub.Paginate.Complete.{paginate-whole}
use sovran_bitcoin.Hub.Paginate.{apps_of, paginate, collect}
use sovran_bitcoin.Hub.Wallets.{all_managed_apps, pending_txs, find_managed_app, search_apps}
use sovran_bitcoin.Store.Rows.{AppDict}

abbrev py : Python
py = record { repr = λ x. ""; dict_of = λ xs. none; unquote = λ s. s }

abbrev wallet : ℤ → AppDict
wallet balance = record {
  id = 7;
  name = "Shop";
  isolated = true;
  app_pubkey = "c1";
  wallet_pubkey = "c3";
  balance_msat = balance;
  max_amount_sat = pos 0;
  budget_renewal = "never";
  scopes = [];
  metadata =
      Fields.field "app_store_app_id" (Json.str "uncle-jim")
        (Fields.field "lnurl_alias" (Json.str "shop") Fields.end);
  created_at = "now";
  pending_count = 0;
}

abbrev one_wallet : Call → Option String → Action ℤ Answer
one_wallet (Call.apps n k) t b =
    (ok (Answer.app_page (take n (drop k (wallet b ∷ []))) (some 1)), b)
one_wallet (Call.transactions id n k) t b = (ok (Answer.transaction_page [] (some 0)), b)
one_wallet (Call.one_app id) t b = (ok (Answer.wallet (record (wallet b) { id = id })), b)
one_wallet (Call.transfer from to amount text) t b = (ok Answer.empty, b -ℤ amount)
one_wallet (Call.invoice id amount text) t b =
    (ok (Answer.minted (record { invoice = "lnbc1"; app_id = some id })), b)
one_wallet _ t b = (ok Answer.empty, b)

abbrev hub : Hub ℤ
hub = record { request = one_wallet }

abbrev setting : Setting
setting = record {
  password = ok "pw";
  permission = "full";
  files = ok tt;
  hub_up = ok tt;
  node_up = ok tt;
}

abbrev managed : ℤ → Managed ℤ
managed balance = record { hub = balance; token = some "t1" }

paginate-whole_example :
    (h : ℤ) × (paginate hub setting apps_of Call.apps 1 (managed (pos 2500))
      ≡ (ok (some (wallet (pos 2500) ∷ [])), record { hub = h; token = some "t1" }))
    × (h ≡ pos 2500)
paginate-whole_example =
    paginate-whole hub setting apps_of Call.apps "t1" (some 1) (wallet (pos 2500) ∷ [])
      (λ h. h ≡ pos 2500) (inr refl)
      (λ offset h e.
        (Answer.app_page (take 100 (drop offset (wallet h ∷ []))) (some 1), h, refl, rw e refl, e))
      1 (managed (pos 2500)) refl refl refl (omega arith)

-- A hub that takes the token "t2" only, and gives it out.
abbrev renewed : Call → Option String → Action ℤ Answer
renewed Call.info t b =
    (ok (Answer.hub_info (record { setup_completed = true; running = true })), b)
renewed (Call.unlock password permission) t b = (ok (Answer.granted "t2"), b)
renewed call none b = (raised (hub_http 401), b)
renewed call (some t) b =
    (if t =ₛ "t2" then ok (Answer.wallet (wallet b)) else raised (hub_http 401), b)

shows_wallets : ShowsWallets py hub setting 1
shows_wallets id t s s' x h =
    (record (wallet s) { id = id }, sym (answered (ap (λ p. p.0) h)), refl)
  where
    answered :
        ok (Answer.wallet (record (wallet s) { id = id })) ≡ ok x
        → Answer.wallet (record (wallet s) { id = id }) ≡ x
    answered e = cc

drained_2500 :
    drain_wallet py hub setting 1 "C1 " (managed (pos 2500))
    ≡ (ok (record { drained_sats = pos 2; dust_msat = pos 500 }), managed (pos 500))
unfolding drain_wallet find_managed_app all_managed_apps pending_txs paginate collect ensure_ready
    authenticated_request search_apps lower strip floor_div ◌-ℤ◌ ◌*ℤ◌ ◌+ℤ◌
drained_2500 = refl

drain_wallet-IsDrained_example :
    (a : AppDict) × (m1 : Managed ℤ) × (find_managed_app py hub setting 1 "C1 " (managed (pos 2500))
      ≡ (ok (some a), m1))
    × (pos 0 ≤ℤ a.balance_msat)
    × IsDrained py hub setting 1 a
        (record { drained_sats = pos 2; dust_msat = pos 500 })
        (managed (pos 500))
drain_wallet-IsDrained_example =
    drain_wallet-IsDrained py hub setting 1 "C1 "
      (record { drained_sats = pos 2; dust_msat = pos 500 }) (managed (pos 2500))
      (managed (pos 500)) shows_wallets drained_2500

deleted_2500 :
    delete_wallet py hub setting 1 "C1 " (managed (pos 2500))
    ≡ (ok (record { drained_sats = pos 2; dust_msat = pos 500 }), managed (pos 500))
unfolding delete_wallet drain_wallet find_managed_app all_managed_apps pending_txs paginate collect
    ensure_ready authenticated_request search_apps lower strip floor_div ◌-ℤ◌ ◌*ℤ◌ ◌+ℤ◌
deleted_2500 = refl

delete_wallet-IsRemoved_example :
    (a : AppDict) × (m1 : Managed ℤ) × (find_managed_app py hub setting 1 "C1 " (managed (pos 2500))
      ≡ (ok (some a), m1))
    × (pos 0 ≤ℤ pos 500)
    × (pos 500 <ℤ pos 1000)
    × IsRemoved py hub setting 1 a
        (record { drained_sats = pos 2; dust_msat = pos 500 })
        (managed (pos 500))
delete_wallet-IsRemoved_example =
    delete_wallet-IsRemoved py hub setting 1 "C1 "
      (record { drained_sats = pos 2; dust_msat = pos 500 }) (managed (pos 2500))
      (managed (pos 500)) shows_wallets deleted_2500

issued :
    issue_invoice py hub setting 1 7 (pos 21000) "" (managed (pos 0))
    ≡ (ok "lnbc1", managed (pos 0))
unfolding issue_invoice ensure_ready authenticated_request lower
issued = refl

issue_invoice-attributed_example :
    (answer : Answer) × (ask py hub setting 1
        (Call.invoice 7 (pos 21000) "Pay via Lightning")
        (managed (pos 0))
      ≡ (ok answer, managed (pos 0)))
    × (minted_of py hub setting 1 answer ≡ record { invoice = "lnbc1"; app_id = some 7 })
    × (nonempty "lnbc1" ≡ true)
    × (is_bolt11 py hub setting 1 "lnbc1" ≡ true)
issue_invoice-attributed_example =
    issue_invoice-attributed py hub setting 1 7 (pos 21000) "" "lnbc1" (managed (pos 0))
      (managed (pos 0)) issued
