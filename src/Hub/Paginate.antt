-- ===== src/Hub/Paginate.antt =====
-- `_paginate`: a list API read to its end, a hundred items at a time. The loop runs on fuel; `none`
-- says that the fuel ran out.
pub mod Complete
use sovran_bitcoin.Base.{
  ℕ, zero, suc, ◌+◌, String, Bool, Option, none, some, List, [], ◌++◌, length, leb, ltb,
  if◌then◌else◌,
}
use sovran_bitcoin.Base.Monad.{Action, pure, ◌>>=◌, ◌>>◌}
use sovran_bitcoin.Hub.Client.{Call, Answer, Hub, Managed, Setting, request, ensure_ready}
use sovran_bitcoin.Store.Rows.{AppDict, TxDict}

abbrev pub page_size : ℕ
page_size = 100

-- `page.get("apps") or page.get("transactions") or []`, and `totalCount` where it is there.
abbrev pub apps_of : Answer → List AppDict × Option ℕ
apps_of (Answer.app_page items total) = (items, total)
apps_of _ = ([], none)

abbrev pub transactions_of : Answer → List TxDict × Option ℕ
transactions_of (Answer.transaction_page items total) = (items, total)
transactions_of _ = ([], none)

module _ {A : Type 0} where
  -- The two tests that leave the loop.
  abbrev pub enough : Option ℕ → List A → List A → Bool
  enough (some total) results items = leb total (length results)
  enough none results items = ltb (length items) page_size

module _ {S A : Type 0} (hub : Hub S) (setting : Setting) (read : Answer → List A × Option ℕ)
    (call : ℕ → ℕ → Call) where
  unfoldable pub collect : String → ℕ → ℕ → List A → Action (Managed S) (Option (List A))
  collect t zero offset results = pure none
  collect t (suc fuel) offset results = do
    answer ← request hub setting (call page_size offset) (some t)
    let found = results ++ (read answer).0
    let rest = collect t fuel (offset + page_size) found
    if enough (read answer).1 found (read answer).0 then pure (some found) else rest

  unfoldable pub paginate : ℕ → Action (Managed S) (Option (List A))
  unfolding collect
  paginate fuel = do t ← ensure_ready hub setting; collect t fuel 0 []
