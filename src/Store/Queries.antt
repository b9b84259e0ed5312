-- ===== src/Store/Queries.antt =====
-- Lists for a reader: `list_apps` and `list_transactions`.
pub mod Order
use sovran_bitcoin.Base.{
  ℕ, Bool, true, false, Option, none, some, List, [], ◌∷◌, map, reverse, ◌&&◌, not, select, length,
  take, drop, ◌==◌, if◌then◌else◌,
}
use sovran_bitcoin.Base.Int.{ℤ, pos, negsuc, ltb_ℤ, leb_ℤ, pos_part}
use sovran_bitcoin.Store.Apps.{app_dict}
use sovran_bitcoin.Store.Rows.{TxRow, TxType, Db, AppDict, TxDict, tx_dict}
use sovran_bitcoin.Store.Sql.{incoming?, outgoing?}

-- LIMIT ? OFFSET ?. SQLite reads a negative limit as none at all, a negative offset as 0.
abbrev pub limited {ℓ} : {A : Type ℓ} → ℤ → List A → List A
limited (pos n) xs = take n xs
limited (negsuc n) xs = xs

abbrev pub page {ℓ} : {A : Type ℓ} → ℤ → ℤ → List A → List A
page limit offset xs = limited limit (drop (pos_part offset) xs)

unfoldable pub list_apps : ℤ → ℤ → Db → List AppDict × ℕ
list_apps limit offset db =
    (map (app_dict db) (page limit offset (reverse db.apps)), length db.apps)

-- `tx_type in ("incoming", "outgoing")`: any other text selects nothing out.
abbrev pub of_type : Option TxType → TxRow → Bool
of_type none t = true
of_type (some TxType.incoming) t = incoming? t.type
of_type (some TxType.outgoing) t = outgoing? t.type

abbrev pub of_app : Option ℕ → TxRow → Bool
of_app none t = true
of_app (some a) t = t.app_id == a

abbrev pub from_time : Option ℤ → TxRow → Bool
from_time none t = true
from_time (some z) t = leb_ℤ z t.created_at

abbrev pub until_time : Option ℤ → TxRow → Bool
until_time none t = true
until_time (some z) t = leb_ℤ t.created_at z

-- ORDER BY created_at DESC, id DESC: stable, over rows that stand by descending id.
pub insert_by_time : TxRow → List TxRow → List TxRow
insert_by_time t [] = t ∷ []
insert_by_time t (u ∷ us) =
    if ltb_ℤ t.created_at u.created_at then u ∷ insert_by_time t us else t ∷ u ∷ us

pub by_time : List TxRow → List TxRow
by_time [] = []
by_time (t ∷ ts) = insert_by_time t (by_time ts)

pub record Filter : Type 0 where
  pub app_id : Option ℕ
  pub tx_type : Option TxType
  pub unpaid : Bool
  pub from_ts : Option ℤ
  pub until_ts : Option ℤ

-- `if not unpaid: pass`: either way it adds no clause, and pending and failed rows pass too.
abbrev pub of_state : Bool → TxRow → Bool
of_state unpaid t = if not unpaid then true else true

-- The clauses joined by AND.
abbrev pub passes : Filter → TxRow → Bool
passes f t =
    of_app f.app_id t
    && (of_type f.tx_type t
        && (of_state f.unpaid t && (from_time f.from_ts t && until_time f.until_ts t)))

-- The page, and the number of all rows that pass.
unfoldable pub list_transactions : Filter → ℤ → ℤ → Db → List TxDict × ℕ
unfolding by_time insert_by_time
list_transactions f limit offset db =
    let rows = select (passes f) db.txs in
    (map tx_dict (page limit offset (by_time rows)), length rows)
