-- ===== src/Store/Queries/Order.antt =====
-- `list_transactions`: what stands on a page, and in which order.
use sovran_bitcoin.Base.{
  ℕ, ◌≤◌, ◌≡◌, ◌&&◌, refl, sym, ap, ◌∙◌, inl, inr, Bool, true, false, List, [], ◌∷◌, zero, suc, map,
  All, select, length, take, arith, Bool-cases,
}
use sovran_bitcoin.Base.Int.{ℤ, ◌≤ℤ◌, ltb_ℤ, le_of_not-ltb, lt_of_ltb}
use sovran_bitcoin.Store.Queries.{
  insert_by_time, by_time, Filter, of_app, of_type, of_state, from_time, until_time, passes, page,
  list_transactions,
}
use sovran_bitcoin.Store.Rows.{TxRow, Db, tx_dict}

-- `created_at` never rises.
abbrev pub NewestFirst : List TxRow → Type 0
NewestFirst [] = Unit
NewestFirst (t ∷ ts) = All (λ u. u.created_at ≤ℤ t.created_at) ts × NewestFirst ts

insert_by_time-All :
    (P : TxRow → Type 0) (t : TxRow) (ts : List TxRow)
    → P t
    → All P ts
    → All P (insert_by_time t ts)
unfolding insert_by_time
insert_by_time-All P t [] h k = (h, k)
insert_by_time-All P t (u ∷ us) h k = elim (Bool-cases (ltb_ℤ t.created_at u.created_at)) [
  | inl older ↦ rw older (k.0, insert_by_time-All P t us h k.1)
  | inr newer ↦ rw newer (h, k)
]

All-at_most :
    (x y : ℤ) (ts : List TxRow)
    → x ≤ℤ y
    → All (λ u. u.created_at ≤ℤ x) ts
    → All (λ u. u.created_at ≤ℤ y) ts
All-at_most x y [] le k = tt
All-at_most x y (t ∷ ts) le k = (omega (arith, k.0), All-at_most x y ts le k.1)

insert_by_time-NewestFirst :
    (t : TxRow) (ts : List TxRow) → NewestFirst ts → NewestFirst (insert_by_time t ts)
unfolding insert_by_time
insert_by_time-NewestFirst t [] n = (tt, tt)
insert_by_time-NewestFirst t (u ∷ us) n = elim (Bool-cases (ltb_ℤ t.created_at u.created_at)) [
  | inl older ↦ rw older (
    insert_by_time-All (λ v. v.created_at ≤ℤ u.created_at) t us
        (omega (arith, lt_of_ltb t.created_at u.created_at older)) n.0,
    insert_by_time-NewestFirst t us n.1,
  )
  | inr newer ↦
      let le : u.created_at ≤ℤ t.created_at = le_of_not-ltb t.created_at u.created_at newer in
      rw newer ((le, All-at_most u.created_at t.created_at us le n.0), n)
]

-- The rows that a page is cut from stand with the latest `created_at` first.
pub by_time-NewestFirst : (ts : List TxRow) → NewestFirst (by_time ts)
unfolding by_time
by_time-NewestFirst [] = tt
by_time-NewestFirst (t ∷ ts) = insert_by_time-NewestFirst t (by_time ts) (by_time-NewestFirst ts)

count-insert_by_time :
    (p : TxRow → Bool) (t : TxRow) (ts : List TxRow)
    → length (select p (insert_by_time t ts)) ≡ length (select p (t ∷ ts))
unfolding insert_by_time
count-insert_by_time p t [] = refl
count-insert_by_time p t (u ∷ us) = ground (arith, count-insert_by_time p t us)

-- Sorting neither drops nor doubles a row: any test selects as many rows before as behind it.
pub by_time-counts :
    (p : TxRow → Bool) (ts : List TxRow) → length (select p (by_time ts)) ≡ length (select p ts)
unfolding by_time
by_time-counts p [] = refl
by_time-counts p (t ∷ ts) =
    ground (arith, count-insert_by_time p t (by_time ts), by_time-counts p ts)

length-take : {A : Type 0} (n : ℕ) (xs : List A) → length (take n xs) ≤ n
length-take zero xs = omega arith
length-take (suc n) [] = omega arith
length-take (suc n) (x ∷ xs) = omega (arith, length-take n xs)

count_all : (ts : List TxRow) → length (select (λ _. true) ts) ≡ length ts
count_all [] = refl
count_all (t ∷ ts) = ap suc (count_all ts)

-- The rows behind a page: all those that pass the filter, each as often as it is stored, the latest
-- first. The page is cut from them, and the count is theirs.
abbrev pub IsListing : Filter → ℤ → ℤ → Db → List TxRow → Type 0
IsListing f limit offset db rows =
    NewestFirst rows
    × ((p : TxRow → Bool) → length (select p rows) ≡ length (select p (select (passes f) db.txs)))
    × (list_transactions f limit offset db ≡ (map tx_dict (page limit offset rows), length rows))

of_state-any : (unpaid : Bool) → of_state unpaid ≡ (λ t. true)
of_state-any true = refl
of_state-any false = refl

-- `unpaid` as a filter may have it.
abbrev pub with_unpaid : Bool → Filter → Filter
with_unpaid unpaid f = record f { unpaid = unpaid }

select_unpaid :
    (unpaid : Bool) (f : Filter) (ts : List TxRow)
    → select (passes (with_unpaid unpaid f)) ts ≡ select (passes f) ts
select_unpaid unpaid f ts =
    ap
      (λ (g : TxRow → Bool).
        select
          (λ t.
            of_app f.app_id t
            && (of_type f.tx_type t && (g t && (from_time f.from_ts t && until_time f.until_ts t))))
          ts)
      (of_state-any unpaid ∙ sym (of_state-any f.unpaid))

-- Whatever the filter, the limit and the offset, `list_transactions` cuts its page from the stored
-- rows that pass the filter, ordered by `created_at` with the latest first and none dropped or
-- doubled, and its second result is the number of them all. Whether `unpaid` is set makes no
-- difference: against what a comment of the source says, pending and failed rows are listed either
-- way.
pub list_transactions-IsListing :
    (f : Filter) (limit offset : ℤ) (db : Db)
    → IsListing f limit offset db (by_time (select (passes f) db.txs))
      × ((unpaid : Bool)
          → list_transactions (with_unpaid unpaid f) limit offset db
            ≡ list_transactions f limit offset db)
unfolding list_transactions
list_transactions-IsListing f limit offset db = (
  (by_time-NewestFirst rows, (λ p. by_time-counts p rows), rw (sym all_of_them)),
  λ unpaid.
      ap (λ ts. (map tx_dict (page limit offset (by_time ts)), length ts))
        (select_unpaid unpaid f db.txs),
)
  where
    rows : List TxRow
    rows = select (passes f) db.txs

    all_of_them : length (by_time rows) ≡ length rows
    all_of_them = sym (count_all (by_time rows)) ∙ by_time-counts (λ _. true) rows ∙ count_all rows
