-- ===== src/Store/Apps/Sound.antt =====
-- Creating a sub-wallet keeps the invariant of the store.
use sovran_bitcoin.Base.{
  ℕ, ◌≤◌, String, ◌≡◌, refl, inl, inr, ◌&&◌, true, List, [], ◌∷◌, ◌==◌, arith, Bool-cases,
  Option-cases,
}
use sovran_bitcoin.Base.Int.{pos}
use sovran_bitcoin.Base.Monad.{raise_if, transaction, Stays, Stays-bind, Stays-transaction}
use sovran_bitcoin.Store.Sql.{find_app}
use sovran_bitcoin.Base.Text.{nonempty, strip}
use sovran_bitcoin.Store.Apps.{
  Keys, NewApp, taken, new_row, insert_app, add_row, read_back, create_app,
}
use sovran_bitcoin.Store.Ledger.Form.{All-weaken}
use sovran_bitcoin.Store.Ledger.{balance_in, drift, Descends, has_app, IsSound}
use sovran_bitcoin.Store.Rows.{AppRow, Db}

-- An id at or above the bound names no row.
pub balance_in-fresh :
    (a n : ℕ) (rs : List AppRow) → Descends AppRow.id n rs → n ≤ a → balance_in a rs ≡ pos 0
unfolding balance_in
balance_in-fresh a n [] d le = refl
balance_in-fresh a n (r ∷ rs) d le = ground (arith, balance_in-fresh a r.id rs d.1)

insert_app-balance_in :
    (n : NewApp) (k : Keys) (at : String) (b : ℕ) (db : Db)
    → Descends AppRow.id db.next_app db.apps
    → balance_in b (insert_app n k at db).apps ≡ balance_in b db.apps
unfolding balance_in
insert_app-balance_in n k at b db d = elim (Bool-cases (db.next_app == b)) [
  | inl new ↦
      let fresh : balance_in b db.apps ≡ pos 0 =
        balance_in-fresh b db.next_app db.apps d (ground arith) in
      rw (new, fresh)
  | inr old ↦ rw old
]

insert_app-drift :
    (n : NewApp) (k : Keys) (at : String) (b : ℕ) (db : Db)
    → Descends AppRow.id db.next_app db.apps
    → drift b (insert_app n k at db) ≡ drift b db
unfolding drift
insert_app-drift n k at b db d = rw (insert_app-balance_in n k at b db d)

has_app-cons :
    (a : ℕ) (r : AppRow) (rs : List AppRow) → has_app a rs ≡ true → has_app a (r ∷ rs) ≡ true
has_app-cons a r rs h = ground arith

insert_app-IsSound :
    (n : NewApp) (k : Keys) (at : String) (db : Db) → IsSound db → IsSound (insert_app n k at db)
insert_app-IsSound n k at db s = record {
  form = record {
    app_ids = (omega arith, s.form.app_ids);
    tx_ids = s.form.tx_ids;
    owned =
        All-weaken db.txs (λ t own. has_app-cons t.app_id (new_row n k at db.next_app) db.apps own)
          s.form.owned;
    amounts = s.form.amounts;
  };
  balanced = λ b. rw (insert_app-drift n k at b db s.form.app_ids) (s.balanced b);
  funded = λ b. rw (insert_app-balance_in n k at b db s.form.app_ids) (s.funded b);
}

add_row-IsSound : (n : NewApp) (k : Keys) (at : String) → Stays IsSound (add_row n k at)
unfolding add_row
add_row-IsSound n k at db s = elim (Bool-cases (taken k db)) [
  | inl clash ↦ rw (raise_if, clash) s
  | inr free ↦ rw (raise_if, free) (insert_app-IsSound n k at db s)
]

read_back-IsSound : (id : ℕ) → Stays IsSound (read_back id)
unfolding read_back
read_back-IsSound id db s = elim (Option-cases (find_app id db)) [
  | inl lost ↦ rw lost s
  | inr (r, found) ↦ rw found s
]

-- Creating a sub-wallet keeps the invariant, also when a name or a key is refused.
pub create_app-IsSound :
    (n : NewApp) (k : Keys) (at : String) (db : Db) → IsSound db → IsSound (create_app n k at db).1
unfolding create_app
create_app-IsSound n k at db s = elim (Bool-cases (nonempty n.name && nonempty (strip n.name))) [
  | inr unnamed ↦ rw unnamed s
  | inl named ↦ rw named (
      Stays-bind IsSound (transaction (add_row n k at)) read_back
        (Stays-transaction IsSound (add_row n k at) (add_row-IsSound n k at)) read_back-IsSound db
        s)
]
