-- ===== src/Store/Ledger/Form.antt =====
-- The statements keep the tables well formed, and leave every wallet where it is.
use mathlib.Core.Path.{subst}
use sovran_bitcoin.Base.{
  ℕ, ◌≤◌, ◌<◌, ◌≡◌, refl, Bool, true, some, List, [], ◌∷◌, map, first, All, ◌==◌, arith, ==_refl,
  Bool-cases, inl, inr,
}
use sovran_bitcoin.Base.Int.{ℤ, pos, ◌≤ℤ◌}
use sovran_bitcoin.Store.Ledger.{balance_in, Descends, has_app, IsProper, IsWellFormed}
use sovran_bitcoin.Store.Rows.{AppRow, TxRow, Db}
use sovran_bitcoin.Store.Sql.{credit_row, credit, update_row, update_tx, insert_tx}

pub has_app-credit :
    (a b : ℕ) (x : ℤ) (rs : List AppRow) → has_app b (map (credit_row a x) rs) ≡ has_app b rs
has_app-credit a b x [] = refl
has_app-credit a b x (r ∷ rs) = ground (arith, has_app-credit a b x rs)

pub Descends-weaken :
    {A : Type 0} (key : A → ℕ) (m n : ℕ) (xs : List A)
    → m ≤ n
    → Descends key m xs
    → Descends key n xs
Descends-weaken key m n [] le d = tt
Descends-weaken key m n (x ∷ xs) le d = (omega arith, d.1)

pub Descends-map :
    {A : Type 0} (key : A → ℕ) (f : A → A) (n : ℕ) (xs : List A)
    → ((x : A) → key (f x) ≡ key x)
    → Descends key n xs
    → Descends key n (map f xs)
Descends-map key f n [] same d = tt
Descends-map key f n (x ∷ xs) same d = rw (same x) (d.0, Descends-map key f (key x) xs same d.1)

pub All-weaken :
    {A : Type 0} {P Q : A → Type 0} (xs : List A) → ((x : A) → P x → Q x) → All P xs → All Q xs
All-weaken [] h k = tt
All-weaken (x ∷ xs) h k = (h x k.0, All-weaken xs h k.1)

pub All-map :
    {A : Type 0} {P : A → Type 0} (f : A → A) (xs : List A)
    → ((x : A) → P x → P (f x))
    → All P xs
    → All P (map f xs)
All-map f [] h k = tt
All-map f (x ∷ xs) h k = (h x k.0, All-map f xs h k.1)

-- What holds of all rows holds of the one that a query finds.
pub All-first :
    {A : Type 0} (P : A → Type 0) (p : A → Bool) (x : A) (xs : List A)
    → All P xs
    → first p xs ≡ some x
    → P x
All-first P p x [] k e = cc
All-first P p x (y ∷ ys) k e = elim (Bool-cases (p y)) [
  | inl here ↦ subst P (ground arith) k.0
  | inr later ↦ All-first P p x ys k.1 (ground arith)
]

credit_row-id : (a : ℕ) (x : ℤ) (r : AppRow) → (credit_row a x r).id ≡ r.id
credit_row-id a x r = ground arith

pub credit-IsWellFormed : (a : ℕ) (x : ℤ) (db : Db) → IsWellFormed db → IsWellFormed (credit a x db)
unfolding credit
credit-IsWellFormed a x db w = record {
  app_ids =
      Descends-map AppRow.id (credit_row a x) db.next_app db.apps (credit_row-id a x) w.app_ids;
  tx_ids = w.tx_ids;
  owned = All-weaken db.txs (λ t own. rw (has_app-credit a t.app_id x db.apps) own) w.owned;
  amounts = w.amounts;
}

-- A change to a row that keeps its id, its owner and what makes it proper.
pub record Keeps (f : TxRow → TxRow) : Type 0 where
  pub id : (t : TxRow) → (f t).id ≡ t.id
  pub owner : (t : TxRow) → (f t).app_id ≡ t.app_id
  pub proper : (t : TxRow) → IsProper t → IsProper (f t)

update_row-id : (i : ℕ) (f : TxRow → TxRow) (t : TxRow) → Keeps f → (update_row i f t).id ≡ t.id
update_row-id i f t k = ground (arith, k.id t)

update_row-app_id :
    (i : ℕ) (f : TxRow → TxRow) (t : TxRow) → Keeps f → (update_row i f t).app_id ≡ t.app_id
update_row-app_id i f t k = ground (arith, k.owner t)

update_row-IsProper :
    (i : ℕ) (f : TxRow → TxRow) (t : TxRow) → Keeps f → IsProper t → IsProper (update_row i f t)
update_row-IsProper i f t k n = elim (Bool-cases (t.id == i)) [
  | inl hit ↦ rw hit (k.proper t n)
  | inr miss ↦ rw miss n
]

pub update_tx-IsWellFormed :
    (i : ℕ) (f : TxRow → TxRow) (db : Db)
    → Keeps f
    → IsWellFormed db
    → IsWellFormed (update_tx i f db)
unfolding update_tx
update_tx-IsWellFormed i f db k w = record {
  app_ids = w.app_ids;
  tx_ids =
      Descends-map TxRow.id (update_row i f) db.next_tx db.txs (λ t. update_row-id i f t k)
        w.tx_ids;
  owned = All-map (update_row i f) db.txs (λ t own. rw (update_row-app_id i f t k) own) w.owned;
  amounts = All-map (update_row i f) db.txs (λ t n. update_row-IsProper i f t k n) w.amounts;
}

pub insert_tx-IsWellFormed :
    (t : TxRow) (db : Db)
    → has_app t.app_id db.apps ≡ true
    → IsProper t
    → IsWellFormed db
    → IsWellFormed (insert_tx t db)
unfolding insert_tx
insert_tx-IsWellFormed t db own n w = record {
  app_ids = w.app_ids;
  tx_ids = (omega arith, w.tx_ids);
  owned = (own, w.owned);
  amounts = (
    record { amount = n.amount; fees = n.fees; reserve = n.reserve; unpaid = n.unpaid },
    w.amounts,
  );
}

-- What a query by id says of the balance column.
pub balance_in-found :
    (a : ℕ) (r : AppRow) (rs : List AppRow)
    → first (λ q. q.id == a) rs ≡ some r
    → balance_in a rs ≡ r.balance_msat
unfolding balance_in
balance_in-found a r [] h = cc
balance_in-found a r (q ∷ rs) h = ground (arith, balance_in-found a r rs)

pub id-found :
    (a : ℕ) (r : AppRow) (rs : List AppRow) → first (λ q. q.id == a) rs ≡ some r → r.id ≡ a
id-found a r [] h = cc
id-found a r (q ∷ rs) h = ground (arith, id-found a r rs)

pub id-found_tx :
    (i : ℕ) (t : TxRow) (txs : List TxRow) → first (λ u. u.id == i) txs ≡ some t → t.id ≡ i
id-found_tx i t [] h = cc
id-found_tx i t (u ∷ txs) h = ground (arith, id-found_tx i t txs)

pub first-holds :
    {A : Type 0} (p : A → Bool) (x : A) (xs : List A) → first p xs ≡ some x → p x ≡ true
first-holds p x [] h = cc
first-holds p x (y ∷ ys) h = elim (Bool-cases (p y)) [
  | inl here ↦ let same : y ≡ x = ground arith in subst (λ z. p z ≡ true) same here
  | inr later ↦ first-holds p x ys (ground arith)
]

first_below :
    (n : ℕ) (p : TxRow → Bool) (t : TxRow) (txs : List TxRow)
    → Descends TxRow.id n txs
    → first p txs ≡ some t
    → t.id < n
first_below n p t [] d h = cc
first_below n p t (u ∷ txs) d h = elim (Bool-cases (p u)) [
  | inl here ↦ let same : u ≡ t = ground arith in subst (λ (z : TxRow). z.id < n) same d.0
  | inr later ↦ let below : t.id < u.id = first_below u.id p t txs d.1 (ground arith) in omega arith
]

-- A row that any query finds is found again by its id.
pub find_tx_again :
    (n : ℕ) (p : TxRow → Bool) (t : TxRow) (txs : List TxRow)
    → Descends TxRow.id n txs
    → first p txs ≡ some t
    → first (λ u. u.id == t.id) txs ≡ some t
find_tx_again n p t [] d h = cc
find_tx_again n p t (u ∷ txs) d h = elim (Bool-cases (p u)) [
  | inl here ↦ ground arith
  | inr later ↦
      let below : t.id < u.id = first_below u.id p t txs d.1 (ground arith) in
      let again : first (λ v. v.id == t.id) txs ≡ some t =
        find_tx_again u.id p t txs d.1 (ground arith) in
      ground arith
]

-- What a SELECT by id reads behind an UPDATE by the same id.
pub find-update_tx :
    (i : ℕ) (f : TxRow → TxRow) (t : TxRow) (txs : List TxRow)
    → ((u : TxRow) → (f u).id ≡ u.id)
    → first (λ u. u.id == i) txs ≡ some t
    → first (λ u. u.id == i) (map (update_row i f) txs) ≡ some (f t)
find-update_tx i f t [] k h = cc
find-update_tx i f t (u ∷ txs) k h = ground (arith, k u, find-update_tx i f t txs k)

pub find-insert_tx :
    (t : TxRow) (db : Db)
    → first (λ u. u.id == db.next_tx) (insert_tx t db).txs ≡ some (record t { id = db.next_tx })
unfolding insert_tx
find-insert_tx t db = ground (arith, ==_refl db.next_tx)

-- A row as the methods insert it: without fees.
pub IsProper-new :
    (t : TxRow)
    → pos 0 ≤ℤ t.amount_msat
    → pos 0 ≤ℤ t.fee_reserve_msat
    → t.fees_paid_msat ≡ pos 0
    → IsProper t
IsProper-new t h k e = record {
  amount = h;
  fees = rw e (omega arith);
  reserve = k;
  unpaid = λ _. e;
}
