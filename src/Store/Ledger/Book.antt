-- ===== src/Store/Ledger/Book.antt =====
-- The three ways in which the methods move money keep the invariant: a booking writes a new
-- transaction, a rebooking changes one, and an internal payment does both.
use sovran_bitcoin.Base.{
  ℕ, ◌≡◌, ap, ◌∙◌, inl, inr, Bool, true, false, some, ◌==◌, ==_iff, Bool-cases,
}
use mathlib.Core.Path.{subst}
use sovran_bitcoin.Base.Int.{ℤ, pos, ◌+ℤ◌, ◌-ℤ◌, ◌≤ℤ◌, int_laws}
use sovran_bitcoin.Store.Ledger.Drift.{
  only, balance_in-credit, drift-credit, drift-insert_tx, drift-update_tx,
}
use sovran_bitcoin.Store.Ledger.Form.{
  Keeps, All-first, has_app-credit, credit-IsWellFormed, update_tx-IsWellFormed,
  insert_tx-IsWellFormed,
}
use sovran_bitcoin.Store.Ledger.{entry, balance_in, drift, has_app, IsOwned, IsProper, IsSound}
use sovran_bitcoin.Store.Rows.{TxRow, Db}
use sovran_bitcoin.Store.Sql.{find_tx, credit, debit, update_tx, insert_tx}

-- A wallet whose balance stays at zero or more leaves all balances there.
funded-credit :
    (a : ℕ) (x : ℤ) (db : Db)
    → has_app a db.apps ≡ true
    → pos 0 ≤ℤ balance_in a db.apps +ℤ x
    → ((b : ℕ) → pos 0 ≤ℤ balance_in b db.apps)
    → (b : ℕ) → pos 0 ≤ℤ balance_in b (credit a x db).apps
unfolding credit
funded-credit a x db own enough funded b = elim (Bool-cases (a == b)) [
  | inl same ↦ rw (balance_in-credit a b x db.apps own) (
      rw (same, only)
        (subst (λ c. pos 0 ≤ℤ balance_in c db.apps +ℤ x) ((==_iff a b).0 same) enough))
  | inr other ↦
      rw (balance_in-credit a b x db.apps own) (rw (other, only) (omega (int_laws, funded b)))
]

has_app-in_credit :
    (a b : ℕ) (x : ℤ) (db : Db) → has_app b db.apps ≡ true → has_app b (credit a x db).apps ≡ true
unfolding credit
has_app-in_credit a b x db own = rw (has_app-credit a b x db.apps) own

settle_up : (d x y : ℤ) → d ≡ pos 0 → x ≡ y → (b : Bool) → d +ℤ only b x -ℤ only b y ≡ pos 0
settle_up d x y e h true = rw (e, h, only) (omega int_laws)
settle_up d x y e h false = rw (e, only) (omega int_laws)

nothing : (d x : ℤ) → d ≡ pos 0 → x ≡ pos 0 → (b : Bool) → d -ℤ only b x ≡ pos 0
nothing d x e h true = rw (e, h, only) (omega int_laws)
nothing d x e h false = rw (e, only) (omega int_laws)

settle_both :
    (d x y z : ℤ)
    → d ≡ pos 0
    → x ≡ y
    → pos 0 -ℤ x ≡ z
    → (b c : Bool) → d +ℤ only b (pos 0 -ℤ x) +ℤ only c x -ℤ only c y -ℤ only b z ≡ pos 0
settle_both d x y z e h k true true = rw (e, ← h, ← k, only) (omega int_laws)
settle_both d x y z e h k true false = rw (e, ← k, only) (omega int_laws)
settle_both d x y z e h k false true = rw (e, ← h, only) (omega int_laws)
settle_both d x y z e h k false false = rw (e, only) (omega int_laws)

pub book-IsSound :
    (x : ℤ) (t : TxRow) (db : Db)
    → has_app t.app_id db.apps ≡ true
    → pos 0 ≤ℤ balance_in t.app_id db.apps +ℤ x
    → IsProper t
    → x ≡ entry t
    → IsSound db
    → IsSound (insert_tx t (credit t.app_id x db))
unfolding insert_tx
book-IsSound x t db own enough n e s = record {
  form =
      insert_tx-IsWellFormed t (credit t.app_id x db) (has_app-in_credit t.app_id t.app_id x db own)
        n (credit-IsWellFormed t.app_id x db s.form);
  balanced = λ b.
      drift-insert_tx b t (credit t.app_id x db)
      ∙ ap (λ d. d -ℤ only (t.app_id == b) (entry t)) (drift-credit t.app_id b x db own)
      ∙ settle_up (drift b db) x (entry t) (s.balanced b) e (t.app_id == b);
  funded = funded-credit t.app_id x db own enough s.funded;
}

-- A new transaction that moves nothing yet.
pub note-IsSound :
    (t : TxRow) (db : Db)
    → has_app t.app_id db.apps ≡ true
    → IsProper t
    → entry t ≡ pos 0
    → IsSound db
    → IsSound (insert_tx t db)
unfolding insert_tx
note-IsSound t db own n e s = record {
  form = insert_tx-IsWellFormed t db own n s.form;
  balanced =
      λ b. drift-insert_tx b t db ∙ nothing (drift b db) (entry t) (s.balanced b) e (t.app_id == b);
  funded = s.funded;
}

pub rebook-IsSound :
    (i : ℕ) (x : ℤ) (f : TxRow → TxRow) (t : TxRow) (db : Db)
    → find_tx i db ≡ some t
    → pos 0 ≤ℤ balance_in t.app_id db.apps +ℤ x
    → Keeps f
    → x ≡ entry (f t) -ℤ entry t
    → IsSound db
    → IsSound (update_tx i f (credit t.app_id x db))
unfolding update_tx credit
rebook-IsSound i x f t db found enough k e s = record {
  form =
      update_tx-IsWellFormed i f (credit t.app_id x db) k
        (credit-IsWellFormed t.app_id x db s.form);
  balanced = λ b.
      drift-update_tx b i f t (credit t.app_id x db) s.form.tx_ids found (k.owner t)
      ∙ ap (λ d. d -ℤ only (t.app_id == b) (entry (f t) -ℤ entry t))
          (drift-credit t.app_id b x db own)
      ∙ settle_up (drift b db) x (entry (f t) -ℤ entry t) (s.balanced b) e (t.app_id == b);
  funded = funded-credit t.app_id x db own enough s.funded;
}
  where
    own : has_app t.app_id db.apps ≡ true
    own = All-first (IsOwned db.apps) (λ u. u.id == i) t db.txs s.form.owned found

-- The payer's wallet pays `x`, another wallet (or the same) receives it through its waiting row `t`,
-- and the payer's new transaction `u` says so.
pub internal-IsSound :
    (i : ℕ) (x : ℤ) (f : TxRow → TxRow) (t u : TxRow) (db : Db)
    → find_tx i db ≡ some t
    → has_app u.app_id db.apps ≡ true
    → pos 0 ≤ℤ x
    → x ≤ℤ balance_in u.app_id db.apps
    → Keeps f
    → IsProper u
    → x ≡ entry (f t) -ℤ entry t
    → pos 0 -ℤ x ≡ entry u
    → IsSound db
    → IsSound (insert_tx u (update_tx i f (credit t.app_id x (debit u.app_id x db))))
unfolding update_tx credit insert_tx
internal-IsSound i x f t u db found payer sign enough k n e e' s = record {
  form = insert_tx-IsWellFormed u (update_tx i f paid) payer' n (
      update_tx-IsWellFormed i f paid k (
        credit-IsWellFormed t.app_id x left (credit-IsWellFormed u.app_id (pos 0 -ℤ x) db s.form)));
  balanced = λ b.
      drift-insert_tx b u (update_tx i f paid)
      ∙ ap (λ d. d -ℤ only (u.app_id == b) (entry u))
          (drift-update_tx b i f t paid s.form.tx_ids found (k.owner t)
            ∙ ap (λ d. d -ℤ only (t.app_id == b) (entry (f t) -ℤ entry t))
                (drift-credit t.app_id b x left payee'
                  ∙ ap (λ d. d +ℤ only (t.app_id == b) x)
                      (drift-credit u.app_id b (pos 0 -ℤ x) db payer)))
      ∙ settle_both (drift b db) x (entry (f t) -ℤ entry t) (entry u) (s.balanced b) e e'
          (u.app_id == b) (t.app_id == b);
  funded =
      funded-credit t.app_id x left payee' (omega (int_laws, left_funded t.app_id)) left_funded;
}
  where
    left : Db
    left = debit u.app_id x db

    paid : Db
    paid = credit t.app_id x left

    payee : has_app t.app_id db.apps ≡ true
    payee = All-first (IsOwned db.apps) (λ v. v.id == i) t db.txs s.form.owned found

    payee' : has_app t.app_id left.apps ≡ true
    payee' = has_app-in_credit u.app_id t.app_id (pos 0 -ℤ x) db payee

    payer' : has_app u.app_id paid.apps ≡ true
    payer' =
        has_app-in_credit t.app_id u.app_id x left
          (has_app-in_credit u.app_id u.app_id (pos 0 -ℤ x) db payer)

    left_funded : (b : ℕ) → pos 0 ≤ℤ balance_in b left.apps
    left_funded = funded-credit u.app_id (pos 0 -ℤ x) db payer (omega int_laws) s.funded
