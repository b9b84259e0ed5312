-- ===== src/Store/Outgoing/Cases.antt =====
-- What the steps of an outgoing payment do, case by case: each raises and writes nothing, or passes
-- its checks and writes one thing.
use sovran_bitcoin.Base.{
  ℕ, ◌≡◌, refl, sym, ◌∙◌, ◌⊎◌, inl, inr, Option, none, some, Bool-cases, Option-cases,
}
use mathlib.Core.Path.{subst}
use sovran_bitcoin.Base.Int.{ℤ, pos, ◌+ℤ◌, ◌*ℤ◌, ◌≤ℤ◌, ltb_ℤ, leb_ℤ, le_of_not-ltb, le_of_leb}
use sovran_bitcoin.Base.Monad.{Exc, Result, Action, transaction, ok, raised, ◌>>◌, ◌>>=◌}
use sovran_bitcoin.Base.Text.{canonical}
use sovran_bitcoin.Store.Outgoing.{
  spent, quota_exceeded, check_budget, Purpose, internal_row, external_row, find_internal,
  settle_internal, pay_from, insufficient, insufficient_with_fees, filed, attempt, wallet_not_found,
  reserve_outgoing_payment,
}
use sovran_bitcoin.Store.Rows.{AppRow, TxRow, Db}
use sovran_bitcoin.Store.Sql.{find_app, credit, debit, update_tx, insert_tx}

-- An outcome that raises and leaves the store as it was.
abbrev pub Refused : {A : Type 0} → Result A × Db → Db → Type 0
Refused x db = (e : Exc) × (x ≡ (raised e, db))

-- `x` more is within the wallet's budget, or the wallet has none.
abbrev pub Allows : AppRow → ℤ → Db → Type 0
Allows app x db =
    (app.max_amount_sat ≤ℤ pos 0) ⊎ (spent app.id db.txs +ℤ x ≤ℤ app.max_amount_sat *ℤ 1000)

pub check_budget-cases :
    (app : AppRow) (x : ℤ) (db : Db)
    → (Allows app x db × (check_budget app x db ≡ (ok tt, db))) ⊎ Refused (check_budget app x db) db
unfolding check_budget
check_budget-cases app x db = elim (Bool-cases (leb_ℤ app.max_amount_sat (pos 0))) [
  | inl unlimited ↦ inl (inl (le_of_leb app.max_amount_sat (pos 0) unlimited), rw unlimited)
  | inr capped ↦ elim (Bool-cases (ltb_ℤ (app.max_amount_sat *ℤ 1000) (spent app.id db.txs +ℤ x))) [
    | inl over ↦ inr (quota_exceeded, rw (capped, over))
    | inr within ↦ inl (
      inr (le_of_not-ltb (app.max_amount_sat *ℤ 1000) (spent app.id db.txs +ℤ x) within),
      rw (capped, within),
    )
  ]
]

module _ (app : AppRow) (amount reserve : ℤ) (p : Purpose) (now : ℤ) (db : Db) where
  -- The state behind a payment that goes out to the network.
  abbrev pub held : Db
  held = insert_tx (external_row app.id amount reserve p now) (debit app.id (amount +ℤ reserve) db)

  pub pay_outside-cases :
      (Allows app (amount +ℤ reserve) db
        × (amount +ℤ reserve ≤ℤ app.balance_msat)
        × (pay_from app none amount reserve p now db ≡ (ok (db.next_tx, none), held)))
      ⊎ Refused (pay_from app none amount reserve p now db) db
  unfolding pay_from insert_tx credit
  pay_outside-cases = elim (Bool-cases (ltb_ℤ app.balance_msat (amount +ℤ reserve))) [
    | inl short ↦ inr (insufficient_with_fees, rw short)
    | inr enough ↦ elim (check_budget-cases app (amount +ℤ reserve) db) [
      | inr (e, over) ↦ inr (e, rw (enough, ◌>>◌, ◌>>=◌, over, over))
      | inl (allows, within) ↦ inl (
        allows,
        le_of_not-ltb app.balance_msat (amount +ℤ reserve) enough,
        rw (enough, ◌>>◌, ◌>>=◌, within, within),
      )
    ]
  ]

  module _ (inc : TxRow) where
    -- The state behind a payment between two wallets of the node.
    abbrev pub moved : Db
    moved = insert_tx (internal_row app.id amount p inc.preimage now) (
        update_tx inc.id (settle_internal amount now)
          (credit inc.app_id amount (debit app.id amount db)))

    pub pay_inside-cases :
        (Allows app amount db
          × (amount ≤ℤ app.balance_msat)
          × (pay_from app (some inc) amount reserve p now db
              ≡ (ok (db.next_tx, some inc.app_id), moved)))
        ⊎ Refused (pay_from app (some inc) amount reserve p now db) db
    unfolding pay_from insert_tx credit update_tx
    pay_inside-cases = elim (Bool-cases (ltb_ℤ app.balance_msat amount)) [
      | inl short ↦ inr (insufficient, rw short)
      | inr enough ↦ elim (check_budget-cases app amount db) [
        | inr (e, over) ↦ inr (e, rw (enough, ◌>>◌, ◌>>=◌, over, over))
        | inl (allows, within) ↦ inl (
          allows,
          le_of_not-ltb app.balance_msat amount enough,
          rw (enough, ◌>>◌, ◌>>=◌, within, within),
        )
      ]
    ]

-- How a reservation ends: it is refused, or it pays outside, or inside.
pub data Reserved (a : ℕ) (amount reserve : ℤ) (p : Purpose) (now : ℤ) (db : Db)
    : Result (ℕ × Option ℕ) × Db → Type 0 where
  refused : (e : Exc) → Reserved a amount reserve p now db (raised e, db)
  outside :
      (app : AppRow)
      → find_app a db ≡ some app
      → find_internal (canonical p.payment_hash) db ≡ none
      → Allows app (amount +ℤ reserve) db
      → amount +ℤ reserve ≤ℤ app.balance_msat
      → Reserved a amount reserve p now db
          (ok (db.next_tx, none), held app amount reserve (filed p) now db)
  inside :
      (app : AppRow) (inc : TxRow)
      → find_app a db ≡ some app
      → find_internal (canonical p.payment_hash) db ≡ some inc
      → Allows app amount db
      → amount ≤ℤ app.balance_msat
      → Reserved a amount reserve p now db
          (ok (db.next_tx, some inc.app_id), moved app amount reserve (filed p) now db inc)

-- COMMIT and ROLLBACK agree with an attempt that writes nothing when it raises.
transaction_lem :
    {A : Type 0} (m : Action Db A) (db : Db)
    → (x : Result A × Db) → m db ≡ x
    → (x.1 ≡ db) ⊎ ((a : A) × (x.0 ≡ ok a))
    → transaction m db ≡ x
transaction_lem m db (ok a, db') e h = rw (e, transaction, e)
transaction_lem m db (raised q, db') e (inl same) = rw (e, transaction, same)
transaction_lem m db (raised q, db') e (inr (a, no_way)) = cc

module _ (a : ℕ) (amount reserve : ℤ) (p : Purpose) (now : ℤ) (db : Db) where
  abbrev Ends : Result (ℕ × Option ℕ) × Db → Type 0
  Ends = Reserved a amount reserve p now db

  committed :
      (x : Result (ℕ × Option ℕ) × Db)
      → attempt a amount reserve p now db ≡ x
      → (x.1 ≡ db) ⊎ ((r : ℕ × Option ℕ) × (x.0 ≡ ok r))
      → Ends x
      → Ends (reserve_outgoing_payment a amount reserve p now db)
  unfolding reserve_outgoing_payment
  committed x e h k = subst Ends (sym (transaction_lem (attempt a amount reserve p now) db x e h)) k

  attempt_found :
      (app : AppRow)
      → find_app a db ≡ some app
      → attempt a amount reserve p now db
        ≡ pay_from app (find_internal (canonical p.payment_hash) db) amount reserve (filed p) now db
  unfolding attempt
  attempt_found app found = rw found

  attempt_unknown :
      find_app a db ≡ none → attempt a amount reserve p now db ≡ (raised wallet_not_found, db)
  unfolding attempt
  attempt_unknown unknown = rw unknown

  reserve_for :
      (app : AppRow) (inc : Option TxRow)
      → find_app a db ≡ some app
      → find_internal (canonical p.payment_hash) db ≡ inc
      → Ends (reserve_outgoing_payment a amount reserve p now db)
  reserve_for app none found external =
      elim (pay_outside-cases app amount reserve (filed p) now db) [
        | inl (allows, enough, done) ↦
            committed _ (attempt_found app found ∙ rw external done) (inr (_, refl))
              (Reserved.outside app found external allows enough)
        | inr (e, no_pay) ↦
            committed _ (attempt_found app found ∙ rw external no_pay) (inl refl)
              (Reserved.refused e)
      ]
  reserve_for app (some inc) found waiting =
      elim (pay_inside-cases app amount reserve (filed p) now db inc) [
        | inl (allows, enough, done) ↦
            committed _ (attempt_found app found ∙ rw waiting done) (inr (_, refl))
              (Reserved.inside app inc found waiting allows enough)
        | inr (e, no_pay) ↦
            committed _ (attempt_found app found ∙ rw waiting no_pay) (inl refl)
              (Reserved.refused e)
      ]

  -- A reservation ends in one of three ways. It raises and writes nothing; or it goes out: the wallet
  -- exists, no invoice of the node waits for the hash, budget and balance cover the amount and the fee
  -- reserve, and both are taken from the balance; or it stays inside: the newest waiting invoice with
  -- the hash is settled, budget and balance cover the amount, which moves to the invoice's wallet.
  pub reserve-Reserved :
      Reserved a amount reserve p now db (reserve_outgoing_payment a amount reserve p now db)
  reserve-Reserved = elim (Option-cases (find_app a db)) [
    | inl unknown ↦
        committed _ (attempt_unknown unknown) (inl refl) (Reserved.refused wallet_not_found)
    | inr (app, found) ↦ reserve_for app (find_internal (canonical p.payment_hash) db) found refl
  ]
