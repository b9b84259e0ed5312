-- ===== src/Store/Transfer/Effect.antt =====
-- What a transfer between two sub-wallets does, or that it raises and writes nothing.
use sovran_bitcoin.Base.{
  ℕ, String, ◌≡◌, refl, ◌∙◌, ◌⊎◌, inl, inr, true, false, none, some, map, Bool-cases, Option-cases,
}
use sovran_bitcoin.Base.Int.{
  ℤ, pos, ◌-ℤ◌, ◌≤ℤ◌, ◌<ℤ◌, leb_ℤ, ltb_ℤ, int_laws, le_of_not-ltb, lt_of_not-leb,
}
use sovran_bitcoin.Base.Monad.{
  Exc, store_error, Result, Action, ok, raised, pure, transaction, bind_ok, bind_raised,
  transaction_ok, transaction_raised,
}
use sovran_bitcoin.Store.Ledger.Form.{has_app-credit, credit-IsWellFormed}
use sovran_bitcoin.Store.Ledger.Pool.{pool, pool-credit_row, find-credit-none, find-credit-some}
use sovran_bitcoin.Store.Ledger.{has_app, IsSound}
use sovran_bitcoin.Store.Outgoing.Cases.{Refused}
use sovran_bitcoin.Store.Rows.{AppRow, TxType, Db}
use sovran_bitcoin.Store.Sql.{credit_row, find_app, credit, debit, insert_tx}
use sovran_bitcoin.Store.Transfer.{transfer_row, debit_source, credit_destination, move, transfer}

module _ (a b : ℕ) (amount : ℤ) (description : String) (now : ℤ) (db : Db) where
  -- The state behind the debit, and the state behind both halves.
  abbrev pub taken_out : Db
  taken_out = insert_tx (transfer_row TxType.outgoing a amount description now) (debit a amount db)

  abbrev pub handed_over : Db
  handed_over =
      insert_tx (transfer_row TxType.incoming b amount description now) (credit b amount taken_out)

  -- A transfer that does what it was asked to.
  abbrev pub Transferred : Result ℤ × Db → Type 0
  Transferred x =
      (pos 0 <ℤ amount)
      × (has_app b db.apps ≡ true)
      × ((r : AppRow) × (find_app a db ≡ some r) × (amount ≤ℤ r.balance_msat))
      × (x ≡ (ok amount, handed_over))

  abbrev Outcome : Type 0
  Outcome =
      Transferred (transfer (some a) (some b) amount description now db)
      ⊎ Refused (transfer (some a) (some b) amount description now db) db

  no_source : Exc
  no_source = store_error "not_found" "Source app not found" 404

  no_destination : Exc
  no_destination = store_error "not_found" "Destination app not found" 404

  short_of : Exc
  short_of = store_error "insufficient_balance" "Source wallet has insufficient balance" 400

  debited :
      (r : AppRow)
      → find_app a db ≡ some r
      → ltb_ℤ r.balance_msat amount ≡ false
      → debit_source (some a) amount description now db ≡ (ok tt, taken_out)
  unfolding debit_source insert_tx credit
  debited r source enough = rw (source, enough)

  not_debited :
      (r : AppRow)
      → find_app a db ≡ some r
      → ltb_ℤ r.balance_msat amount ≡ true
      → debit_source (some a) amount description now db ≡ (raised short_of, db)
  unfolding debit_source short_of
  not_debited r source short = rw (source, short)

  no_debit :
      find_app a db ≡ none
      → debit_source (some a) amount description now db ≡ (raised no_source, db)
  unfolding debit_source no_source
  no_debit unknown = rw unknown

  credited :
      (q : AppRow)
      → find_app b db ≡ some q
      → credit_destination (some b) amount description now taken_out ≡ (ok tt, handed_over)
  unfolding credit_destination insert_tx
  credited q target = rw (find-credit-some a b (pos 0 -ℤ amount) q db target)

  no_credit :
      find_app b db ≡ none
      → credit_destination (some b) amount description now taken_out
        ≡ (raised no_destination, taken_out)
  unfolding credit_destination no_destination insert_tx
  no_credit unknown = rw (find-credit-none a b (pos 0 -ℤ amount) db unknown)

  abbrev both : Action Db (Unit {0})
  both = move (some a) (some b) amount description now

  then_credit :
      (x : Result (Unit {0}) × Db)
      → debit_source (some a) amount description now db ≡ (ok tt, taken_out)
      → credit_destination (some b) amount description now taken_out ≡ x
      → both db ≡ x
  unfolding move
  then_credit x out back =
      bind_ok (debit_source (some a) amount description now) db taken_out
        (λ _. credit_destination (some b) amount description now) tt out
      ∙ back

  refused :
      (e : Exc) (s : Db)
      → leb_ℤ amount (pos 0) ≡ false
      → both db ≡ (raised e, s)
      → transfer (some a) (some b) amount description now db ≡ (raised e, db)
  unfolding transfer
  refused e s positive h =
      rw positive (
        bind_raised (transaction both) db db (λ _. pure amount) e
          (transaction_raised both db s e h))

  completed :
      leb_ℤ amount (pos 0) ≡ false
      → both db ≡ (ok tt, handed_over)
      → transfer (some a) (some b) amount description now db ≡ (ok amount, handed_over)
  unfolding transfer
  completed positive h = rw positive (
      bind_ok (transaction both) db handed_over (λ _. pure amount) tt
        (transaction_ok both db handed_over tt h))

  not_moved :
      (e : Exc)
      → leb_ℤ amount (pos 0) ≡ false
      → debit_source (some a) amount description now db ≡ (raised e, db)
      → Outcome
  unfolding move
  not_moved e positive h = inr (
    e,
    refused e db positive (
        bind_raised (debit_source (some a) amount description now) db db
          (λ _. credit_destination (some b) amount description now) e h),
  )

  with_funds :
      (r : AppRow)
      → find_app a db ≡ some r
      → leb_ℤ amount (pos 0) ≡ false
      → ltb_ℤ r.balance_msat amount ≡ false
      → Outcome
  with_funds r source positive enough = elim (Option-cases (find_app b db)) [
    | inl unknown ↦ inr (
      no_destination,
      refused no_destination taken_out positive
          (then_credit _ (debited r source enough) (no_credit unknown)),
    )
    | inr (q, target) ↦ inl (
      lt_of_not-leb amount (pos 0) positive,
      rw target refl,
      (r, source, le_of_not-ltb r.balance_msat amount enough),
      completed positive (then_credit _ (debited r source enough) (credited q target)),
    )
  ]

  bad_amount :
      leb_ℤ amount (pos 0) ≡ true
      → transfer (some a) (some b) amount description now db
        ≡ (raised (store_error "invalid_amount" "Transfer amount must be positive" 400), db)
  unfolding transfer
  bad_amount bad = rw bad

  -- A transfer between two wallets raises and writes nothing, or its amount is positive and covered
  -- by the source, both wallets exist, and both balances and both transactions are written.
  pub transfer-cases :
      Transferred (transfer (some a) (some b) amount description now db)
      ⊎ Refused (transfer (some a) (some b) amount description now db) db
  transfer-cases = elim (Bool-cases (leb_ℤ amount (pos 0))) [
    | inl bad ↦
        inr (store_error "invalid_amount" "Transfer amount must be positive" 400, bad_amount bad)
    | inr positive ↦ elim (Option-cases (find_app a db)) [
      | inl unknown ↦ not_moved no_source positive (no_debit unknown)
      | inr (r, source) ↦ elim (Bool-cases (ltb_ℤ r.balance_msat amount)) [
        | inl short ↦ not_moved short_of positive (not_debited r source short)
        | inr enough ↦ with_funds r source positive enough
      ]
    ]
  ]

  pool-handed_over :
      IsSound db
      → has_app a db.apps ≡ true
      → has_app b db.apps ≡ true
      → pool handed_over.apps ≡ pool db.apps
  unfolding insert_tx credit
  pool-handed_over s from to =
      rw
        (
          pool-credit_row b db.next_app amount (map (credit_row a (pos 0 -ℤ amount)) db.apps)
              (credit-IsWellFormed a (pos 0 -ℤ amount) db s.form).app_ids
              (rw (has_app-credit a b (pos 0 -ℤ amount) db.apps) to),
          pool-credit_row a db.next_app (pos 0 -ℤ amount) db.apps s.form.app_ids from,
        )
        (omega int_laws)

-- In a sound store, a transfer between two wallets never changes the sum of all balances, whatever its arguments, also
-- when it raises.
pub transfer-pool :
    (a b : ℕ) (amount : ℤ) (description : String) (now : ℤ) (db : Db)
    → IsSound db
    → pool (transfer (some a) (some b) amount description now db).1.apps ≡ pool db.apps
transfer-pool a b amount description now db s =
    elim (transfer-cases a b amount description now db) [
      | inr (e, refusal) ↦ rw refusal
      | inl (positive, to, (r, source, enough), done) ↦
          rw done (pool-handed_over a b amount description now db s (rw source refl) to)
    ]
