-- ===== src/Daemon/Http/Funding.antt =====
-- Funding sub-wallets over the management API never hands out more than the node's channels hold.
use sovran_bitcoin.Base.{
  ℕ, ◌≤◌, String, ◌≡◌, refl, ◌⊎◌, inl, inr, false, Option, none, some, List, [], ◌∷◌, map, ◌==◌,
  ◌&&◌, Bool-cases, Option-cases, arith,
}
use sovran_bitcoin.Base.Int.{ℤ, pos, ◌+ℤ◌, ◌≤ℤ◌, ◌<ℤ◌, leb_ℤ, ltb_ℤ, int_laws}
use sovran_bitcoin.Base.Json.{Dict}
use sovran_bitcoin.Base.Monad.{
  Exc, store_error, Result, Action, ok, raised, gets, transaction, transaction_ok,
  transaction_raised, ◌>>=◌,
}
use sovran_bitcoin.Base.Reading.{Python, text_at, optional_at}
use sovran_bitcoin.Daemon.Http.{
  Server, Fresh, Response, Reply, lift, full, on_world, reply_with, row_id, amount_at, unbacked,
  make_transfer, fund_or_move, post_transfer,
}
use sovran_bitcoin.Daemon.Lnd.{Answer, Lnd}
use sovran_bitcoin.Daemon.Tokens.{verify_token}
use sovran_bitcoin.Daemon.World.{on_store}
use sovran_bitcoin.Store.Apps.{allocated_row, allocated, total_allocated_msat}
use sovran_bitcoin.Store.Ledger.{Descends, IsSound}
use sovran_bitcoin.Store.Rows.{AppRow, TxType, Db}
use sovran_bitcoin.Store.Sql.{credit_row, credit, find_app, insert_tx}
use sovran_bitcoin.Store.Transfer.{transfer_row, debit_source, credit_destination, move, transfer}

allocated-credit_below :
    (a bound : ℕ) (x : ℤ) (rs : List AppRow)
    → Descends AppRow.id bound rs
    → bound ≤ a
    → allocated (map (credit_row a x) rs) ≡ allocated rs
unfolding allocated
allocated-credit_below a bound x [] d le = refl
allocated-credit_below a bound x (r ∷ rs) d le =
    ground (arith, allocated-credit_below a r.id x rs d.1)

credit_row-allocated_row :
    (a : ℕ) (x : ℤ) (r : AppRow)
    → pos 0 ≤ℤ x
    → allocated_row (credit_row a x r) ≤ℤ allocated_row r +ℤ x
credit_row-allocated_row a x r sign = elim (Bool-cases (r.id == a)) [
  | inl here ↦ elim (Bool-cases r.isolated) [
    | inl alone ↦ rw (here, alone) (omega int_laws)
    | inr shared ↦ rw (here, shared) (omega int_laws)
  ]
  | inr later ↦ rw later (omega int_laws)
]

-- A credit raises the total by no more than what it credits.
allocated-credit :
    (a bound : ℕ) (x : ℤ) (rs : List AppRow)
    → Descends AppRow.id bound rs
    → pos 0 ≤ℤ x
    → allocated (map (credit_row a x) rs) ≤ℤ allocated rs +ℤ x
unfolding allocated
allocated-credit a bound x [] d sign = omega int_laws
allocated-credit a bound x (r ∷ rs) d sign = elim (Bool-cases (r.id == a)) [
  | inl here ↦
      rw (allocated-credit_below a r.id x rs d.1 (ground arith))
        (omega (int_laws, credit_row-allocated_row a x r sign))
  | inr later ↦ rw later (omega (int_laws, allocated-credit a r.id x rs d.1 sign))
]

-- A transfer from the node.
module _ (a : ℕ) (amount : ℤ) (description : String) (now : ℤ) (db : Db) where
  abbrev funded : Db
  funded = insert_tx (transfer_row TxType.incoming a amount description now) (credit a amount db)

  abbrev missing : Exc
  missing = store_error "not_found" "Destination app not found" 404

  moved :
      (r : AppRow)
      → find_app a db ≡ some r
      → transaction (move none (some a) amount description now) db ≡ (ok tt, funded)
  unfolding move debit_source credit_destination insert_tx credit
  moved r known =
      transaction_ok (move none (some a) amount description now) db funded tt (rw (known, known))

  unmoved :
      find_app a db ≡ none
      → transaction (move none (some a) amount description now) db ≡ (raised missing, db)
  unfolding move debit_source credit_destination
  unmoved unknown =
      transaction_raised (move none (some a) amount description now) db db missing
        (rw (unknown, unknown))

  -- What the store looks like behind it.
  after_transfer :
      ((transfer none (some a) amount description now db).1 ≡ db)
      ⊎ ((transfer none (some a) amount description now db).1 ≡ funded) × (pos 0 ≤ℤ amount)
  unfolding transfer
  after_transfer = elim (Bool-cases (leb_ℤ amount (pos 0))) [
    | inl bad ↦ inl (rw bad)
    | inr positive ↦ elim (Option-cases (find_app a db)) [
      | inl unknown ↦ inl (rw (positive, unmoved unknown, unmoved unknown))
      | inr (r, known) ↦ inr (rw (positive, moved r known, moved r known), ground arith)
    ]
  ]

  transfer-total :
      (most : ℤ)
      → IsSound db
      → total_allocated_msat db ≤ℤ most
      → total_allocated_msat db +ℤ amount ≤ℤ most
      → total_allocated_msat (transfer none (some a) amount description now db).1 ≤ℤ most
  unfolding total_allocated_msat insert_tx credit
  transfer-total most s before room = elim after_transfer [
    | inl same ↦ rw same before
    | inr (same, sign) ↦
        rw same
          (omega (int_laws, allocated-credit a db.next_app amount db.apps s.form.app_ids sign))
  ]

module _ (py : Python) (lnd : Lnd) (fresh : Fresh) (local : ℤ) where
  abbrev IsBacked : Server → Type 0
  IsBacked s = total_allocated_msat s.world.db ≤ℤ local

  make_transfer-IsBacked :
      (to amount : ℤ) (description : String) (s : Server)
      → IsSound s.world.db
      → IsBacked s
      → total_allocated_msat s.world.db +ℤ amount ≤ℤ local
      → IsBacked (make_transfer none (some to) amount description fresh.now s).1
  make_transfer-IsBacked to amount description s sound before room =
      answered (transfer none (some (row_id to s.world.db)) amount description fresh.now s.world.db)
        (transfer-total (row_id to s.world.db) amount description fresh.now s.world.db local sound
          before room)
    where
      answered :
          (x : Result ℤ × Db)
          → total_allocated_msat x.1 ≤ℤ local
          → IsBacked
              ((on_world (on_store (λ db. x)) >>= λ moved. reply_with 200 (Reply.transferred moved))
                s).1
      answered (ok z, db) h = h
      answered (raised e, db) h = h

  no_target :
      (amount : ℤ) (description : String) (s : Server)
      → (make_transfer none none amount description fresh.now s).1 ≡ s
  unfolding transfer
  no_target amount description s = elim (Bool-cases (leb_ℤ amount (pos 0))) [
    | inl bad ↦ rw bad
    | inr positive ↦ rw positive
  ]

  room_of :
      (wanted : ℤ)
      → pos 0 <ℤ local
      → (ltb_ℤ (pos 0) local && ltb_ℤ local wanted) ≡ false
      → wanted ≤ℤ local
  room_of wanted rich h = ground arith

  fund-IsBacked :
      (to : Option ℤ) (amount : ℤ) (description : String) (s : Server)
      → lnd.get_channel_balance_msat ≡ Answer.answered local
      → pos 0 <ℤ local
      → IsSound s.world.db
      → IsBacked s
      → IsBacked
          (fund_or_move
            (unbacked lnd none to amount s.world.db)
            none
            to
            amount
            description
            fresh.now
            s).1
  fund-IsBacked none amount description s answer rich sound before =
      rw (no_target amount description s) before
  fund-IsBacked (some to) amount description s answer rich sound before =
      elim (Bool-cases (unbacked lnd none (some to) amount s.world.db)) [
        | inl refused ↦ rw refused before
        | inr fine ↦ rw fine (
            make_transfer-IsBacked to amount description s sound before
              (room_of (total_allocated_msat s.world.db +ℤ amount) rich (rw answer at fine)))
      ]

  lift-IsBacked :
      {A : Type 0} (r : Result A) (f : A → Action Server Response) (s : Server)
      → IsBacked s
      → ((a : A) → r ≡ ok a → IsBacked (f a s).1)
      → IsBacked ((lift r >>= f) s).1
  lift-IsBacked (ok a) f s before h = h a refl
  lift-IsBacked (raised e) f s before h = before

  -- Where LND answers with a positive channel balance and the isolated sub-wallets together hold no
  -- more than that, a POST to /api/transfers that names no source, whatever its token, its target, its
  -- amount and its other fields, leaves them with no more than that, whether it is carried out or
  -- refused or raises. (The store is sound.)
  pub post_transfer-IsBacked :
      (auth : Option String) (d : Dict) (s : Server)
      → optional_at "fromAppId" d ≡ ok none
      → lnd.get_channel_balance_msat ≡ Answer.answered local
      → pos 0 <ℤ local
      → IsSound s.world.db
      → total_allocated_msat s.world.db ≤ℤ local
      → total_allocated_msat (post_transfer py lnd fresh auth d s).1.world.db ≤ℤ local
  unfolding post_transfer
  post_transfer-IsBacked auth d s from_node answer rich sound before =
      let text = text_at py "description" "" d in
      let last = λ (amount : ℤ) (from : Option ℤ) (to : Option ℤ).
        gets (λ s. unbacked lnd from to amount s.world.db) >>= λ refused.
        fund_or_move refused from to amount text fresh.now in
      let source = optional_at "fromAppId" d in
      let target = optional_at "toAppId" d in
      let read_target = λ (amount : ℤ) (from : Option ℤ). lift target >>= last amount from in
      let read_source = λ (amount : ℤ). lift source >>= read_target amount in
      let read_amount = λ (msat : Option ℤ). lift (amount_at msat d) >>= read_source in
      lift-IsBacked (verify_token auth full s.tokens)
        (λ _. lift (optional_at "amountMsat" d) >>= read_amount) s before
        λ perm e. lift-IsBacked (optional_at "amountMsat" d) read_amount s before λ msat e.
          lift-IsBacked (amount_at msat d) read_source s before λ amount e. rw from_node (
            lift-IsBacked target (last amount none) s before
              λ to e. fund-IsBacked to amount text s answer rich sound before)
