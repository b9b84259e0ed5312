-- ===== src/Store/Incoming/Once.antt =====
-- An invoice is credited once: LND's subscription and the polling of pending invoices may both report
-- the same payment.
use sovran_bitcoin.Base.{
  ℕ, String, ◌≡◌, refl, inl, inr, ◌&&◌, Bool, false, Option, some, List, [], ◌∷◌, map, first, ◌==◌,
  ==_refl, arith, Bool-cases, Option-cases,
}
use mathlib.Core.Path.{subst}
use sovran_bitcoin.Base.Int.{ℤ, ◌+ℤ◌}
use sovran_bitcoin.Base.Text.{◌=ₛ◌, lower, canonical}
use sovran_bitcoin.Store.Incoming.{
  or_int, or_default, latest_incoming, settle_row, settle_incoming_by_payment_hash,
}
use sovran_bitcoin.Store.Incoming.Sound.{settle_found_open}
use sovran_bitcoin.Store.Ledger.Drift.{balance_in-credit, only}
use sovran_bitcoin.Store.Ledger.Form.{All-first, find_tx_again}
use sovran_bitcoin.Store.Ledger.{balance_in, IsOwned, IsSound}
use sovran_bitcoin.Store.Rows.{TxRow, Db}
use sovran_bitcoin.Store.Sql.{incoming?, settled?, find_tx, credit, update_row, update_tx}

first-update :
    (p : TxRow → Bool) (f : TxRow → TxRow) (t : TxRow) (txs : List TxRow)
    → ((u : TxRow) → p (f u) ≡ p u)
    → first p txs ≡ some t
    → first p (map (update_row t.id f) txs) ≡ some (f t)
first-update p f t [] same h = cc
first-update p f t (u ∷ txs) same h = elim (Bool-cases (p u)) [
  | inl here ↦
      let found : u ≡ t = ground arith in
      subst (λ v. first p (map (update_row v.id f) (u ∷ txs)) ≡ some (f v)) found
        (ground (arith, ==_refl u.id, same u))
  | inr later ↦
      let rest : first p (map (update_row t.id f) txs) ≡ some (f t) =
        first-update p f t txs same (ground arith) in
      elim (Bool-cases (u.id == t.id)) [
        | inl hit ↦ ground (arith, same u)
        | inr miss ↦ ground arith
      ]
]

module _ (hash : String) (db : Db) (s : IsSound db) where
  again : (t : TxRow) → latest_incoming hash db ≡ some t → find_tx t.id db ≡ some t
  again t found =
      find_tx_again db.next_tx (λ u. u.payment_hash =ₛ hash && incoming? u.type) t db.txs
        s.form.tx_ids found

  still_latest :
      (amount x : ℤ) (preimage : String) (now : ℤ) (t : TxRow)
      → latest_incoming hash db ≡ some t
      → latest_incoming hash
          (update_tx t.id (settle_row amount preimage now) (credit t.app_id x db))
        ≡ some (settle_row amount preimage now t)
  unfolding update_tx credit
  still_latest amount x preimage now t found =
      first-update (λ u. u.payment_hash =ₛ hash && incoming? u.type)
        (settle_row amount preimage now) t db.txs (λ u. refl) found

-- A second report of the same payment hash, with whatever amount, preimage and times, leaves the
-- store as the first one left it, if the store was sound before.
pub settle_incoming_by_payment_hash-once :
    (hash preimage preimage' : String) (amount settled_at amount' settled_at' : Option ℤ)
    (now now' : ℤ) (db : Db)
    → IsSound db
    → let once = (settle_incoming_by_payment_hash hash amount preimage settled_at now db).1 in
      (settle_incoming_by_payment_hash hash amount' preimage' settled_at' now' once).1 ≡ once
unfolding settle_incoming_by_payment_hash
settle_incoming_by_payment_hash-once hash preimage preimage' amount settled_at amount' settled_at'
      now now' db s =
    elim (Option-cases (latest_incoming (canonical hash) db)) [
      | inl unknown ↦ rw (unknown, unknown)
      | inr (t, found) ↦ elim (Bool-cases (settled? t.state)) [
        | inl done ↦ rw (found, done, found, done)
        | inr open_row ↦ rw (
          found,
          settle_found_open preimage amount (or_int settled_at now) t db
              (again (canonical hash) db s t found) open_row,
          still_latest (canonical hash) db s (or_default amount t.amount_msat)
              (or_default amount t.amount_msat) (lower preimage) (or_int settled_at now) t found,
        )
      ]
    ]

-- In a sound store, where the newest incoming transaction with the hash is not settled yet, settling it adds the amount
-- that LND reports, or else the invoice's, to the balance of its own wallet, and changes no other
-- wallet's balance.
pub settle_incoming_by_payment_hash-credits :
    (hash preimage : String) (amount settled_at : Option ℤ) (now : ℤ) (t : TxRow) (b : ℕ) (db : Db)
    → IsSound db
    → latest_incoming (canonical hash) db ≡ some t
    → settled? t.state ≡ false
    → balance_in b (settle_incoming_by_payment_hash hash amount preimage settled_at now db).1.apps
      ≡ balance_in b db.apps +ℤ only (t.app_id == b) (or_default amount t.amount_msat)
unfolding settle_incoming_by_payment_hash credit update_tx
settle_incoming_by_payment_hash-credits hash preimage amount settled_at now t b db s found
      open_row =
    rw
      (
        found,
        settle_found_open preimage amount (or_int settled_at now) t db
            (again (canonical hash) db s t found) open_row,
      )
      (balance_in-credit t.app_id b (or_default amount t.amount_msat) db.apps (
        All-first (IsOwned db.apps) (λ u. u.payment_hash =ₛ canonical hash && incoming? u.type) t
          db.txs s.form.owned found))
