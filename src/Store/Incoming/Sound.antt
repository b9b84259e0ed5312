-- ===== src/Store/Incoming/Sound.antt =====
-- Recording and settling invoices keeps the invariant of the store.
use sovran_bitcoin.Base.{
  ℕ, String, ◌≡◌, refl, inl, inr, ◌&&◌, Bool, true, false, Option, none, some, List, [], ◌∷◌, map,
  arith, Bool-cases, Option-cases,
}
use sovran_bitcoin.Base.Int.{ℤ, pos, ◌-ℤ◌, ◌≤ℤ◌, int_laws}
use sovran_bitcoin.Base.Text.{◌=ₛ◌, nonempty, lower, canonical}
use sovran_bitcoin.Store.Incoming.{
  invoice_row, record_incoming_invoice, or_int, or_default, latest_incoming, settle_row,
  settle_found, settle_incoming_by_payment_hash, set_preimage, set_preimage_for_hash,
}
use sovran_bitcoin.Store.Ledger.Book.{note-IsSound, rebook-IsSound}
use sovran_bitcoin.Store.Ledger.Form.{
  Keeps, All-first, All-map, Descends-map, find-update_tx, find-insert_tx, first-holds,
  find_tx_again, IsProper-new,
}
use sovran_bitcoin.Store.Ledger.{entry, share, ledger, drift, IsProper, IsSound}
use sovran_bitcoin.Store.Rows.{AppRow, TxRow, Db, tx_dict}
use sovran_bitcoin.Base.Monad.{ok}
use sovran_bitcoin.Store.Sql.{incoming?, settled?, find_app, find_tx, credit, update_tx, insert_tx}

and_right : (a b : Bool) → (a && b) ≡ true → b ≡ true
and_right a b h = ground arith

settle_row-Keeps :
    (z : ℤ) (preimage : String) (now : ℤ) → pos 0 ≤ℤ z → Keeps (settle_row z preimage now)
settle_row-Keeps z preimage now h = record {
  id = λ t. refl;
  owner = λ t. refl;
  proper =
      λ t n. record { amount = h; fees = n.fees; reserve = n.reserve; unpaid = λ e. absurd (cc) };
}

-- An amount that LND reports, if it reports one.
abbrev pub IsNonnegAmount : Option ℤ → Type 0
IsNonnegAmount none = Unit
IsNonnegAmount (some z) = pos 0 ≤ℤ z

or_default-nonneg : (o : Option ℤ) (z : ℤ) → IsNonnegAmount o → pos 0 ≤ℤ z → pos 0 ≤ℤ or_default o z
or_default-nonneg none z h k = k
or_default-nonneg (some x) z h k = h

settle_gain :
    (z : ℤ) (preimage : String) (now : ℤ) (t : TxRow)
    → incoming? t.type ≡ true
    → settled? t.state ≡ false
    → z ≡ entry (settle_row z preimage now t) -ℤ entry t
unfolding entry
settle_gain z preimage now t i s = grind int_laws

-- What settling a row that is not settled does: the row and its wallet's balance change together.
pub settle_found_open :
    (preimage : String) (amount : Option ℤ) (now : ℤ) (t : TxRow) (db : Db)
    → find_tx t.id db ≡ some t
    → settled? t.state ≡ false
    → let row = settle_row (or_default amount t.amount_msat) (lower preimage) now in
      settle_found (some t) amount preimage now db ≡ (
        ok (some (tx_dict (row t)), true),
        update_tx t.id row (credit t.app_id (or_default amount t.amount_msat) db),
      )
unfolding update_tx credit
settle_found_open preimage amount now t db found st = rw (
  st,
  find-update_tx t.id (settle_row (or_default amount t.amount_msat) (lower preimage) now) t db.txs
      (λ u. refl) found,
)

settle_found-IsSound :
    (hash preimage : String) (amount : Option ℤ) (now : ℤ) (t : TxRow) (db : Db)
    → latest_incoming hash db ≡ some t
    → IsNonnegAmount amount
    → IsSound db
    → IsSound (settle_found (some t) amount preimage now db).1
settle_found-IsSound hash preimage amount now t db found sign s =
    elim (Bool-cases (settled? t.state)) [
      | inl done ↦ rw done s
      | inr open_row ↦ rw (settle_found_open preimage amount now t db again open_row) (
          rebook-IsSound t.id value (settle_row value (lower preimage) now) t db again
            (omega (int_laws, s.funded t.app_id, value_sign))
            (settle_row-Keeps value (lower preimage) now value_sign)
            (settle_gain value (lower preimage) now t is_incoming open_row) s)
    ]
  where
    value : ℤ
    value = or_default amount t.amount_msat

    again : find_tx t.id db ≡ some t
    again =
        find_tx_again db.next_tx (λ u. u.payment_hash =ₛ hash && incoming? u.type) t db.txs
          s.form.tx_ids found

    t_nonneg : IsProper t
    t_nonneg =
        All-first IsProper (λ u. u.payment_hash =ₛ hash && incoming? u.type) t db.txs s.form.amounts
          found

    value_sign : pos 0 ≤ℤ value
    value_sign = or_default-nonneg amount t.amount_msat sign t_nonneg.amount

    is_incoming : incoming? t.type ≡ true
    is_incoming =
        and_right (t.payment_hash =ₛ hash) (incoming? t.type)
          (first-holds (λ u. u.payment_hash =ₛ hash && incoming? u.type) t db.txs found)

-- Settling an invoice keeps the invariant.
pub settle_incoming_by_payment_hash-IsSound :
    (hash preimage : String) (amount settled_at : Option ℤ) (now : ℤ) (db : Db)
    → IsNonnegAmount amount
    → IsSound db
    → IsSound (settle_incoming_by_payment_hash hash amount preimage settled_at now db).1
unfolding settle_incoming_by_payment_hash
settle_incoming_by_payment_hash-IsSound hash preimage amount settled_at now db sign s =
    elim (Option-cases (latest_incoming (canonical hash) db)) [
      | inl unknown ↦ rw unknown s
      | inr (t, found) ↦ rw found (
          settle_found-IsSound (canonical hash) preimage amount (or_int settled_at now) t db found
            sign s)
    ]

-- What recording an invoice of a wallet that exists does.
pub record_incoming_invoice_new :
    (app : ℕ) (hash invoice : String) (amount : ℤ) (description description_hash : String)
    (created expires : ℤ) (r : AppRow) (db : Db)
    → find_app app db ≡ some r
    → let row = invoice_row app hash invoice amount description description_hash created expires in
      record_incoming_invoice app hash invoice amount description description_hash created expires
        db
      ≡ (ok (tx_dict (record row { id = db.next_tx })), insert_tx row db)
unfolding record_incoming_invoice
record_incoming_invoice_new app hash invoice amount description description_hash created expires r
      db found =
    rw (
      found,
      find-insert_tx
          (invoice_row app hash invoice amount description description_hash created expires) db,
    )

-- Recording an invoice keeps the invariant.
pub record_incoming_invoice-IsSound :
    (app : ℕ) (hash invoice : String) (amount : ℤ) (description description_hash : String)
    (created expires : ℤ) (db : Db)
    → pos 0 ≤ℤ amount
    → IsSound db
    → IsSound
        (record_incoming_invoice app hash invoice amount description description_hash created
          expires db).1
unfolding record_incoming_invoice entry
record_incoming_invoice-IsSound app hash invoice amount description description_hash created expires
      db sign s =
    elim (Option-cases (find_app app db)) [
      | inl unknown ↦ rw unknown s
      | inr (r, found) ↦
          rw
            (record_incoming_invoice_new app hash invoice amount description description_hash
              created expires r db found)
            (note-IsSound
              (invoice_row app hash invoice amount description description_hash created expires) db
              (rw found refl) (IsProper-new _ sign (omega arith) refl) refl s)
    ]

set_preimage-app_id : (h x : String) (t : TxRow) → (set_preimage h x t).app_id ≡ t.app_id
set_preimage-app_id h x t = ground arith

set_preimage-id : (h x : String) (t : TxRow) → (set_preimage h x t).id ≡ t.id
set_preimage-id h x t = ground arith

set_preimage-share : (h x : String) (b : ℕ) (t : TxRow) → share b (set_preimage h x t) ≡ share b t
unfolding entry
set_preimage-share h x b t = ground arith

set_preimage-IsProper : (h x : String) (t : TxRow) → IsProper t → IsProper (set_preimage h x t)
set_preimage-IsProper h x t n = elim (Bool-cases (t.payment_hash =ₛ h)) [
  | inl hit ↦
      rw hit (record { amount = n.amount; fees = n.fees; reserve = n.reserve; unpaid = n.unpaid })
  | inr miss ↦ rw miss n
]

ledger-set_preimage :
    (h x : String) (b : ℕ) (txs : List TxRow) → ledger b (map (set_preimage h x) txs) ≡ ledger b txs
unfolding ledger
ledger-set_preimage h x b [] = refl
ledger-set_preimage h x b (t ∷ txs) =
    rw (set_preimage-share h x b t, ledger-set_preimage h x b txs) refl

-- Writing preimages keeps the invariant.
pub set_preimage_for_hash-IsSound :
    (hash preimage : String) (db : Db)
    → IsSound db
    → IsSound (set_preimage_for_hash hash preimage db).1
unfolding set_preimage_for_hash drift
set_preimage_for_hash-IsSound hash preimage db s =
    elim (Bool-cases (nonempty (canonical hash) && nonempty (canonical preimage))) [
      | inr missing ↦ rw missing s
      | inl both ↦ rw both (record {
        form = record {
          app_ids = s.form.app_ids;
          tx_ids = Descends-map TxRow.id set db.next_tx db.txs (set_preimage-id h x) s.form.tx_ids;
          owned = All-map set db.txs (λ t own. rw (set_preimage-app_id h x t) own) s.form.owned;
          amounts = All-map set db.txs (set_preimage-IsProper h x) s.form.amounts;
        };
        balanced = λ b. rw (ledger-set_preimage h x b db.txs) (s.balanced b);
        funded = s.funded;
      })
    ]
  where
    h : String
    h = canonical hash

    x : String
    x = canonical preimage

    set : TxRow → TxRow
    set = set_preimage h x
