-- ===== src/Store/Receiving.antt =====
-- What a request that does not pay may do to the store: settle an invoice, record one, and note a
-- preimage. What these three keep, such a request keeps.
use sovran_bitcoin.Base.{
  ℕ, String, ◌≡◌, refl, inl, inr, Bool, true, false, Option, some, ◌&&◌, ◌==◌, Bool-cases,
  Option-cases, arith,
}
use sovran_bitcoin.Base.Int.{ℤ, pos, ◌≤ℤ◌, int_laws}
use sovran_bitcoin.Base.Text.{nonempty, canonical}
use sovran_bitcoin.Store.Incoming.Once.{settle_incoming_by_payment_hash-credits}
use sovran_bitcoin.Store.Incoming.Sound.{
  settle_incoming_by_payment_hash-IsSound, record_incoming_invoice-IsSound,
  record_incoming_invoice_new, set_preimage_for_hash-IsSound,
}
use sovran_bitcoin.Store.Incoming.{
  settle_incoming_by_payment_hash, latest_incoming, record_incoming_invoice, set_preimage_for_hash,
}
use sovran_bitcoin.Store.Ledger.Drift.{only}
use sovran_bitcoin.Store.Ledger.{balance_in, IsSound}
use sovran_bitcoin.Store.Rows.{Db}
use sovran_bitcoin.Store.Sql.{find_app, insert_tx, settled?}

pub record Receives (P : Db → Type 0) : Type 0 where
  pub settles :
      (hash preimage : String) (amount : ℤ) (settled_at : Option ℤ) (now : ℤ) (db : Db)
      → pos 0 ≤ℤ amount
      → P db
      → P (settle_incoming_by_payment_hash hash (some amount) preimage settled_at now db).1
  pub records :
      (app : ℕ) (hash invoice : String) (amount : ℤ) (description description_hash : String)
      (created expires : ℤ) (db : Db)
      → pos 0 ≤ℤ amount
      → P db
      → P
          (record_incoming_invoice app hash invoice amount description description_hash created
            expires db).1
  pub preimages :
      (hash preimage : String) (db : Db) → P db → P (set_preimage_for_hash hash preimage db).1

pub IsSound-Receives : Receives IsSound
IsSound-Receives = record {
  settles = λ hash preimage amount settled_at now db.
      settle_incoming_by_payment_hash-IsSound hash preimage (some amount) settled_at now db;
  records = record_incoming_invoice-IsSound;
  preimages = set_preimage_for_hash-IsSound;
}

-- Sound books, in which wallet `b` has at least `floor`.
abbrev pub HasAtLeast : ℕ → ℤ → Db → Type 0
HasAtLeast b floor db = IsSound db × (floor ≤ℤ balance_in b db.apps)

only-nonneg : (c : Bool) (z : ℤ) → pos 0 ≤ℤ z → pos 0 ≤ℤ only c z
only-nonneg true z h = h
only-nonneg false z h = omega arith

module _ (b : ℕ) (floor : ℤ) where
  settle-rises :
      (hash preimage : String) (amount : ℤ) (settled_at : Option ℤ) (now : ℤ) (db : Db)
      → pos 0 ≤ℤ amount
      → HasAtLeast b floor db
      → floor
        ≤ℤ balance_in b
            (settle_incoming_by_payment_hash hash (some amount) preimage settled_at now db).1.apps
  unfolding settle_incoming_by_payment_hash balance_in
  settle-rises hash preimage amount settled_at now db sign (s, least) =
      elim (Option-cases (latest_incoming (canonical hash) db)) [
        | inl unknown ↦ rw (settle_incoming_by_payment_hash, unknown) least
        | inr (t, found) ↦ elim (Bool-cases (settled? t.state)) [
          | inl done ↦ rw (settle_incoming_by_payment_hash, found, done) least
          | inr open_row ↦
              rw
                (settle_incoming_by_payment_hash-credits hash preimage (some amount) settled_at now
                  t b db s found open_row)
                (omega (int_laws, least, only-nonneg (t.app_id == b) amount sign))
        ]
      ]

  record-apps :
      (app : ℕ) (hash invoice : String) (amount : ℤ) (description description_hash : String)
      (created expires : ℤ) (db : Db)
      → (record_incoming_invoice app hash invoice amount description description_hash created
          expires db).1.apps
        ≡ db.apps
  unfolding record_incoming_invoice insert_tx
  record-apps app hash invoice amount description description_hash created expires db =
      elim (Option-cases (find_app app db)) [
        | inl unknown ↦ rw unknown refl
        | inr (r, found) ↦
            rw
              (record_incoming_invoice_new app hash invoice amount description description_hash
                created expires r db found)
              refl
      ]

  preimage-apps :
      (hash preimage : String) (db : Db) → (set_preimage_for_hash hash preimage db).1.apps ≡ db.apps
  unfolding set_preimage_for_hash
  preimage-apps hash preimage db =
      elim (Bool-cases (nonempty (canonical hash) && nonempty (canonical preimage))) [
        | inl both ↦ rw both refl
        | inr missing ↦ rw missing refl
      ]

  pub HasAtLeast-Receives : Receives (HasAtLeast b floor)
  HasAtLeast-Receives = record {
    settles = λ hash preimage amount settled_at now db sign h. (
      IsSound-Receives.settles hash preimage amount settled_at now db sign h.0,
      settle-rises hash preimage amount settled_at now db sign h,
    );
    records = λ app hash invoice amount description description_hash created expires db sign h. (
      IsSound-Receives.records app hash invoice amount description description_hash created expires
          db sign h.0,
      rw (record-apps app hash invoice amount description description_hash created expires db) h.1,
    );
    preimages = λ hash preimage db h.
        (IsSound-Receives.preimages hash preimage db h.0, rw (preimage-apps hash preimage db) h.1);
  }
