-- ===== src/Store/Apps/Lookup.antt =====
-- A sub-wallet that was created is found by its keys, and a key that is in use is refused.
use mathlib.Core.Path.{subst}
use text.Mathlib.TextPositions.{eq_refl}
use sovran_bitcoin.Base.{
  String, ◌≡◌, sym, ap, ◌∙◌, inl, inr, ◌&&◌, Bool, true, false, some, first_here, if◌then◌else◌,
  ==_refl, arith, Bool-cases,
}
use sovran_bitcoin.Base.Monad.{
  Exc, store_error, integrity_error, Result, ok, raised, raise_if, transaction, bind_ok,
  bind_raised, transaction_ok, transaction_raised,
}
use sovran_bitcoin.Base.Text.{◌=ₛ◌, nonempty, strip, lower}
use sovran_bitcoin.Store.Apps.{
  Keys, NewApp, Internal, internal_of, taken, has_keys, new_row, insert_app, with_privkey, add_row,
  read_back, create_app, get_app_internal_by_pubkeys,
}
use sovran_bitcoin.Store.Rows.{Db}
use sovran_bitcoin.Store.Sql.{find_app}

module _ (n : NewApp) (k : Keys) (at : String) (db : Db) where
  find_fresh : find_app db.next_app (insert_app n k at db) ≡ some (new_row n k at db.next_app)
  find_fresh = ground (arith, ==_refl db.next_app)

  clashing : taken k db ≡ true → add_row n k at db ≡ (raised integrity_error, db)
  unfolding add_row
  clashing clash = rw (raise_if, clash)

  added : taken k db ≡ false → add_row n k at db ≡ (ok db.next_app, insert_app n k at db)
  unfolding add_row
  added free = rw (raise_if, free)

  read : read_back db.next_app (insert_app n k at db) ≡ (
    ok (with_privkey (insert_app n k at db) (new_row n k at db.next_app)),
    insert_app n k at db,
  )
  unfolding read_back
  read = rw find_fresh

  -- A key that another sub-wallet has already, on either side, is refused, and nothing is written.
  pub create_app-taken :
      (nonempty n.name && nonempty (strip n.name)) ≡ true
      → taken k db ≡ true
      → create_app n k at db ≡ (raised integrity_error, db)
  unfolding create_app
  create_app-taken name clash = rw name (
      bind_raised (transaction (add_row n k at)) db db read_back integrity_error
        (transaction_raised (add_row n k at) db db integrity_error (clashing clash)))

  pub create_app_new :
      (nonempty n.name && nonempty (strip n.name)) ≡ true
      → taken k db ≡ false
      → create_app n k at db ≡ (
        ok (with_privkey (insert_app n k at db) (new_row n k at db.next_app)),
        insert_app n k at db,
      )
  unfolding create_app
  create_app_new name free = rw name (
      bind_ok (transaction (add_row n k at)) db (insert_app n k at db) read_back db.next_app
        (transaction_ok (add_row n k at) db (insert_app n k at db) db.next_app (added free))
      ∙ read)

  own_key : (key : String) → lower key ≡ key → (key =ₛ lower key) ≡ true
  own_key key h = subst (λ v. (key =ₛ v) ≡ true) (sym h) (eq_refl key)

  both_keys : (a b c : Bool) → a ≡ true → b ≡ true → (a && (if c then b else true)) ≡ true
  both_keys a b c h k = ground arith

  looked_up :
      lower k.client_pub ≡ k.client_pub
      → lower k.wallet_pub ≡ k.wallet_pub
      → get_app_internal_by_pubkeys k.client_pub (some k.wallet_pub) (insert_app n k at db)
        ≡ some (with_privkey (insert_app n k at db) (new_row n k at db.next_app))
  unfolding get_app_internal_by_pubkeys
  looked_up client wallet = ap (internal_of (insert_app n k at db)) (
      first_here (has_keys k.client_pub (some k.wallet_pub)) (new_row n k at db.next_app) db.apps (
        both_keys (k.client_pub =ₛ lower k.client_pub) (k.wallet_pub =ₛ lower k.wallet_pub)
          (nonempty k.wallet_pub) (own_key k.client_pub client) (own_key k.wallet_pub wallet)))

  create_app_unnamed :
      (nonempty n.name && nonempty (strip n.name)) ≡ false
      → create_app n k at db ≡ (raised (store_error "invalid_name" "App name is required" 400), db)
  unfolding create_app
  create_app_unnamed unnamed = rw unnamed

-- Where a sub-wallet is created with keys in lower case, a request that names its client's key and
-- the wallet's key is answered with what `create_app` returned, the wallet's private key included.
pub create_app-found :
    (n : NewApp) (k : Keys) (at : String) (db : Db) (app : Internal)
    → lower k.client_pub ≡ k.client_pub
    → lower k.wallet_pub ≡ k.wallet_pub
    → (create_app n k at db).0 ≡ ok app
    → get_app_internal_by_pubkeys k.client_pub (some k.wallet_pub) (create_app n k at db).1
      ≡ some app
create_app-found n k at db app client wallet made =
    elim (Bool-cases (nonempty n.name && nonempty (strip n.name))) [
      | inr unnamed ↦ absurd (
          raised_or_ok (
            ap (λ (x : Result Internal × Db). x.0) (sym (create_app_unnamed n k at db unnamed))
            ∙ made))
      | inl named ↦ elim (Bool-cases (taken k db)) [
        | inl clash ↦ absurd (
            raised_or_ok (
              ap (λ (x : Result Internal × Db). x.0) (sym (create_app-taken n k at db named clash))
              ∙ made))
        | inr free ↦ rw (create_app_new n k at db named free) (
            looked_up n k at db client wallet
            ∙ ap some (
                ok_inj (
                  ap (λ (x : Result Internal × Db). x.0) (sym (create_app_new n k at db named free))
                  ∙ made)))
      ]
    ]
  where
    raised_or_ok : {e : Exc} {a : Internal} → raised e ≡ ok a → ⊥
    raised_or_ok h = cc

    ok_inj : {a b : Internal} → ◌≡◌ {A = Result Internal} (ok a) (ok b) → a ≡ b
    ok_inj h = cc
