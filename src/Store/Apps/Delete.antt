-- ===== src/Store/Apps/Delete.antt =====
-- Deleting a sub-wallet takes its transactions with it, and keeps the invariant of the store.
use sovran_bitcoin.Base.{
  ℕ, ◌≤◌, String, ◌≡◌, refl, inl, inr, ◌&&◌, not, Bool, true, false, List, [], ◌∷◌, All, first,
  select, select_keep, select_cut, ◌==◌, ==_iff, is_some, arith, Bool-cases, if◌then◌else◌,
}
use mathlib.Core.Path.{subst}
use sovran_bitcoin.Base.Int.{ℤ, pos, ◌+ℤ◌, ◌-ℤ◌, ◌≤ℤ◌, int_laws}
use sovran_bitcoin.Store.Apps.{named_by, delete_app_by_pubkey}
use sovran_bitcoin.Store.Ledger.Form.{Descends-weaken}
use sovran_bitcoin.Store.Ledger.{ledger, balance_in, drift, Descends, has_app, IsSound}
use sovran_bitcoin.Store.Rows.{AppRow, TxRow, Db}

-- `a` is the id of a row that the test selects.
abbrev pub doomed : (AppRow → Bool) → List AppRow → ℕ → Bool
doomed p rs a = is_some (first (λ r. r.id == a && p r) rs)

zero_plus : (x : ℤ) → pos 0 +ℤ x ≡ x
zero_plus x = omega int_laws

-- What is left for `b` when doomed wallets go.
abbrev pub spared : Bool → ℤ → ℤ
spared gone x = if gone then pos 0 else x

module _ (p : AppRow → Bool) (b : ℕ) where
  doomed-fresh :
      (n : ℕ) (rs : List AppRow) → Descends AppRow.id n rs → n ≤ b → doomed p rs b ≡ false
  doomed-fresh n [] d le = refl
  doomed-fresh n (r ∷ rs) d le = ground (arith, doomed-fresh r.id rs d.1)

  balance_in-select_fresh :
      (n : ℕ) (rs : List AppRow)
      → Descends AppRow.id n rs
      → n ≤ b
      → balance_in b (select (λ r. not (p r)) rs) ≡ pos 0
  unfolding balance_in
  balance_in-select_fresh n [] d le = refl
  balance_in-select_fresh n (r ∷ rs) d le = ground (arith, balance_in-select_fresh r.id rs d.1)

  balance_in-select :
      (n : ℕ) (rs : List AppRow)
      → Descends AppRow.id n rs
      → balance_in b (select (λ r. not (p r)) rs) ≡ spared (doomed p rs b) (balance_in b rs)
  unfolding balance_in
  balance_in-select n [] d = refl
  balance_in-select n (r ∷ rs) d = elim (Bool-cases (r.id == b)) [
    | inl here ↦
        let none_below : doomed p rs b ≡ false = doomed-fresh r.id rs d.1 (ground arith) in
        let zero_below : balance_in b (select (λ q. not (p q)) rs) ≡ pos 0 =
          balance_in-select_fresh r.id rs d.1 (ground arith) in
        ground arith
    | inr later ↦ ground (arith, balance_in-select r.id rs d.1)
  ]

module _ (gone : ℕ → Bool) where
  ledger-select :
      (b : ℕ) (txs : List TxRow)
      → ledger b (select (λ t. not (gone t.app_id)) txs) ≡ spared (gone b) (ledger b txs)
  unfolding ledger
  ledger-select b [] = ground arith
  ledger-select b (t ∷ txs) = elim (Bool-cases (gone t.app_id)) [
    | inl cut ↦
        rw (select_cut (λ u. not (gone u.app_id)) t txs (rw cut), ledger-select b txs)
          (elim (Bool-cases (t.app_id == b)) [
            | inl own ↦
                let gone_b : gone b ≡ true =
                  subst (λ a. gone a ≡ true) ((==_iff t.app_id b).0 own) cut in
                rw (gone_b, spared)
            | inr other ↦ rw (other, zero_plus)
          ])
    | inr kept ↦
        rw (select_keep (λ u. not (gone u.app_id)) t txs (rw kept), ledger, ledger-select b txs)
          (elim (Bool-cases (t.app_id == b)) [
            | inl own ↦
                let gone_b : gone b ≡ false =
                  subst (λ a. gone a ≡ false) ((==_iff t.app_id b).0 own) kept in
                rw (gone_b, spared)
            | inr other ↦ rw (other, zero_plus, zero_plus)
          ])
  ]

Descends-select :
    {A : Type 0} (key : A → ℕ) (p : A → Bool) (n : ℕ) (xs : List A)
    → Descends key n xs
    → Descends key n (select p xs)
Descends-select key p n [] d = tt
Descends-select key p n (x ∷ xs) d = elim (Bool-cases (p x)) [
  | inl kept ↦ rw (select_keep p x xs kept) (d.0, Descends-select key p (key x) xs d.1)
  | inr cut ↦
      rw (select_cut p x xs cut)
        (Descends-select key p n xs (Descends-weaken key (key x) n xs (omega arith) d.1))
]

All-select :
    {A : Type 0} {P Q : A → Type 0} (p : A → Bool) (xs : List A)
    → ((x : A) → p x ≡ true → P x → Q x)
    → All P xs
    → All Q (select p xs)
All-select p [] h k = tt
All-select p (x ∷ xs) h k = elim (Bool-cases (p x)) [
  | inl kept ↦ rw (select_keep p x xs kept) (h x kept k.0, All-select p xs h k.1)
  | inr cut ↦ rw (select_cut p x xs cut) (All-select p xs h k.1)
]

-- A wallet that is not doomed is still there.
has_app-select :
    (p : AppRow → Bool) (a : ℕ) (rs : List AppRow)
    → has_app a rs ≡ true
    → doomed p rs a ≡ false
    → has_app a (select (λ r. not (p r)) rs) ≡ true
has_app-select p a [] own safe = cc
has_app-select p a (r ∷ rs) own safe = ground (arith, has_app-select p a rs)

spared-drift : (gone : Bool) (x y : ℤ) → x -ℤ y ≡ pos 0 → spared gone x -ℤ spared gone y ≡ pos 0
spared-drift true x y h = omega int_laws
spared-drift false x y h = h

spared-funded : (gone : Bool) (x : ℤ) → pos 0 ≤ℤ x → pos 0 ≤ℤ spared gone x
spared-funded true x h = omega arith
spared-funded false x h = h

-- Deleting a sub-wallet, with its transactions, keeps the invariant.
pub delete_app_by_pubkey-IsSound :
    (pubkey : String) (db : Db) → IsSound db → IsSound (delete_app_by_pubkey pubkey db).1
unfolding delete_app_by_pubkey drift
delete_app_by_pubkey-IsSound pubkey db s = record {
  form = record {
    app_ids =
        Descends-select AppRow.id (λ r. not (named_by pubkey r)) db.next_app db.apps s.form.app_ids;
    tx_ids = Descends-select TxRow.id (λ t. not (gone t.app_id)) db.next_tx db.txs s.form.tx_ids;
    owned =
        All-select (λ t. not (gone t.app_id)) db.txs
          (λ t kept own. has_app-select (named_by pubkey) t.app_id db.apps own (ground arith))
          s.form.owned;
    amounts = All-select (λ t. not (gone t.app_id)) db.txs (λ t kept n. n) s.form.amounts;
  };
  balanced = λ b.
      rw (left b, ledger-select gone b db.txs)
        (spared-drift (gone b) (balance_in b db.apps) (ledger b db.txs) (s.balanced b));
  funded = λ b. rw (left b) (spared-funded (gone b) (balance_in b db.apps) (s.funded b));
}
  where
    gone : ℕ → Bool
    gone = doomed (named_by pubkey) db.apps

    left :
        (b : ℕ)
        → balance_in b (select (λ r. not (named_by pubkey r)) db.apps)
          ≡ spared (gone b) (balance_in b db.apps)
    left b = balance_in-select (named_by pubkey) b db.next_app db.apps s.form.app_ids
