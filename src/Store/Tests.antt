-- ===== src/Store/Tests.antt =====
-- The store's theorems at concrete inputs: two sub-wallets, of which the first holds 90 000 msat and
-- the second waits for 20 000.
use sovran_bitcoin.Base.{
  ◌≡◌, Bool, refl, true, false, none, some, [], ◌∷◌, ◌==◌, ◌⊎◌, ◌||◌, select, arith,
}
use sovran_bitcoin.Base.Int.{pos, ◌+ℤ◌, ◌-ℤ◌, ◌*ℤ◌, ◌≤ℤ◌}
use sovran_bitcoin.Base.Json.{Fields}
use sovran_bitcoin.Base.Monad.{ok, raised}
use sovran_bitcoin.Base.Text.{◌=ₛ◌, strip, lower, canonical}
use sovran_bitcoin.Store.Apps.Lookup.{create_app-found}
use sovran_bitcoin.Store.Apps.{
  NewApp, Keys, create_app, add_row, read_back, with_privkey, get_app_internal_by_pubkeys,
  insert_app, new_row,
}
use sovran_bitcoin.Store.Events.Once.{mark_event_processed-once}
use sovran_bitcoin.Store.Events.{processed, mark_event_processed}
use sovran_bitcoin.Store.History.Sound.{Reachable-IsSound}
use sovran_bitcoin.Store.History.{Step, Reachable}
use sovran_bitcoin.Store.Incoming.Once.{
  settle_incoming_by_payment_hash-once, settle_incoming_by_payment_hash-credits,
}
use sovran_bitcoin.Store.Incoming.{
  record_incoming_invoice, settle_incoming_by_payment_hash, invoice_row, latest_incoming,
}
use sovran_bitcoin.Store.Ledger.Drift.{only}
use sovran_bitcoin.Store.Ledger.Pool.{pool}
use sovran_bitcoin.Store.Ledger.{balance_in, IsSound}
use sovran_bitcoin.Store.Outgoing.Budget.{reserve_outgoing_payment-within_budget}
use sovran_bitcoin.Store.Outgoing.Cases.{Reserved, reserve-Reserved, Refused}
use sovran_bitcoin.Store.Outgoing.Closed.{reserve_then_fail, reserve_then_settle}
use sovran_bitcoin.Store.Outgoing.Inside.{
  reserve_outgoing_payment-pool, finalize_outgoing_payment-once,
}
use sovran_bitcoin.Store.Outgoing.{
  Purpose, spent, insufficient, check_budget, pay_from, attempt, reserve_outgoing_payment,
  finalize_outgoing_payment,
}
use sovran_bitcoin.Store.Queries.Order.{IsListing, with_unpaid, list_transactions-IsListing}
use sovran_bitcoin.Store.Queries.{Filter, passes, by_time, list_transactions}
use sovran_bitcoin.Store.Rows.{AppRow, TxRow, Db, empty_db}
use sovran_bitcoin.Store.Sql.{find_app, credit, update_tx, insert_tx}
use sovran_bitcoin.Store.Transfer.Effect.{Transferred, transfer-cases, transfer-pool}
use sovran_bitcoin.Store.Transfer.{debit_source, credit_destination, move, transfer}

abbrev alice : NewApp
alice = record {
  name = " alice ";
  scopes = "pay_invoice" ∷ [];
  isolated = true;
  max_amount_sat = pos 100;
  budget_renewal = "never";
  metadata = Fields.end;
}

abbrev bob : NewApp
bob = record alice { name = "bob"; max_amount_sat = pos 0 }

abbrev alice_keys : Keys
alice_keys = record { client_pub = "a1"; wallet_priv = "a2"; wallet_pub = "a3" }

abbrev bob_keys : Keys
bob_keys = record { client_pub = "b1"; wallet_priv = "b2"; wallet_pub = "b3" }

abbrev with_alice : Db
with_alice = (create_app alice alice_keys "now" empty_db).1

abbrev with_both : Db
with_both = (create_app bob bob_keys "now" with_alice).1

abbrev funded : Db
funded = (transfer none (some 1) (pos 90000) "" (pos 5) with_both).1

abbrev invoiced : Db
invoiced = (record_incoming_invoice 2 "C1" "lnbc1" (pos 20000) "tea" "" (pos 6) (pos 3606) funded).1

invoiced-Reachable : Reachable invoiced
invoiced-Reachable =
    Reachable.later funded invoiced
      (Reachable.later with_both funded
        (Reachable.later with_alice with_both
          (Reachable.later empty_db with_alice Reachable.start (Step.create alice alice_keys "now"))
          (Step.create bob bob_keys "now"))
        (Step.move none (some 1) (pos 90000) "" (pos 5)))
      (Step.invoice 2 "C1" "lnbc1" (pos 20000) "tea" "" (pos 6) (pos 3606) (omega arith))

Reachable-IsSound_example : IsSound invoiced
Reachable-IsSound_example = Reachable-IsSound invoiced invoiced-Reachable

abbrev outside : Purpose
outside = record { payment_hash = "D1"; invoice = "lnbc2"; description = ""; description_hash = "" }

abbrev inside : Purpose
inside = record { payment_hash = " c1"; invoice = "lnbc1"; description = ""; description_hash = "" }

abbrev alice_row : AppRow
alice_row = record {
  id = 1;
  name = "alice";
  app_pubkey = "a1";
  wallet_privkey = "a2";
  wallet_pubkey = "a3";
  isolated = true;
  balance_msat = pos 90000;
  max_amount_sat = pos 100;
  budget_renewal = "never";
  scopes = "pay_invoice" ∷ [];
  metadata = Fields.end;
  created_at = "now";
}

found_alice : find_app 1 invoiced ≡ some alice_row
unfolding record_incoming_invoice transfer move debit_source credit_destination create_app add_row
    read_back credit insert_tx strip ◌+ℤ◌
found_alice = refl

reserved_outside :
    (reserve_outgoing_payment 1 (pos 50000) (pos 10000) outside (pos 7) invoiced).0 ≡ ok (3, none)
unfolding reserve_outgoing_payment attempt pay_from check_budget spent record_incoming_invoice
    transfer move debit_source credit_destination create_app add_row read_back credit insert_tx
    update_tx strip lower ◌+ℤ◌ ◌-ℤ◌ ◌*ℤ◌
reserved_outside = refl

reserved_inside :
    (reserve_outgoing_payment 1 (pos 20000) (pos 10000) inside (pos 7) invoiced).0 ≡ ok (3, some 2)
unfolding reserve_outgoing_payment attempt pay_from check_budget spent record_incoming_invoice
    transfer move debit_source credit_destination create_app add_row read_back credit insert_tx
    update_tx strip lower ◌+ℤ◌ ◌-ℤ◌ ◌*ℤ◌
reserved_inside = refl

refused_short :
    (reserve_outgoing_payment 1 (pos 95000) (pos 10000) inside (pos 7) invoiced).0
    ≡ raised insufficient
unfolding reserve_outgoing_payment attempt pay_from check_budget spent record_incoming_invoice
    transfer move debit_source credit_destination create_app add_row read_back credit insert_tx
    update_tx strip lower ◌+ℤ◌ ◌-ℤ◌ ◌*ℤ◌
refused_short = refl

reserve-Reserved_example :
    Reserved 1
      (pos 20000)
      (pos 10000)
      inside
      (pos 7)
      invoiced
      (reserve_outgoing_payment 1 (pos 20000) (pos 10000) inside (pos 7) invoiced)
reserve-Reserved_example = reserve-Reserved 1 (pos 20000) (pos 10000) inside (pos 7) invoiced

reserve_outgoing_payment-within_budget_example :
    spent 1 (reserve_outgoing_payment 1 (pos 50000) (pos 10000) outside (pos 7) invoiced).1.txs
    ≤ℤ pos 100 *ℤ 1000
reserve_outgoing_payment-within_budget_example =
    reserve_outgoing_payment-within_budget 1 (pos 50000) (pos 10000) outside (pos 7) invoiced
      alice_row (3, none) (Reachable-IsSound invoiced invoiced-Reachable) found_alice (omega arith)
      reserved_outside

reserve_then_fail_example :
    balance_in 1
      (finalize_outgoing_payment 3 false ""
        (pos 0)
        (pos 9)
        (reserve_outgoing_payment 1 (pos 50000) (pos 10000) outside (pos 7) invoiced).1).1.apps
    ≡ balance_in 1 invoiced.apps
reserve_then_fail_example =
    reserve_then_fail 1 3 1 (pos 50000) (pos 10000) (pos 0) outside "" (pos 7) (pos 9) invoiced
      reserved_outside

reserve_then_settle_example :
    balance_in 1
      (finalize_outgoing_payment 3 true "E1"
        (pos 800)
        (pos 9)
        (reserve_outgoing_payment 1 (pos 50000) (pos 10000) outside (pos 7) invoiced).1).1.apps
    ≡ balance_in 1 invoiced.apps -ℤ only (1 == 1) (pos 50000 +ℤ pos 800)
reserve_then_settle_example =
    reserve_then_settle 1 3 1 (pos 50000) (pos 10000) (pos 800) outside "E1" (pos 7) (pos 9)
      invoiced reserved_outside (omega arith) (omega arith)

reserve_outgoing_payment-pool_example :
    pool (reserve_outgoing_payment 1 (pos 20000) (pos 10000) inside (pos 7) invoiced).1.apps
    ≡ pool invoiced.apps
reserve_outgoing_payment-pool_example =
    reserve_outgoing_payment-pool 1 3 2 (pos 20000) (pos 10000) inside (pos 7) invoiced
      (Reachable-IsSound invoiced invoiced-Reachable) reserved_inside

abbrev pending : Db
pending = (reserve_outgoing_payment 1 (pos 50000) (pos 10000) outside (pos 7) invoiced).1

finalize_outgoing_payment-once_example :
    (finalize_outgoing_payment 3 false ""
      (pos 0)
      (pos 10)
      (finalize_outgoing_payment 3 true "E1" (pos 800) (pos 9) pending).1).1
    ≡ (finalize_outgoing_payment 3 true "E1" (pos 800) (pos 9) pending).1
finalize_outgoing_payment-once_example =
    finalize_outgoing_payment-once 3 true false "E1" "" (pos 800) (pos 0) (pos 9) (pos 10) pending

settle_incoming_by_payment_hash-once_example :
    (settle_incoming_by_payment_hash "c1"
      (some (pos 99))
      ""
      none
      (pos 12)
      (settle_incoming_by_payment_hash "c1" (some (pos 20000)) "E2" none (pos 11) invoiced).1).1
    ≡ (settle_incoming_by_payment_hash "c1" (some (pos 20000)) "E2" none (pos 11) invoiced).1
settle_incoming_by_payment_hash-once_example =
    settle_incoming_by_payment_hash-once "c1" "E2" "" (some (pos 20000)) none (some (pos 99)) none
      (pos 11) (pos 12) invoiced (Reachable-IsSound invoiced invoiced-Reachable)

abbrev tea : TxRow
tea = record (invoice_row 2 "C1" "lnbc1" (pos 20000) "tea" "" (pos 6) (pos 3606)) { id = 2 }

found_tea : latest_incoming (canonical "c1") invoiced ≡ some tea
unfolding record_incoming_invoice transfer move debit_source credit_destination create_app add_row
    read_back credit insert_tx update_tx strip lower ◌+ℤ◌ ◌-ℤ◌ ◌*ℤ◌
found_tea = refl

settle_incoming_by_payment_hash-credits_example :
    balance_in 2 (settle_incoming_by_payment_hash "c1" none "E2" none (pos 11) invoiced).1.apps
    ≡ balance_in 2 invoiced.apps +ℤ only (2 == 2) (pos 20000)
settle_incoming_by_payment_hash-credits_example =
    settle_incoming_by_payment_hash-credits "c1" "E2" none none (pos 11) tea 2 invoiced
      (Reachable-IsSound invoiced invoiced-Reachable) found_tea refl

transfer-cases_example :
    Transferred 1 2
      (pos 30000)
      "rent"
      (pos 13)
      invoiced
      (transfer (some 1) (some 2) (pos 30000) "rent" (pos 13) invoiced)
    ⊎ Refused (transfer (some 1) (some 2) (pos 30000) "rent" (pos 13) invoiced) invoiced
transfer-cases_example = transfer-cases 1 2 (pos 30000) "rent" (pos 13) invoiced

transfer-pool_example :
    pool (transfer (some 1) (some 2) (pos 30000) "rent" (pos 13) invoiced).1.apps
    ≡ pool invoiced.apps
transfer-pool_example =
    transfer-pool 1 2 (pos 30000) "rent" (pos 13) invoiced
      (Reachable-IsSound invoiced invoiced-Reachable)

mark_event_processed-once_example :
    (mark_event_processed "ev" (pos 2) (mark_event_processed "ev" (pos 1) funded).1
      ≡ (ok false, (mark_event_processed "ev" (pos 1) funded).1))
    × (processed "other" (mark_event_processed "ev" (pos 1) funded).1
        ≡ (processed "other" funded || "ev" =ₛ "other"))
mark_event_processed-once_example = mark_event_processed-once "ev" "other" (pos 1) (pos 2) funded

made_bob :
    (create_app bob bob_keys "now" with_alice).0
    ≡ ok (with_privkey (insert_app bob bob_keys "now" with_alice) (new_row bob bob_keys "now" 2))
unfolding create_app add_row read_back strip
made_bob = refl

lower_b1 : lower "b1" ≡ "b1"
unfolding lower
lower_b1 = refl

lower_b3 : lower "b3" ≡ "b3"
unfolding lower
lower_b3 = refl

create_app-found_example :
    get_app_internal_by_pubkeys "b1" (some "b3") (create_app bob bob_keys "now" with_alice).1
    ≡ some (with_privkey (insert_app bob bob_keys "now" with_alice) (new_row bob bob_keys "now" 2))
create_app-found_example =
    create_app-found bob bob_keys "now" with_alice
      (with_privkey (insert_app bob bob_keys "now" with_alice) (new_row bob bob_keys "now" 2))
      lower_b1 lower_b3 made_bob

abbrev every_row : Filter
every_row = record {
  app_id = none;
  tx_type = none;
  unpaid = false;
  from_ts = none;
  until_ts = none;
}

list_transactions-IsListing_example :
    IsListing every_row (pos 1) (pos 0) invoiced (by_time (select (passes every_row) invoiced.txs))
    × ((unpaid : Bool)
        → list_transactions (with_unpaid unpaid every_row) (pos 1) (pos 0) invoiced
          ≡ list_transactions every_row (pos 1) (pos 0) invoiced)
list_transactions-IsListing_example = list_transactions-IsListing every_row (pos 1) (pos 0) invoiced
