-- ===== src/Daemon/Tests.antt =====
-- The daemon's theorems at concrete requests, with an LND that answers every request and takes the
-- whole fee limit.
use sovran_bitcoin.Base.{String, ◌≡◌, refl, true, false, none, some, [], ◌∷◌, arith, ◌+◌, ◌/◌}
use mathlib.Core.Path.{subst}
use sovran_bitcoin.Base.Int.{pos, ◌≤ℤ◌, ◌*ℤ◌}
use sovran_bitcoin.Base.Json.{Fields}
use sovran_bitcoin.Daemon.Lnd.{Answer, LndInvoice, Paid, Lnd, IsLnd}
use sovran_bitcoin.Daemon.Nip47.Sound.{handle_nip47_method-IsSound, handle_nip47_method-spares}
use sovran_bitcoin.Daemon.Nip47.{handle_nip47_method}
use sovran_bitcoin.Daemon.Pay.Sound.{fee_reserve_msat-bounds}
use sovran_bitcoin.Daemon.Pay.{Hashing, fee_reserve_msat}
use sovran_bitcoin.Daemon.Request.{Params}
use sovran_bitcoin.Daemon.Scopes.Grants.{granted, scopes_to_nip47_methods-granted}
use sovran_bitcoin.Daemon.Scopes.{scopes_to_nip47_methods}
use sovran_bitcoin.Base.Monad.{ok}
use sovran_bitcoin.Base.Text.{lower, strip}
use sovran_bitcoin.Daemon.Event.{
  Event, Envelope, process_nip47_event, process_nip47_event-IsSound, process_nip47_event-replayed,
}
use sovran_bitcoin.Store.Events.{processed, mark_event_processed}
use sovran_bitcoin.Daemon.World.{World, member}
use sovran_bitcoin.Store.Apps.{NewApp, Keys, create_app, add_row, read_back}
use sovran_bitcoin.Store.History.Sound.{Reachable-IsSound}
use sovran_bitcoin.Store.History.{Step, Reachable}
use sovran_bitcoin.Store.Ledger.{balance_in, IsSound}
use sovran_bitcoin.Store.Rows.{AppDict, Db, empty_db}
use sovran_bitcoin.Store.Transfer.{transfer, move, debit_source, credit_destination}
use sovran_bitcoin.Store.Sql.{credit, insert_tx}

abbrev pub carol : NewApp
carol = record {
  name = "carol";
  scopes = "get_balance" ∷ "pay_invoice" ∷ [];
  isolated = true;
  max_amount_sat = pos 0;
  budget_renewal = "never";
  metadata = Fields.end;
}

abbrev pub carol_keys : Keys
carol_keys = record { client_pub = "c1"; wallet_priv = "c2"; wallet_pub = "c3" }

abbrev pub opened : Db
opened = (create_app carol carol_keys "now" empty_db).1

abbrev pub funded : Db
funded = (transfer none (some 1) (pos 90000) "" (pos 5) opened).1

pub funded-IsSound : IsSound funded
funded-IsSound = Reachable-IsSound funded (
    Reachable.later opened funded
      (Reachable.later empty_db opened Reachable.start (Step.create carol carol_keys "now"))
      (Step.move none (some 1) (pos 90000) "" (pos 5)))

abbrev carol_app : AppDict
carol_app = record {
  id = 1;
  name = "carol";
  isolated = true;
  app_pubkey = "c1";
  wallet_pubkey = "c3";
  balance_msat = pos 90000;
  max_amount_sat = pos 0;
  budget_renewal = "never";
  scopes = "get_balance" ∷ "pay_invoice" ∷ [];
  metadata = Fields.end;
  created_at = "now";
  pending_count = 0;
}

abbrev pub open_invoice : String → LndInvoice
open_invoice hash = record {
  payment_hash = hash;
  invoice = "lnbc1";
  state = "settled";
  amount_msat = pos 20000;
  preimage = "e1";
  created_at = pos 6;
  expires_at = pos 3606;
  settled_at = none;
}

abbrev pub greedy : Lnd
greedy = record {
  get_info = Answer.failed "internal" "no";
  get_channel_balance_msat = Answer.answered (pos 100000);
  lookup_invoice = λ hash. Answer.answered (open_invoice hash);
  create_invoice = λ amount memo expiry hash. Answer.answered (open_invoice "d1");
  decode_payreq = λ bolt11. Answer.answered (record {
    payment_hash = "d2";
    amount_msat = pos 50000;
    description = "";
    description_hash = "";
  });
  pay_invoice =
      λ bolt11 limit amount. Answer.answered (record { preimage = "e2"; fees_paid_msat = limit });
  pay_keysend = λ dest amount limit preimage.
      Answer.answered (record { preimage = preimage; fees_paid_msat = limit });
}

same_invoice : (a b : LndInvoice) → Answer.answered a ≡ Answer.answered b → a ≡ b
same_invoice a b e = cc

same_paid : (a b : Paid) → Answer.answered a ≡ Answer.answered b → a ≡ b
same_paid a b e = cc

pub greedy-IsLnd : IsLnd greedy
greedy-IsLnd = record {
  amounts = λ hash inv e.
      subst (λ (i : LndInvoice). pos 0 ≤ℤ i.amount_msat) (same_invoice (open_invoice hash) inv e)
        (omega arith);
  invoice_fees = λ bolt11 limit amount paid e.
      subst (λ (r : Paid). r.fees_paid_msat ≤ℤ limit)
        (same_paid (record { preimage = "e2"; fees_paid_msat = limit }) paid e) (omega arith);
  keysend_fees = λ dest amount limit preimage paid e.
      subst (λ (r : Paid). r.fees_paid_msat ≤ℤ limit)
        (same_paid (record { preimage = preimage; fees_paid_msat = limit }) paid e) (omega arith);
}

abbrev hashing : Hashing
hashing = record { fromhex = λ s. some 32; sha256 = λ s. s; fresh = "f1" }

abbrev asked : Params
asked = record {
  invoice = "lnbc1";
  payment_hash = "";
  description = "";
  description_hash = "";
  pubkey = "";
  preimage = "";
  amount = some (pos 0);
  expiry = some (pos 3600);
  limit = some (pos 50);
  offset = some (pos 0);
  tx_type = none;
  unpaid = false;
  from_ts = none;
  until_ts = none;
  tlv_records = [];
}

abbrev pub world : World
world = record { db = funded; notices = [] }

handle_nip47_method-IsSound_example :
    IsSound
      (handle_nip47_method greedy hashing (pos 7) (pos 8) carol_app "pay_invoice" asked world).1.db
handle_nip47_method-IsSound_example =
    handle_nip47_method-IsSound greedy hashing (pos 7) (pos 8) carol_app "pay_invoice" asked world
      greedy-IsLnd funded-IsSound

abbrev receive_only : AppDict
receive_only = record carol_app { scopes = "get_balance" ∷ "make_invoice" ∷ [] }

handle_nip47_method-spares_example :
    balance_in 1 funded.apps
    ≤ℤ balance_in 1
        (handle_nip47_method greedy hashing
          (pos 7)
          (pos 8)
          receive_only
          "make_invoice"
          asked
          world).1.db.apps
handle_nip47_method-spares_example =
    handle_nip47_method-spares greedy hashing (pos 7) (pos 8) receive_only "make_invoice" asked
      world 1 greedy-IsLnd funded-IsSound refl

scopes_to_nip47_methods-granted_example :
    member "get_balance" (scopes_to_nip47_methods carol_app.scopes)
    ≡ granted "get_balance" carol_app.scopes
scopes_to_nip47_methods-granted_example =
    scopes_to_nip47_methods-granted "get_balance" carol_app.scopes

fee_reserve_msat-bounds_example :
    (pos 10000 ≤ℤ fee_reserve_msat (pos 2500001))
    × (pos 2500001 ≤ℤ fee_reserve_msat (pos 2500001) *ℤ 100)
    × (fee_reserve_msat (pos 2500001) ≤ℤ pos (2500001 / 100 + 10000))
fee_reserve_msat-bounds_example = fee_reserve_msat-bounds 2500001

abbrev balance_request : Event
balance_request = record {
  kind = pos 23194;
  id = "EV1";
  pubkey = "C1";
  tags = ("p" ∷ "c3" ∷ []) ∷ [];
  content = "sealed";
}

abbrev opens : Envelope
opens = record {
  verify_event = λ e. true;
  decrypt = λ nip44 content priv client. some (record { method = "pay_invoice"; params = asked });
}

process_nip47_event-IsSound_example :
    IsSound (process_nip47_event greedy hashing opens (pos 7) (pos 8) balance_request world).1.db
process_nip47_event-IsSound_example =
    process_nip47_event-IsSound greedy hashing opens (pos 7) (pos 8) balance_request world
      greedy-IsLnd funded-IsSound

abbrev marked : World
marked = record { db = (mark_event_processed "ev1" (pos 6) funded).1; notices = [] }

ev1_processed : processed (lower "EV1") marked.db ≡ true
unfolding mark_event_processed create_app transfer lower add_row read_back move debit_source
    credit_destination credit insert_tx strip
ev1_processed = refl

process_nip47_event-replayed_example :
    process_nip47_event greedy hashing opens (pos 7) (pos 8) balance_request marked
    ≡ (ok [], marked)
process_nip47_event-replayed_example =
    process_nip47_event-replayed greedy hashing opens (pos 7) (pos 8) balance_request marked
      ev1_processed
