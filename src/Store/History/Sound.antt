-- ===== src/Store/History/Sound.antt =====
-- Every state of the store that a history reaches keeps its books.
use sovran_bitcoin.Base.{String, inl, inr, Bool-cases}
use sovran_bitcoin.Base.Int.{ℤ, int_laws}
use sovran_bitcoin.Store.Apps.Delete.{delete_app_by_pubkey-IsSound}
use sovran_bitcoin.Store.Apps.Sound.{create_app-IsSound}
use sovran_bitcoin.Store.Events.{processed, mark_event_processed}
use sovran_bitcoin.Store.History.{Step, Reachable}
use sovran_bitcoin.Store.Incoming.Sound.{
  record_incoming_invoice-IsSound, settle_incoming_by_payment_hash-IsSound,
  set_preimage_for_hash-IsSound,
}
use sovran_bitcoin.Store.Ledger.{ledger, balance_in, drift, IsSound}
use sovran_bitcoin.Store.Outgoing.Finalize.{finalize_outgoing_payment-IsSound}
use sovran_bitcoin.Store.Outgoing.Sound.{reserve_outgoing_payment-IsSound}
use sovran_bitcoin.Store.Rows.{Db, empty_db}
use sovran_bitcoin.Store.Transfer.Sound.{transfer-IsSound}

pub mark_event_processed-IsSound :
    (event : String) (now : ℤ) (db : Db)
    → IsSound db
    → IsSound (mark_event_processed event now db).1
unfolding mark_event_processed drift
mark_event_processed-IsSound event now db s = elim (Bool-cases (processed event db)) [
  | inl again ↦ rw again s
  | inr new ↦ rw new (record {
    form = record {
      app_ids = s.form.app_ids;
      tx_ids = s.form.tx_ids;
      owned = s.form.owned;
      amounts = s.form.amounts;
    };
    balanced = s.balanced;
    funded = s.funded;
  })
]

empty-IsSound : IsSound empty_db
unfolding drift ledger balance_in
empty-IsSound = record {
  form = record { app_ids = tt; tx_ids = tt; owned = tt; amounts = tt };
  balanced = λ a. omega int_laws;
  funded = λ a. omega int_laws;
}

pub Step-IsSound : (db db' : Db) → Step db db' → IsSound db → IsSound db'
Step-IsSound db db' (Step.create n k at) s = create_app-IsSound n k at db s
Step-IsSound db db' (Step.delete pubkey) s = delete_app_by_pubkey-IsSound pubkey db s
Step-IsSound db db' (Step.move from to amount description now) s =
    transfer-IsSound from to amount description now db s
Step-IsSound db db'
      (Step.invoice app hash text amount description description_hash created expires h) s =
    record_incoming_invoice-IsSound app hash text amount description description_hash created
      expires db h s
Step-IsSound db db' (Step.settle hash preimage amount settled_at now h) s =
    settle_incoming_by_payment_hash-IsSound hash preimage amount settled_at now db h s
Step-IsSound db db' (Step.preimage hash pre) s = set_preimage_for_hash-IsSound hash pre db s
Step-IsSound db db' (Step.reserve app amount fees p now h k) s =
    reserve_outgoing_payment-IsSound app amount fees p now db h k s
Step-IsSound db db' (Step.finalize i done pre fees now t found out within) s =
    finalize_outgoing_payment-IsSound i done pre fees now t db found out within s
Step-IsSound db db' (Step.mark event now) s = mark_event_processed-IsSound event now db s

-- In every state that a history of the store's methods reaches, with no negative amount invoiced,
-- settled or reserved and only outgoing payments closed, for fees within their reserve: ids are unique
-- and descend, every transaction belongs to a sub-wallet, every balance is what the sub-wallet's
-- transactions add up to, and no balance is negative.
pub Reachable-IsSound : (db : Db) → Reachable db → IsSound db
Reachable-IsSound db Reachable.start = empty-IsSound
Reachable-IsSound db (Reachable.later old db' r step) =
    Step-IsSound old db step (Reachable-IsSound old r)
