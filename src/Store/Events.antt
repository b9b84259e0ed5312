-- ===== src/Store/Events.antt =====
-- `mark_event_processed`: whether an event is new, and the mark that it is no longer. (The `except`
-- branch, which answers False when SQLite itself fails, is not modelled.)
pub mod Once
use sovran_bitcoin.Base.{String, Bool, true, false, List, ◌∷◌, first, is_some, if◌then◌else◌}
use sovran_bitcoin.Base.Int.{ℤ}
use sovran_bitcoin.Base.Monad
use sovran_bitcoin.Base.Monad.{Action}
use sovran_bitcoin.Base.Text.{◌=ₛ◌}
use sovran_bitcoin.Store.Rows.{EventRow, Db}

abbrev pub processed : String → Db → Bool
processed e db = is_some (first (λ r. r.event_id =ₛ e) db.events)

unfoldable pub mark_event_processed : String → ℤ → Action Db Bool
mark_event_processed e now db = if processed e db then (Monad.ok false, db) else (
  Monad.ok true,
  record db { events = record { event_id = e; processed_at = now } ∷ db.events },
)
