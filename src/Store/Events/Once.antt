-- ===== src/Store/Events/Once.antt =====
-- A request event is handled once: the guard against replays.
use mathlib.Core.Path.{subst}
use text.Mathlib.TextEquality.{eq_iff}
use text.Mathlib.TextPositions.{eq_refl}
use sovran_bitcoin.Base.{
  String, ◌≡◌, inl, inr, Bool, true, false, ◌∷◌, first_here, first_later, ap, ◌∙◌, ◌||◌, arith,
  is_some, Bool-cases,
}
use sovran_bitcoin.Base.Int.{ℤ}
use sovran_bitcoin.Base.Monad.{ok}
use sovran_bitcoin.Base.Text.{◌=ₛ◌}
use sovran_bitcoin.Store.Events.{processed, mark_event_processed}
use sovran_bitcoin.Store.Rows.{Db}

-- What marking an event again does.
pub known :
    (event : String) (later : ℤ) (db : Db)
    → processed event db ≡ true
    → mark_event_processed event later db ≡ (ok false, db)
unfolding mark_event_processed
known event later db h = rw h

abbrev marked : String → ℤ → Db → Db
marked event now db = record db {
  events = record { event_id = event; processed_at = now } ∷ db.events;
}

new_event :
    (event : String) (now : ℤ) (db : Db)
    → processed event db ≡ false
    → mark_event_processed event now db ≡ (ok true, marked event now db)
unfolding mark_event_processed
new_event event now db h = rw h

processed-marked :
    (event other : String) (now : ℤ) (db : Db)
    → processed other (marked event now db) ≡ (processed other db || event =ₛ other)
processed-marked event other now db = elim (Bool-cases (event =ₛ other)) [
  | inl same ↦
      ap is_some (
        first_here (λ r. r.event_id =ₛ other) (record { event_id = event; processed_at = now })
          db.events same)
      ∙ rw same (or_true (processed other db))
  | inr apart ↦
      ap is_some (
        first_later (λ r. r.event_id =ₛ other) (record { event_id = event; processed_at = now })
          db.events apart)
      ∙ rw apart (or_false (processed other db))
]
  where
    or_true : (b : Bool) → true ≡ (b || true)
    or_true b = ground arith

    or_false : (b : Bool) → b ≡ (b || false)
    or_false b = ground arith

known_processed :
    (event other : String) (db : Db)
    → processed event db ≡ true
    → processed other db ≡ (processed other db || event =ₛ other)
known_processed event other db seen = elim (Bool-cases (event =ₛ other)) [
  | inl same ↦
      let there : processed other db ≡ true =
        subst (λ e. processed e db ≡ true) ((eq_iff event other).0 same) seen in
      there ∙ rw there
  | inr apart ↦ rw apart (ground arith)
]

-- However the first call went, a second call with the same event answers False and leaves the store
-- as the first one left it; and the first call adds its own event to the processed ones and no other.
pub mark_event_processed-once :
    (event other : String) (now later : ℤ) (db : Db)
    → let once = (mark_event_processed event now db).1 in
      (mark_event_processed event later once ≡ (ok false, once))
      × (processed other once ≡ (processed other db || event =ₛ other))
mark_event_processed-once event other now later db = elim (Bool-cases (processed event db)) [
  | inl seen ↦
      rw (known event now db seen) (known event later db seen, known_processed event other db seen)
  | inr new ↦ rw (new_event event now db new) (
    known event later (marked event now db) (
        ap is_some (
          first_here (λ r. r.event_id =ₛ event) (record { event_id = event; processed_at = now })
            db.events (eq_refl event))),
    processed-marked event other now db,
  )
]
