-- ===== src/Daemon/World.antt =====
-- What a request of the daemon changes: the store, and the notifications that go out to the relays
-- (`_emit_notification`). Encryption and transport are left out, since a failure there is swallowed.
use sovran_bitcoin.Base.{
  ℕ, String, Bool, false, Option, none, some, List, [], ◌∷◌, first, ◌==◌, ◌||◌, if◌then◌else◌,
}
use sovran_bitcoin.Base.Monad.{Action, Stays, ok}
use sovran_bitcoin.Base.Text.{◌=ₛ◌}
use sovran_bitcoin.Store.Apps.{Internal, get_all_active_apps_internal}
use sovran_bitcoin.Store.Rows.{Db, TxDict}

pub record Notice : Type 0 where
  pub app_id : ℕ
  pub notification_type : String
  pub notification : TxDict

-- The newest notice stands first.
pub record World : Type 0 where
  pub db : Db
  pub notices : List Notice

-- A method of the store.
abbrev pub on_store : {A : Type 0} → Action Db A → Action World A
on_store m w = let (r, db') = m w.db in (r, record w { db = db' })

-- `x in xs`
abbrev pub member : String → List String → Bool
member x [] = false
member x (y ∷ ys) = (y =ₛ x) || member x ys

abbrev pub notify : Option Internal → ℕ → String → TxDict → List Notice → List Notice
notify none a kind tx ns = ns
notify (some app) a kind tx ns =
    if member "notifications" app.0.scopes
    then record { app_id = a; notification_type = kind; notification = tx } ∷ ns
    else ns

abbrev pub the_app : ℕ → Db → Option Internal
the_app a db = first (λ (x : Internal). x.0.id == a) (get_all_active_apps_internal db)

-- `_emit_notification`
unfoldable pub emit_notification : ℕ → String → TxDict → Action World (Unit {0})
emit_notification a kind tx w =
    (ok tt, record w { notices = notify (the_app a w.db) a kind tx w.notices })

-- A property of the store, read of the world.
abbrev pub OfStore : (Db → Type 0) → World → Type 0
OfStore P w = P w.db

pub on_store-Stays :
    {A : Type 0} (P : Db → Type 0) (m : Action Db A) → Stays P m → Stays (OfStore P) (on_store m)
on_store-Stays P m h w p = h w.db p

pub emit_notification-Stays :
    (P : Db → Type 0) (a : ℕ) (kind : String) (tx : TxDict)
    → Stays (OfStore P) (emit_notification a kind tx)
unfolding emit_notification
emit_notification-Stays P a kind tx w p = p
