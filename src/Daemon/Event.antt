-- ===== src/Daemon/Event.antt =====
-- `process_nip47_event`: a request event of kind 23194, from its signature to the response. Signature
-- checks, decryption and the parsing of the decrypted request are the parameter `Envelope`; a response
-- is its payload with what it is encrypted and addressed with. Keys and tags are taken to be texts, and
-- keys to be hexadecimal, which the signature check and `create_app` see to.
use Prim.Native.String as S
use sovran_bitcoin.Base.{
  String, ◌≡◌, refl, ap, leb, inl, inr, Bool, true, false, Option, none, some, List, [], ◌∷◌, ◌||◌,
  not, Bool-cases, if◌then◌else◌,
}
use sovran_bitcoin.Base.Int.{ℤ, pos, ◌==ℤ◌}
use sovran_bitcoin.Base.Monad.{Action, Result, Stays, Stays-bind, pure, gets, ok, ◌>>=◌, bind_ok}
use sovran_bitcoin.Base.Text.{◌=ₛ◌, lower}
use sovran_bitcoin.Daemon.Lnd.{Lnd, IsLnd}
use sovran_bitcoin.Daemon.Nip47.Sound.{handle_nip47_method-IsSound}
use sovran_bitcoin.Daemon.Nip47.{handle_nip47_method}
use sovran_bitcoin.Daemon.Stays.{either-Stays}
use sovran_bitcoin.Daemon.Pay.{Hashing}
use sovran_bitcoin.Daemon.Request.{Params, Payload}
use sovran_bitcoin.Daemon.World.{World, OfStore, member, on_store, on_store-Stays}
use sovran_bitcoin.Store.Apps.{Internal, get_app_internal_by_pubkeys}
use sovran_bitcoin.Store.Events.Once.{known}
use sovran_bitcoin.Store.Rows.{Db}
use sovran_bitcoin.Store.Events.{processed, mark_event_processed}
use sovran_bitcoin.Store.History.Sound.{mark_event_processed-IsSound}
use sovran_bitcoin.Store.Ledger.{IsSound}

pub record Event : Type 0 where
  pub kind : ℤ
  pub id : String
  pub pubkey : String
  pub tags : List (List String)
  pub content : String

pub record Request : Type 0 where
  pub method : String
  pub params : Params

-- `decrypt` is given whether NIP-44 is used, the content, the
-- wallet's private key and the client's key.
pub record Envelope : Type 0 where
  pub verify_event : Event → Bool
  pub decrypt : Bool → String → String → String → Option Request

pub record Response : Type 0 where
  pub wallet_privkey : String
  pub client_pubkey : String
  pub event_id : String
  pub payload : Payload
  pub use_nip44 : Bool

-- `[t[1] for t in tags if len(t) >= 2 and t[0] == name]`
abbrev pub tag_values : String → List (List String) → List String
tag_values name [] = []
tag_values name ([] ∷ ts) = tag_values name ts
tag_values name ((x ∷ []) ∷ ts) = tag_values name ts
tag_values name ((x ∷ y ∷ more) ∷ ts) =
    let rest = tag_values name ts in if x =ₛ name then y ∷ rest else rest

-- `p_tags[0] if p_tags else None`, in lower case.
abbrev pub wallet_of : List String → Option String
wallet_of [] = none
wallet_of (p ∷ ps) = some (lower p)

-- `"?iv=" in content`
abbrev pub has_iv : String → Bool
has_iv content = leb (S.find content "?iv=") (S.len content)

abbrev pub uses_nip44 : Event → Bool
uses_nip44 e = member "nip44_v2" (tag_values "encryption" e.tags) || not (has_iv e.content)

abbrev pub respond : Event → Internal → Payload → Response
respond e app payload = record {
  wallet_privkey = app.1;
  client_pubkey = lower e.pubkey;
  event_id = lower e.id;
  payload = payload;
  use_nip44 = uses_nip44 e;
}

abbrev pub unreadable : Payload
unreadable = Payload.error "error" "OTHER" "Failed to decrypt or parse NIP-47 request"

module _ (lnd : Lnd) (h : Hashing) (c : Envelope) (now later : ℤ) (e : Event) where
  abbrev pub reply : Internal → Payload → Action World (List Response)
  reply app payload = pure (respond e app payload ∷ [])

  abbrev pub execute : Internal → Option Request → Action World (List Response)
  execute app none = reply app unreadable
  execute app (some r) = handle_nip47_method lnd h now later app.0 r.method r.params >>= reply app

  abbrev pub if_new : Internal → Bool → Action World (List Response)
  if_new app new =
      if not new
      then pure []
      else execute app (c.decrypt (uses_nip44 e) e.content app.1 (lower e.pubkey))

  abbrev pub for_app : Option Internal → Action World (List Response)
  for_app none = pure []
  for_app (some app) = on_store (mark_event_processed (lower e.id) now) >>= if_new app

  abbrev pub find_recipient : World → Option Internal
  find_recipient w =
      get_app_internal_by_pubkeys (lower e.pubkey) (wallet_of (tag_values "p" e.tags)) w.db

  abbrev pub accepted : Action World (List Response)
  accepted = gets find_recipient >>= for_app

  unfoldable pub process_nip47_event : Action World (List Response)
  process_nip47_event =
      if not (e.kind ==ℤ pos 23194)
      then pure []
      else if not (c.verify_event e)
      then pure []
      else accepted

  execute-Stays :
      (app : Internal) (r : Option Request) → IsLnd lnd → Stays (OfStore IsSound) (execute app r)
  execute-Stays app none good w s = s
  execute-Stays app (some r) good w s =
      Stays-bind (OfStore IsSound) (handle_nip47_method lnd h now later app.0 r.method r.params)
        (reply app)
        (λ w s. handle_nip47_method-IsSound lnd h now later app.0 r.method r.params w good s)
        (λ p v q. q) w s

  for_app-Stays : (found : Option Internal) → IsLnd lnd → Stays (OfStore IsSound) (for_app found)
  for_app-Stays none good w s = s
  for_app-Stays (some app) good w s =
      Stays-bind (OfStore IsSound) (on_store (mark_event_processed (lower e.id) now)) (if_new app)
        (on_store-Stays IsSound (mark_event_processed (lower e.id) now)
          (mark_event_processed-IsSound (lower e.id) now))
        (λ new.
          either-Stays IsSound (not new) (pure [])
            (execute app (c.decrypt (uses_nip44 e) e.content app.1 (lower e.pubkey))) (λ v q. q)
            (execute-Stays app (c.decrypt (uses_nip44 e) e.content app.1 (lower e.pubkey)) good))
        w s

  -- Any event, with any signature, sender and content, keeps the invariant of the store, if LND reports
  -- no negative amount and takes no more in fees than its limit.
  pub process_nip47_event-IsSound :
      (w : World) → IsLnd lnd → IsSound w.db → IsSound (process_nip47_event w).1.db
  unfolding process_nip47_event
  process_nip47_event-IsSound w good s =
      either-Stays IsSound (not (e.kind ==ℤ pos 23194)) (pure []) _ (λ v q. q)
        (either-Stays IsSound (not (c.verify_event e)) (pure []) accepted (λ v q. q)
          (λ v q. for_app-Stays (find_recipient v) good v q))
        w s

  seen_before :
      (app : Internal) (w : World)
      → processed (lower e.id) w.db ≡ true
      → for_app (some app) w ≡ (ok [], w)
  seen_before app w seen =
      bind_ok (on_store (mark_event_processed (lower e.id) now)) w w (if_new app) false (
        ap (λ (x : Result Bool × Db). (x.0, record w { db = x.1 }))
          (known (lower e.id) now w.db seen))

  replayed :
      (found : Option Internal) (w : World)
      → processed (lower e.id) w.db ≡ true
      → for_app found w ≡ (ok [], w)
  replayed none w seen = refl
  replayed (some app) w seen = seen_before app w seen

  -- An event whose id is marked as processed gets no response, and changes neither the store nor what
  -- went out to the relays.
  pub process_nip47_event-replayed :
      (w : World) → processed (lower e.id) w.db ≡ true → process_nip47_event w ≡ (ok [], w)
  unfolding process_nip47_event
  process_nip47_event-replayed w seen = elim (Bool-cases (e.kind ==ℤ pos 23194)) [
    | inr other ↦ rw other
    | inl right ↦ elim (Bool-cases (c.verify_event e)) [
      | inr forged ↦ rw (right, forged)
      | inl signed ↦ rw (right, signed) (replayed (find_recipient w) w seen)
    ]
  ]
