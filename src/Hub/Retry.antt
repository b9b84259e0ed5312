-- ===== src/Hub/Retry.antt =====
-- How often `_authenticated_request` makes its request, seen from the hub: a watch over the hub notes
-- each request that carries a token, with what came of it.
use sovran_bitcoin.Base.{String, ◌≡◌, true, false, Bool, Option, none, some, List, ◌∷◌, ◌||◌, ◌==◌}
use sovran_bitcoin.Base.Monad.{Exc, Result, Action, ok, raised, hub_http, ◌>>=◌, ◌>>◌, pure, modify}
use sovran_bitcoin.Base.Text.{nonempty}
use sovran_bitcoin.Hub.Client.{
  Call, Answer, Hub, Managed, Setting, request, lift, hub_setup, obtain_token, keep, ensure_ready,
  handle,
}

module _ {S : Type 0} (hub : Hub S) (setting : Setting) (m : Managed S) (t : String)
    (held : m.token ≡ some t) (real : nonempty t ≡ true) where
  -- A token that is held is given back, with no request.
  pub ensure_ready-held : ensure_ready hub setting m ≡ (ok t, m)
  unfolding ensure_ready
  ensure_ready-held = rw (held, real)

-- A denial, by status.
abbrev pub denied : Result Answer → Bool
denied (ok x) = false
denied (raised (hub_http n)) = n == 401 || n == 403
denied (raised e) = false

abbrev pub Notes : Type 0
Notes = List (Call × Result Answer)

abbrev pub noted :
    {S : Type 0} → Call → Option String → Notes → Result Answer × S → Result Answer × (S × Notes)
noted call none notes (r, s) = (r, (s, notes))
noted call (some t) notes (r, s) = (r, (s, (call, r) ∷ notes))

-- The hub, and the notes on what it was asked with a token, the latest first.
abbrev pub watched : {S : Type 0} → Hub S → Hub (S × Notes)
watched hub = record {
  request = λ call bearer w. noted call bearer w.1 (hub.request call bearer w.0);
}

module _ {S : Type 0} (hub : Hub S) (setting : Setting) (notes : Notes) where
  abbrev Unasked : Managed (S × Notes) → Type 0
  Unasked m = m.hub.1 ≡ notes

  abbrev watch : Hub (S × Notes)
  watch = watched hub

  abbrev finished : String → Action (Managed (S × Notes)) String
  finished t = do lift watch setting setting.node_up; modify (keep watch setting t); pure t

  abbrev logged_in : String → Action (Managed (S × Notes)) String
  logged_in password = obtain_token watch setting password >>= finished

  abbrev opened : String → Action (Managed (S × Notes)) String
  opened password = hub_setup watch setting >> logged_in password

  abbrev reached : String → Action (Managed (S × Notes)) String
  reached password = lift watch setting setting.hub_up >> opened password

-- What the notes say of one call of `_authenticated_request`, by what it comes to: no request, as no
-- token could be had; one that was not denied; a denied one behind which no token could be had; or a
-- denied one and a second one.
pub data Tries (call : Call) (before : Notes) : Result Answer → Notes → Type 0 where
  unsent : (e : Exc) → Tries call before (raised e) before
  once : (r : Result Answer) → denied r ≡ false → Tries call before r ((call, r) ∷ before)
  dropped :
      (first : Result Answer) (e : Exc)
      → denied first ≡ true
      → Tries call before (raised e) ((call, first) ∷ before)
  twice :
      (first r : Result Answer)
      → denied first ≡ true
      → Tries call before r ((call, r) ∷ (call, first) ∷ before)

module _ {S : Type 0} (hub : Hub S) (setting : Setting) (call : Call) where
  abbrev send : String → Action (Managed (S × Notes)) Answer
  send t = request (watched hub) setting call (some t)

  abbrev outcome : Result Answer → Managed (S × Notes) → Result Answer × Managed (S × Notes)
  outcome first m = handle (watched hub) setting call first m
