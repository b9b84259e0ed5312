-- ===== src/Hub/Answered.antt =====
-- An answer of `_authenticated_request` is the hub's own, to that request with a token.
use sovran_bitcoin.Base.{String, ◌≡◌, refl, ap, ◌∙◌, Bool, true, false, some, ◌||◌, ◌==◌, Option}
use sovran_bitcoin.Base.Inverse.{bind_inverse, pure_inverse}
use sovran_bitcoin.Base.Monad.{
  Exc, Result, Action, ok, raised, hub_error, hub_http, store_error, lnd_error, value_error,
  type_error, integrity_error, ◌>>=◌,
}
use sovran_bitcoin.Hub.Client.{
  Call, Answer, Hub, Managed, Setting, request, attempt, ensure_ready, forget, retry_if, handle,
  authenticated_request,
}

module _ {S : Type 0} (hub : Hub S) (setting : Setting) (call : Call) where
  request-answered :
      (bearer : Option String) (m m' : Managed S) (x : Answer)
      → request hub setting call bearer m ≡ (ok x, m')
      → hub.request call bearer m.hub ≡ (ok x, m'.hub)
  request-answered bearer m m' x h = pair (hub.request call bearer m.hub) refl h
    where
      pair :
          (p : Result Answer × S)
          → hub.request call bearer m.hub ≡ p
          → ◌≡◌ {A = Result Answer × Managed S} (p.0, record m { hub = p.1 }) (ok x, m')
          → hub.request call bearer m.hub ≡ (ok x, m'.hub)
      pair (r, s) e k =
          let first : r ≡ ok x = ap (λ q. q.0) k in
          let second : s ≡ m'.hub = ap (λ q. q.1.hub) k in e ∙ rw (first, second) refl

  -- The hub gave this answer to the request with some token, and left this state.
  abbrev pub WasGiven : Answer → S → Type 0
  WasGiven x after = (t : String) × (s : S) × (hub.request call (some t) s ≡ (ok x, after))

  abbrev again : Action (Managed S) Answer
  again = ensure_ready hub setting >>= λ t. request hub setting call (some t)

  again-answered : (m m' : Managed S) (x : Answer) → again m ≡ (ok x, m') → WasGiven x m'.hub
  again-answered m m' x h =
      let (t, m1, ready, given) =
        bind_inverse (ensure_ready hub setting) (λ t. request hub setting call (some t)) m x m' h in
      (t, m1.hub, request-answered (some t) m1 m' x given)

  retry_if-answered :
      (denied : Bool) (e : Exc) (m m' : Managed S) (x : Answer)
      → retry_if hub setting denied call e m ≡ (ok x, m')
      → WasGiven x m'.hub
  retry_if-answered true e m m' x h = again-answered (forget hub setting m) m' x h
  retry_if-answered false e m m' x h = absurd (cc)

  handle-answered :
      (first : Result Answer) (t : String) (s : S) (m m' : Managed S) (x : Answer)
      → hub.request call (some t) s ≡ (first, m.hub)
      → handle hub setting call first m ≡ (ok x, m')
      → WasGiven x m'.hub
  handle-answered (ok y) t s m m' x e h =
      let (same, kept) = pure_inverse y x m m' h in (t, s, e ∙ rw (same, kept) refl)
  handle-answered (raised (hub_http n)) t s m m' x e h =
      retry_if-answered (n == 401 || n == 403) (hub_http n) m m' x h
  handle-answered (raised (hub_error code message)) t s m m' x e h = absurd (cc)
  handle-answered (raised (store_error code message n)) t s m m' x e h = absurd (cc)
  handle-answered (raised (lnd_error code message)) t s m m' x e h = absurd (cc)
  handle-answered (raised value_error) t s m m' x e h = absurd (cc)
  handle-answered (raised type_error) t s m m' x e h = absurd (cc)
  handle-answered (raised integrity_error) t s m m' x e h = absurd (cc)

  pub authenticated_request-answered :
      (m m' : Managed S) (x : Answer)
      → authenticated_request hub setting call m ≡ (ok x, m')
      → WasGiven x m'.hub
  unfolding authenticated_request
  authenticated_request-answered m m' x h =
      let (t, m1, ready, rest) =
        bind_inverse (ensure_ready hub setting)
          (λ t. attempt hub setting (request hub setting call (some t)) >>= handle hub setting call)
          m x m' h in
      let (first, after) = hub.request call (some t) m1.hub in
      handle-answered first t m1.hub (record m1 { hub = after }) m' x refl rest
