-- ===== src/Hub/Client.antt =====
-- `class AlbyHubManager`: requests to the management API, its bearer token, and the retry. The hub is a
-- parameter, what it does to its own state included; so are what the wait loops for files and for the
-- hub come to, and the text of the unlock password. The audit log is left out.
use sovran_bitcoin.Base.{
  ℕ, String, Bool, false, Option, none, some, List, ◌||◌, ◌==◌, if◌then◌else◌,
}
use sovran_bitcoin.Base.Int.{ℤ}
use sovran_bitcoin.Base.Monad.{
  Exc, Result, ok, raised, hub_error, hub_http, Action, pure, raise, gets, modify, ◌>>=◌, ◌>>◌,
}
use sovran_bitcoin.Base.Text.{nonempty}
use sovran_bitcoin.Store.Apps.{NewApp}
use sovran_bitcoin.Store.Rows.{AppDict, TxDict}

-- The requests that the manager makes. A transfer's amount is in millisatoshis: `amountSat` is sent as
-- its thousandfold.
pub data Call : Type 0 where
  info setup : Call
  unlock start : String → String → Call
  node_status : Call
  apps : ℕ → ℕ → Call
  transactions : ℕ → ℕ → ℕ → Call
  one_app : ℕ → Call
  create_app : NewApp → Call
  delete_app : String → Call
  transfer : Option ℕ → Option ℕ → ℤ → String → Call
  invoice : ℕ → ℤ → String → Call

-- What it reads of the answers. A page's total is there or not.
pub record HubInfo : Type 0 where
  pub setup_completed : Bool
  pub running : Bool

pub record Minted : Type 0 where
  pub invoice : String
  pub app_id : Option ℕ

pub data Answer : Type 0 where
  hub_info : HubInfo → Answer
  granted : String → Answer
  app_page : List AppDict → Option ℕ → Answer
  transaction_page : List TxDict → Option ℕ → Answer
  wallet : AppDict → Answer
  created : AppDict → String → Answer
  minted : Minted → Answer
  empty : Answer

-- A request with a token or none: an answer, an `AlbyHubHttpError` or an `AlbyHubError`.
pub record Hub (S : Type 0) : Type 0 where
  pub request : Call → Option String → Action S Answer

-- The manager's cached token beside the hub.
pub record Managed (S : Type 0) : Type 0 where
  pub hub : S
  pub token : Option String

pub record Setting : Type 0 where
  pub password : Result String
  pub permission : String
  pub files : Result (Unit {0})
  pub hub_up : Result (Unit {0})
  pub node_up : Result (Unit {0})

module _ {S : Type 0} (hub : Hub S) (setting : Setting) where
  abbrev pub request : Call → Option String → Action (Managed S) Answer
  request call bearer m = let (r, s) = hub.request call bearer m.hub in (r, record m { hub = s })

  abbrev pub attempt : {A : Type 0} → Action (Managed S) A → Action (Managed S) (Result A)
  attempt f m = let (r, m') = f m in (ok r, m')

  abbrev pub lift : {A : Type 0} → Result A → Action (Managed S) A
  lift r m = (r, m)

  abbrev pub is_set_up : Result Answer → Result Bool
  is_set_up (ok (Answer.hub_info i)) = ok i.setup_completed
  is_set_up (ok _) = ok false
  is_set_up (raised (hub_error code message)) = ok false
  is_set_up (raised (hub_http n)) = ok false
  is_set_up (raised e) = raised e

  -- `if exc.status_code == 409: return`
  abbrev pub unless_conflict : Result Answer → Result (Unit {0})
  unless_conflict (ok x) = ok tt
  unless_conflict (raised (hub_http n)) = if n == 409 then ok tt else raised (hub_http n)
  unless_conflict (raised e) = raised e

  abbrev pub set_up : Bool → Action (Managed S) (Unit {0})
  set_up done =
      if done then pure tt else attempt (request Call.setup none) >>= λ r. lift (unless_conflict r)

  unfoldable pub hub_setup : Action (Managed S) (Unit {0})
  hub_setup = do
    found ← attempt (request Call.info none)
    done ← lift (is_set_up found)
    set_up done

  abbrev pub running : Answer → Bool
  running (Answer.hub_info i) = i.running
  running _ = false

  abbrev pub login : Bool → String → Call
  login up password =
      if up then Call.unlock password setting.permission else Call.start password setting.permission

  abbrev pub auth_failed : Exc
  auth_failed = hub_error "auth_failed" "Alby Hub auth response missing token"

  abbrev pub token_of : Answer → Result String
  token_of (Answer.granted t) = if nonempty t then ok t else raised auth_failed
  token_of _ = raised auth_failed

  unfoldable pub obtain_token : String → Action (Managed S) String
  obtain_token password = do
    found ← request Call.info none
    answer ← request (login (running found) password) none
    lift (token_of answer)

  abbrev pub keep : String → Managed S → Managed S
  keep t m = record m { token = some t }

  -- Behind `if self._token: return self._token`.
  unfoldable pub connect : Action (Managed S) String
  connect = do
    password ← lift setting.password
    lift setting.files
    lift setting.hub_up
    hub_setup
    t ← obtain_token password
    lift setting.node_up
    modify (keep t)
    pure t

  abbrev pub cached : Option String → Action (Managed S) String
  cached none = connect
  cached (some t) = if nonempty t then pure t else connect

  unfoldable pub ensure_ready : Action (Managed S) String
  ensure_ready = do held ← gets Managed.token; cached held

  abbrev pub forget : Managed S → Managed S
  forget m = record m { token = none }

  -- `if exc.status_code in (401, 403): …`
  abbrev pub retry_if : Bool → Call → Exc → Action (Managed S) Answer
  retry_if denied call e =
      if denied then (do modify forget; t ← ensure_ready; request call (some t)) else raise e

  abbrev pub handle : Call → Result Answer → Action (Managed S) Answer
  handle call (raised (hub_http n)) = retry_if (n == 401 || n == 403) call (hub_http n)
  handle call (ok x) = pure x
  handle call (raised e) = raise e

  unfoldable pub authenticated_request : Call → Action (Managed S) Answer
  authenticated_request call = do
    t ← ensure_ready
    first ← attempt (request call (some t))
    handle call first
