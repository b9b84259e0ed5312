-- ===== src/Lnurl/Server.antt =====
-- The handler `do_GET` of the LNURL service: the client's address, the two rate limiters and the two
-- routes. `urlparse`, `parse_qs`, `unquote` and `ip_address` are parameters: a request holds the path
-- and the query's values of `amount`, none where there is no such key. The writing of the response and
-- the audit log are left out.
use Prim.Native.Char.{code}
use Prim.Native.String as S
use sovran_bitcoin.Base.{
  ℕ, String, Bool, Option, none, some, List, [], ◌∷◌, ◌&&◌, not, ◌==◌, if◌then◌else◌,
}
use sovran_bitcoin.Base.Text.{◌=ₛ◌, nonempty, strip}
use sovran_bitcoin.Lnurl.Callback.{
  Manager, PayRequest, Offer, Reply, lnurl_discovery, lnurl_callback,
}
use sovran_bitcoin.Lnurl.Limit.{Buckets, check_rate_limit}

-- The defaults; the environment may set others.
abbrev pub rate_limit_window_sec : ℕ
rate_limit_window_sec = 60

abbrev pub rate_limit_max_requests : ℕ
rate_limit_max_requests = 30

abbrev pub rate_limit_max_per_alias : ℕ
rate_limit_max_per_alias = 10

-- `_rate_limit_buckets` and `_rate_limit_alias_buckets`
pub record Limits : Type 0 where
  pub clients : Buckets
  pub aliases : Buckets

pub record Request : Type 0 where
  pub forwarded : Option String
  pub client_address : String
  pub path : String
  pub amounts : List String

-- `urllib.parse.unquote`, and whether `ipaddress.ip_address` takes a text.
pub record Library : Type 0 where
  pub unquote : String → String
  pub is_ip : String → Bool

pub data Response : Type 0 where
  failure : String → ℕ → Response
  offer : PayRequest → Response
  invoice : String → Response

-- The text before the first character of a code, and the rest from it on.
unfoldable pub cut : ℕ → String → String × String
cut k S.[] = ("", "")
cut k (S.◌∷◌ c s) =
    let (before, rest) = cut k s in if code c == k then ("", S.◌∷◌ c s) else (S.◌∷◌ c before, rest)

-- `forwarded.split(",")[0].strip()`, where the header is there and not empty.
abbrev pub candidate : Request → String
unfolding cut
candidate r = elim r.forwarded [
  | none ↦ r.client_address
  | some f ↦ if nonempty f then strip (cut b',' f).0 else r.client_address
]

abbrev pub get_client_ip : Library → Request → String
get_client_ip lib r = if lib.is_ip (candidate r) then candidate r else "unknown"

-- What follows a prefix.
unfoldable pub after : String → String → Option String
after S.[] s = some s
after (S.◌∷◌ p ps) S.[] = none
after (S.◌∷◌ p ps) (S.◌∷◌ c s) = let rest = after ps s in if code p == code c then rest else none

pub data Route : Type 0 where
  nowhere : Route
  discovery callback : String → Route

-- `/.well-known/lnurlp/([^/]+)`, whose dot stands for any character but a line feed.
abbrev pub well_known : String → Option String
unfolding after
well_known S.[] = none
well_known (S.◌∷◌ c S.[]) = none
well_known (S.◌∷◌ c (S.◌∷◌ d s)) =
    if code c == b'/' && not (code d == 10) then after "well-known/lnurlp/" s else none

-- The rest of a path from a name on, cut at the first slash.
abbrev pub discovery_route : String × String → Route
discovery_route (name, rest) =
    if nonempty name && not (nonempty rest) then Route.discovery name else Route.nowhere

abbrev pub callback_route : String × String → Route
callback_route (name, rest) =
    if nonempty name && (rest =ₛ "/callback") then Route.callback name else Route.nowhere

-- `/lnurlp/([^/]+)/callback`
abbrev pub callback_path : String → Route
unfolding after cut
callback_path path = elim (after "/lnurlp/" path) [
  | none ↦ Route.nowhere
  | some s ↦ callback_route (cut b'/' s)
]

abbrev pub or_callback : String → Route → Route
or_callback path Route.nowhere = callback_path path
or_callback path (Route.discovery name) = Route.discovery name
or_callback path (Route.callback name) = Route.callback name

unfoldable pub route_of : String → Route
unfolding cut
route_of path = elim (well_known path) [
  | none ↦ callback_path path
  | some s ↦ or_callback path (discovery_route (cut b'/' s))
]

abbrev pub offered : Offer → Response
offered (Offer.refused reason status) = Response.failure reason status
offered (Offer.offered p) = Response.offer p

abbrev pub replied : Reply → Response
replied (Reply.failure reason status) = Response.failure reason status
replied (Reply.invoice pr) = Response.invoice pr

-- `qs.get("amount")`: none, one or more.
abbrev pub callback_of : Manager → Option String → String → List String → Response
callback_of m domain alias [] = replied (lnurl_callback m domain alias none)
callback_of m domain alias (amount ∷ []) = replied (lnurl_callback m domain alias (some amount))
callback_of m domain alias (amount ∷ another ∷ more) =
    Response.failure "A single amount parameter is required" 400

-- A route's answer, where the alias has room in its bucket.
abbrev pub limited : ℕ → String → Response → Limits → Response × Limits
limited now alias answer l =
    let (allowed, aliases) =
      check_rate_limit rate_limit_window_sec rate_limit_max_per_alias now alias l.aliases in
    (
      if allowed
          then answer
          else Response.failure "Rate limit exceeded for this Lightning Address. Please slow down."
              429,
      record { clients = l.clients; aliases = aliases },
    )

abbrev pub serve :
    Library → Manager → Option String → ℕ → Route → List String → Limits → Response × Limits
serve lib m domain now Route.nowhere amounts l = (Response.failure "Not found" 404, l)
serve lib m domain now (Route.discovery name) amounts l =
    limited now (lib.unquote name) (offered (lnurl_discovery m domain (lib.unquote name))) l
serve lib m domain now (Route.callback name) amounts l =
    limited now (lib.unquote name) (callback_of m domain (lib.unquote name) amounts) l

-- The manager and the domain are those that the request meets, `now` the clock as both limiters read
-- it.
unfoldable pub do_get : Library → Manager → Option String → ℕ → Request → Limits → Response × Limits
do_get lib m domain now r l =
    let (allowed, clients) =
      check_rate_limit rate_limit_window_sec rate_limit_max_requests now (get_client_ip lib r)
        l.clients in
    let counted : Limits = record { clients = clients; aliases = l.aliases } in
    if allowed
    then serve lib m domain now (route_of r.path) r.amounts counted
    else (Response.failure "Rate limit exceeded. Please slow down." 429, counted)
