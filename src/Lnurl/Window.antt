-- ===== src/Lnurl/Window.antt =====
-- How many invoices `do_get` can hand out for one alias within one window of time.
use mathlib.Core.Path.{subst}
use text.Mathlib.TextEquality.{eq_iff}
use sovran_bitcoin.Base.{
  ℕ, ◌+◌, ◌≤◌, String, ◌≡◌, refl, sym, inl, inr, Bool, true, false, List, [], ◌∷◌, length, All,
  Option, Bool-cases, ◌⊎◌, arith, if◌then◌else◌,
}
use sovran_bitcoin.Base.Text.{◌=ₛ◌}
use sovran_bitcoin.Lnurl.Callback.{Manager, Offer, lnurl_discovery}
use sovran_bitcoin.Lnurl.Limit.{check_rate_limit, check_rate_limit-bounded}
use sovran_bitcoin.Lnurl.Since.{one_if, since, since-le, since-check}
use sovran_bitcoin.Lnurl.Server.{
  Limits, Request, Library, Response, Route, route_of, limited, serve, do_get, offered, callback_of,
  get_client_ip, rate_limit_window_sec, rate_limit_max_requests, rate_limit_max_per_alias,
}

abbrev is_invoice : Response → ℕ
is_invoice (Response.failure reason status) = 0
is_invoice (Response.offer p) = 0
is_invoice (Response.invoice pr) = 1

is_invoice-offered : (o : Offer) → is_invoice (offered o) ≡ 0
is_invoice-offered (Offer.refused reason status) = refl
is_invoice-offered (Offer.offered p) = refl

is_invoice-le : (r : Response) → is_invoice r ≤ 1
is_invoice-le (Response.failure reason status) = omega arith
is_invoice-le (Response.offer p) = omega arith
is_invoice-le (Response.invoice pr) = omega arith

-- No alias has more times in its bucket than its limit.
abbrev pub Bounded : Limits → Type 0
Bounded l = (alias : String) → length (l.aliases alias) ≤ rate_limit_max_per_alias

limited-Bounded :
    (now : ℕ) (name : String) (answer : Response) (l : Limits)
    → Bounded l
    → Bounded (limited now name answer l).1
limited-Bounded now name answer l bounded alias =
    (check_rate_limit-bounded rate_limit_window_sec rate_limit_max_per_alias now name alias
      l.aliases bounded).0

-- How a request for an alias counts: as one, where the route is the alias's and it has an invoice.
abbrev counts : String → String → Response → ℕ
counts alias name r = if alias =ₛ name then is_invoice r else 0

admitted-counts :
    (allowed : Bool) (reason : String) (answer : Response)
    → is_invoice (if allowed then answer else Response.failure reason 429) ≤ one_if allowed
admitted-counts true reason answer = is_invoice-le answer
admitted-counts false reason answer = omega arith

check-grows :
    (t now : ℕ) (alias name : String) (l : Limits)
    → t ≤ now
    → now ≤ t + rate_limit_window_sec
    → (alias =ₛ name) ≡ false
    → since t (l.aliases alias)
      ≡ since t (
          (check_rate_limit rate_limit_window_sec rate_limit_max_per_alias now name l.aliases).1
            alias)
unfolding check_rate_limit
check-grows t now alias name l late soon apart = rw apart refl

limited-counts :
    (t now : ℕ) (alias name : String) (answer : Response) (l : Limits)
    → t ≤ now
    → now ≤ t + rate_limit_window_sec
    → counts alias name (limited now name answer l).0 + since t (l.aliases alias)
      ≤ since t ((limited now name answer l).1.aliases alias)
limited-counts t now alias name answer l late soon = elim (Bool-cases (alias =ₛ name)) [
  | inr apart ↦ rw apart (omega (arith, check-grows t now alias name l late soon apart))
  | inl same ↦ rw same (same_name ((eq_iff alias name).0 same))
]
  where
    allowed : Bool
    allowed = (check_rate_limit rate_limit_window_sec rate_limit_max_per_alias now name l.aliases).0

    same_name :
        alias ≡ name
        → is_invoice (limited now name answer l).0 + since t (l.aliases alias)
          ≤ since t ((limited now name answer l).1.aliases alias)
    same_name e =
        subst
          (λ k.
            is_invoice (limited now name answer l).0 + since t (l.aliases k)
            ≤ since t ((limited now name answer l).1.aliases k))
          (sym e)
          (omega (
            arith,
            since-check rate_limit_window_sec rate_limit_max_per_alias now t name l.aliases late
                soon,
            admitted-counts allowed
                "Rate limit exceeded for this Lightning Address. Please slow down." answer,
          ))

-- A request with what it meets.
pub record Visit : Type 0 where
  pub now : ℕ
  pub manager : Manager
  pub domain : Option String
  pub request : Request

module _ (lib : Library) where
  abbrev counts_at : String → Route → Response → ℕ
  counts_at alias Route.nowhere r = 0
  counts_at alias (Route.discovery name) r = 0
  counts_at alias (Route.callback name) r = counts alias (lib.unquote name) r

  abbrev pub answer_of : Visit → Limits → Response × Limits
  answer_of v l = do_get lib v.manager v.domain v.now v.request l

  -- How many of the responses to a sequence of requests hand out an invoice for an alias.
  abbrev pub invoices : String → List Visit → Limits → ℕ
  invoices alias [] l = 0
  invoices alias (v ∷ vs) l =
      counts_at alias (route_of v.request.path) (answer_of v l).0
      + invoices alias vs (answer_of v l).1

  abbrev pub IsDuring : ℕ → Visit → Type 0
  IsDuring t v = (t ≤ v.now) × (v.now ≤ t + rate_limit_window_sec)

  serve-counts :
      (t : ℕ) (alias : String) (v : Visit) (route : Route) (l : Limits)
      → IsDuring t v
      → counts_at alias route (serve lib v.manager v.domain v.now route v.request.amounts l).0
          + since t (l.aliases alias)
        ≤ since t ((serve lib v.manager v.domain v.now route v.request.amounts l).1.aliases alias)
  serve-counts t alias v Route.nowhere l (late, soon) = omega arith
  serve-counts t alias v (Route.discovery name) l (late, soon) = omega (
    arith,
    limited-counts t v.now alias (lib.unquote name)
        (offered (lnurl_discovery v.manager v.domain (lib.unquote name))) l late soon,
  )
  serve-counts t alias v (Route.callback name) l (late, soon) =
      limited-counts t v.now alias (lib.unquote name)
        (callback_of v.manager v.domain (lib.unquote name) v.request.amounts) l late soon

  serve-Bounded :
      (v : Visit) (route : Route) (l : Limits)
      → Bounded l
      → Bounded (serve lib v.manager v.domain v.now route v.request.amounts l).1
  serve-Bounded v Route.nowhere l bounded = bounded
  serve-Bounded v (Route.discovery name) l bounded =
      limited-Bounded v.now (lib.unquote name)
        (offered (lnurl_discovery v.manager v.domain (lib.unquote name))) l bounded
  serve-Bounded v (Route.callback name) l bounded =
      limited-Bounded v.now (lib.unquote name)
        (callback_of v.manager v.domain (lib.unquote name) v.request.amounts) l bounded

  passes : Visit → Limits → Bool
  passes v l =
      (check_rate_limit rate_limit_window_sec rate_limit_max_requests v.now
        (get_client_ip lib v.request) l.clients).0

  counted : Visit → Limits → Limits
  counted v l = record {
    clients =
        (check_rate_limit rate_limit_window_sec rate_limit_max_requests v.now
          (get_client_ip lib v.request) l.clients).1;
    aliases = l.aliases;
  }

  -- A request is served behind the client's limiter, or denied.
  answer_of-cases :
      (v : Visit) (l : Limits)
      → (answer_of v l
          ≡ serve lib v.manager v.domain v.now
              (route_of v.request.path)
              v.request.amounts
              (counted v l))
        ⊎ (answer_of v l
            ≡ (Response.failure "Rate limit exceeded. Please slow down." 429, counted v l))
  unfolding do_get passes counted
  answer_of-cases v l = elim (Bool-cases (passes v l)) [
    | inl free ↦ inl (rw free refl)
    | inr full ↦ inr (rw full refl)
  ]

  counts_at-denied :
      (alias reason : String) (status : ℕ) (route : Route)
      → counts_at alias route (Response.failure reason status) ≡ 0
  counts_at-denied alias reason status Route.nowhere = refl
  counts_at-denied alias reason status (Route.discovery name) = refl
  counts_at-denied alias reason status (Route.callback name) =
      elim (Bool-cases (alias =ₛ lib.unquote name)) [
        | inl same ↦ rw same refl
        | inr apart ↦ rw apart refl
      ]

  answer_of-Bounded : (v : Visit) (l : Limits) → Bounded l → Bounded (answer_of v l).1
  unfolding counted
  answer_of-Bounded v l bounded = elim (answer_of-cases v l) [
    | inl served ↦ rw served (serve-Bounded v (route_of v.request.path) (counted v l) bounded)
    | inr denied ↦ rw denied bounded
  ]

  answer_of-counts :
      (t : ℕ) (alias : String) (v : Visit) (l : Limits)
      → IsDuring t v
      → counts_at alias (route_of v.request.path) (answer_of v l).0 + since t (l.aliases alias)
        ≤ since t ((answer_of v l).1.aliases alias)
  unfolding counted
  answer_of-counts t alias v l during = elim (answer_of-cases v l) [
    | inl served ↦ rw served (serve-counts t alias v (route_of v.request.path) (counted v l) during)
    | inr denied ↦
        rw
          (
            denied,
            counts_at-denied alias "Rate limit exceeded. Please slow down." 429
                (route_of v.request.path),
          )
          (omega arith)
  ]

  -- From limits that no bucket exceeds, any requests within one window, whoever sends them and whatever
  -- the manager answers, are handed at most `RATE_LIMIT_MAX_PER_ALIAS` invoices for any one
  -- alias, as the request's path spells it.
  pub invoices-limited :
      (t : ℕ) (alias : String) (vs : List Visit) (l : Limits)
      → All (IsDuring t) vs
      → Bounded l
      → invoices alias vs l ≤ rate_limit_max_per_alias
  invoices-limited t alias vs l during bounded = omega (arith, total vs l during bounded)
    where
      total :
          (vs : List Visit) (l : Limits)
          → All (IsDuring t) vs
          → Bounded l
          → invoices alias vs l + since t (l.aliases alias) ≤ rate_limit_max_per_alias
      total [] l during bounded = omega (arith, since-le t (l.aliases alias), bounded alias)
      total (v ∷ vs) l (now, later) bounded = omega (
        arith,
        answer_of-counts t alias v l now,
        total vs (answer_of v l).1 later (answer_of-Bounded v l bounded),
      )
