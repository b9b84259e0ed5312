-- ===== src/Lnurl/Tests.antt =====
-- The theorems at concrete buckets and a concrete address.
use sovran_bitcoin.Base.{ℕ, ◌≤◌, ◌≡◌, true, [], ◌∷◌, arith}
use sovran_bitcoin.Lnurl.Callback.{
  LnurlApp, Found, Manager, Reply, Sold, lnurl_discovery, lnurl_callback, lnurl_callback-Sold,
}
use sovran_bitcoin.Base.Text.{lower, strip}
use sovran_bitcoin.Base.{some, none, refl}
use sovran_bitcoin.Lnurl.Limit.{Buckets, prune, check_rate_limit, check_rate_limit-window}
use sovran_bitcoin.Lnurl.Server.{Limits, Library, do_get, route_of, cut, after}
use sovran_bitcoin.Lnurl.Window.{Visit, invoices, invoices-limited}

abbrev visits : Buckets
visits ip = 10 ∷ 75 ∷ 80 ∷ []

check_rate_limit-window_example :
    ((check_rate_limit 60 3 100 "10.0.0.1" visits).0 ≡ true)
    × ((check_rate_limit 60 3 100 "10.0.0.1" visits).1 "10.0.0.1" ≡ 75 ∷ 80 ∷ 100 ∷ [])
check_rate_limit-window_example =
    check_rate_limit-window 60 3 100 "10.0.0.1" visits
      ((omega arith, (omega arith, tt)), ((omega arith, tt), (tt, tt)))

abbrev shop : LnurlApp
shop = record { id = 7; min_sendable = none; max_sendable = none; description = "" }

abbrev one_shop : Manager
one_shop = record {
  find_app_by_alias = λ alias. Found.found shop;
  find_app_again = λ alias. Found.found shop;
  issue_invoice = λ id amount description. some "lnbc21";
}

sold_21 :
    lnurl_callback one_shop (some "example.org") " Shop" (some "21000") ≡ Reply.invoice "lnbc21"
unfolding lnurl_callback lnurl_discovery lower strip
sold_21 = refl

lnurl_callback-Sold_example : Sold one_shop (some "example.org") " Shop" "21000" "lnbc21"
lnurl_callback-Sold_example =
    lnurl_callback-Sold one_shop (some "example.org") " Shop" "21000" "lnbc21" sold_21

abbrev library : Library
library = record { unquote = λ s. s; is_ip = λ s. true }

abbrev at_shop : ℕ → Visit
at_shop now = record {
  now = now;
  manager = one_shop;
  domain = some "example.org";
  request = record {
    forwarded = some "10.0.0.1, 10.0.0.9";
    client_address = "127.0.0.1";
    path = "/lnurlp/shop/callback";
    amounts = "21000" ∷ [];
  };
}

abbrev quiet : Limits
quiet = record { clients = λ k. []; aliases = λ k. [] }

two_invoices : invoices library "shop" (at_shop 100 ∷ at_shop 101 ∷ []) quiet ≡ 2
unfolding do_get route_of cut after check_rate_limit prune lnurl_callback lnurl_discovery lower
    strip
two_invoices = refl

invoices-limited_example : invoices library "shop" (at_shop 100 ∷ at_shop 101 ∷ []) quiet ≤ 10
invoices-limited_example =
    invoices-limited library 100 "shop" (at_shop 100 ∷ at_shop 101 ∷ []) quiet
      ((omega arith, omega arith), ((omega arith, omega arith), tt)) (λ alias. omega arith)
