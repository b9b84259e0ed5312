-- ===== src/Daemon/Http/Tests.antt =====
-- The theorems on the management API at concrete requests.
use sovran_bitcoin.Base.{String, refl, Option, none, some, [], ◌∷◌, arith, if◌then◌else◌}
use sovran_bitcoin.Base.Int.{pos, ◌≤ℤ◌, ◌+ℤ◌}
use sovran_bitcoin.Base.Json.{Json, Fields, Dict}
use sovran_bitcoin.Base.Reading.{Python}
use sovran_bitcoin.Base.Text.{◌=ₛ◌, strip}
use sovran_bitcoin.Daemon.Http.Funding.{post_transfer-IsBacked}
use sovran_bitcoin.Daemon.Http.Privilege.{Fails, IsHarmless, handle_http-IsHarmless}
use sovran_bitcoin.Daemon.Http.Sound.{IsOrderly, handle_http-IsOrderly}
use sovran_bitcoin.Daemon.Http.{
  Server, Request, Fresh, full_read, auth_of, post_transfer, handle_http,
}
use sovran_bitcoin.Daemon.Tests.{funded, funded-IsSound, greedy, greedy-IsLnd, world, carol_keys}
use sovran_bitcoin.Daemon.Tokens.{verify_token}
use sovran_bitcoin.Store.Apps.{create_app, add_row, read_back, total_allocated_msat}
use sovran_bitcoin.Store.Sql.{credit, insert_tx}
use sovran_bitcoin.Store.Transfer.{transfer, move}

abbrev py : Python
py = record { repr = λ x. ""; dict_of = λ xs. none; unquote = λ s. s }

abbrev fresh : Fresh
fresh = record { token = "t9"; keys = carol_keys; created_at = "now"; now = pos 9 }

abbrev five_sats : Dict
five_sats =
    Fields.field "toAppId" (Json.num (pos 1))
      (Fields.field "amountMsat" (Json.num (pos 5000)) Fields.end)

abbrev bearer_t1 : String → Option String
bearer_t1 name = if name =ₛ "Authorization" then some "Bearer t1" else none

abbrev funding : Request
funding = record {
  method = "POST";
  route = "/api/transfers";
  query = λ key. none;
  headers = bearer_t1;
  body = some five_sats;
}

abbrev served : String → Server
served permission = record {
  world = world;
  tokens = record { token = "t1"; permission = permission } ∷ [];
}

handle_http-IsOrderly_example :
    IsOrderly (handle_http py greedy "pw" fresh funding (served "full")).1
handle_http-IsOrderly_example =
    handle_http-IsOrderly py greedy "pw" fresh greedy-IsLnd funding (served "full")
      (record { books = funded-IsSound; permissions = (refl, tt) })

only_invoices : Fails (verify_token (auth_of funding) full_read (served "invoice").tokens)
unfolding verify_token strip
only_invoices = (_, refl)

handle_http-IsHarmless_example :
    IsHarmless (served "invoice") (handle_http py greedy "pw" fresh funding (served "invoice"))
handle_http-IsHarmless_example =
    handle_http-IsHarmless py greedy "pw" fresh funding (served "invoice") only_invoices

allocated_before : total_allocated_msat funded ≤ℤ pos 100000
unfolding total_allocated_msat transfer move credit insert_tx create_app add_row read_back strip
    ◌+ℤ◌
allocated_before = omega arith

post_transfer-IsBacked_example :
    total_allocated_msat
      (post_transfer py greedy fresh (some "Bearer t1") five_sats (served "full")).1.world.db
    ≤ℤ pos 100000
post_transfer-IsBacked_example =
    post_transfer-IsBacked py greedy fresh (pos 100000) (some "Bearer t1") five_sats (served "full")
      refl refl (omega arith) funded-IsSound allocated_before
