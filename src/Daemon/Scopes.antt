-- ===== src/Daemon/Scopes.antt =====
-- `SCOPE_TO_NIP47_METHODS`, `ALL_KNOWN_NIP47_METHODS`, `scopes_to_nip47_methods`.
pub mod Grants
use sovran_bitcoin.Base.{
  String, Bool, true, false, ◌||◌, not, List, [], ◌∷◌, ◌++◌, ◌≡◌, refl, if◌then◌else◌, arith,
  Bool-cases, inl, inr, ◌⊎◌,
}
use sovran_bitcoin.Base.Text.{◌=ₛ◌}
use sovran_bitcoin.Daemon.World.{member}

-- `SCOPE_TO_NIP47_METHODS.get(scope, [])`
unfoldable pub methods_of : String → List String
methods_of scope =
    if scope =ₛ "get_info"
    then "get_info" ∷ []
    else if scope =ₛ "get_balance"
    then "get_balance" ∷ []
    else if scope =ₛ "make_invoice"
    then "make_invoice" ∷ []
    else if scope =ₛ "lookup_invoice"
    then "lookup_invoice" ∷ []
    else if scope =ₛ "list_transactions"
    then "list_transactions" ∷ []
    else if scope =ₛ "pay_invoice"
    then "pay_invoice" ∷ "pay_keysend" ∷ []
    else []

abbrev pub all_known_nip47_methods : List String
all_known_nip47_methods =
    "get_info" ∷ "get_balance" ∷ "make_invoice" ∷ "lookup_invoice" ∷ "list_transactions"
    ∷ "pay_invoice" ∷ "pay_keysend" ∷ []

-- The inner loop: the methods that are not there yet, appended.
unfoldable pub add_new : List String → List String → List String
add_new methods [] = methods
add_new methods (m ∷ ms) =
    if member m methods then add_new methods ms else add_new (methods ++ (m ∷ [])) ms

unfoldable pub collect : List String → List String → List String
unfolding add_new methods_of
collect methods [] = methods
collect methods (scope ∷ scopes) = collect (add_new methods (methods_of scope)) scopes

unfoldable pub scopes_to_nip47_methods : List String → List String
unfolding collect
scopes_to_nip47_methods scopes = collect [] scopes
