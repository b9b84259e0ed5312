-- ===== src/Daemon/Scopes/Grants.antt =====
-- Which scopes give which methods.
use sovran_bitcoin.Base.{
  String, Bool, true, false, ◌||◌, List, [], ◌∷◌, ◌++◌, ◌≡◌, refl, ◌∙◌, arith, Bool-cases, inl, inr,
}
use text.Mathlib.TextEquality.{eq_iff}
use mathlib.Core.Path.{subst, sym}
use sovran_bitcoin.Base.Text.{◌=ₛ◌}
use sovran_bitcoin.Daemon.Scopes.{methods_of, add_new, collect, scopes_to_nip47_methods}
use sovran_bitcoin.Daemon.World.{member}

-- Some scope gives the method.
pub granted : String → List String → Bool
granted m [] = false
granted m (scope ∷ scopes) = member m (methods_of scope) || granted m scopes

member-append :
    (m x : String) (ms : List String) → member m (ms ++ (x ∷ [])) ≡ (member m ms || (x =ₛ m))
member-append m x [] = ground arith
member-append m x (y ∷ ys) = rw (member-append m x ys) (or_assoc (y =ₛ m) (member m ys) (x =ₛ m))
  where
    or_assoc : (a b c : Bool) → (a || (b || c)) ≡ ((a || b) || c)
    or_assoc a b c = ground arith

or_swap : (a b c : Bool) → ((a || b) || c) ≡ (a || (b || c))
or_swap a b c = ground arith

-- A method that is there already adds nothing.
absorbed :
    (m x : String) (methods : List String)
    → member x methods ≡ true
    → (x =ₛ m) ≡ true
    → member m methods ≡ true
absorbed m x methods there same = subst (λ y. member y methods ≡ true) ((eq_iff x m).0 same) there

member-add_new :
    (m : String) (methods ms : List String)
    → member m (add_new methods ms) ≡ (member m methods || member m ms)
unfolding add_new
member-add_new m methods [] = ground arith
member-add_new m methods (x ∷ ms) = elim (Bool-cases (member x methods)) [
  | inr new ↦
      rw (new, member-add_new m (methods ++ (x ∷ [])) ms, member-append m x methods)
        (or_swap (member m methods) (x =ₛ m) (member m ms))
  | inl there ↦
      rw (there, member-add_new m methods ms)
        (elim (Bool-cases (x =ₛ m)) [
          | inl same ↦ rw (absorbed m x methods there same)
          | inr other ↦ rw other
        ])
]

member-collect :
    (m : String) (methods scopes : List String)
    → member m (collect methods scopes) ≡ (member m methods || granted m scopes)
unfolding collect granted
member-collect m methods [] = ground arith
member-collect m methods (scope ∷ scopes) =
    rw
      (
        member-collect m (add_new methods (methods_of scope)) scopes,
        member-add_new m methods (methods_of scope),
      )
      (or_swap (member m methods) (member m (methods_of scope)) (granted m scopes))

-- A wallet may call exactly the methods that one of its scopes gives.
pub scopes_to_nip47_methods-granted :
    (m : String) (scopes : List String)
    → member m (scopes_to_nip47_methods scopes) ≡ granted m scopes
unfolding scopes_to_nip47_methods
scopes_to_nip47_methods-granted m scopes = member-collect m [] scopes

abbrev Spends : String → Type 0
Spends scope =
    (member "pay_invoice" (methods_of scope) ≡ (scope =ₛ "pay_invoice"))
    × (member "pay_keysend" (methods_of scope) ≡ (scope =ₛ "pay_invoice"))

Spends-at : (scope name : String) → (scope =ₛ name) ≡ true → Spends name → Spends scope
Spends-at scope name same h = subst Spends (sym ((eq_iff scope name).0 same)) h

spends : (scope : String) → Spends scope
unfolding methods_of
spends scope = elim (Bool-cases (scope =ₛ "get_info")) [
  | inl e ↦ Spends-at scope "get_info" e (refl, refl)
  | inr n₁ ↦ elim (Bool-cases (scope =ₛ "get_balance")) [
    | inl e ↦ Spends-at scope "get_balance" e (refl, refl)
    | inr n₂ ↦ elim (Bool-cases (scope =ₛ "make_invoice")) [
      | inl e ↦ Spends-at scope "make_invoice" e (refl, refl)
      | inr n₃ ↦ elim (Bool-cases (scope =ₛ "lookup_invoice")) [
        | inl e ↦ Spends-at scope "lookup_invoice" e (refl, refl)
        | inr n₄ ↦ elim (Bool-cases (scope =ₛ "list_transactions")) [
          | inl e ↦ Spends-at scope "list_transactions" e (refl, refl)
          | inr n₅ ↦ elim (Bool-cases (scope =ₛ "pay_invoice")) [
            | inl e ↦ Spends-at scope "pay_invoice" e (refl, refl)
            | inr n₆ ↦ rw (n₁, n₂, n₃, n₄, n₅, n₆) (refl, refl)
          ]
        ]
      ]
    ]
  ]
]

granted-spends :
    (scopes : List String)
    → (granted "pay_invoice" scopes ≡ member "pay_invoice" scopes)
      × (granted "pay_keysend" scopes ≡ member "pay_invoice" scopes)
unfolding granted
granted-spends [] = (refl, refl)
granted-spends (scope ∷ scopes) =
    let here = spends scope in
    let there = granted-spends scopes in (rw (here.0, there.0) refl, rw (here.1, there.1) refl)

-- A wallet may pay, by invoice or by keysend, exactly if `pay_invoice` is among its scopes.
pub scopes_to_nip47_methods-spends :
    (scopes : List String)
    → (member "pay_invoice" (scopes_to_nip47_methods scopes) ≡ member "pay_invoice" scopes)
      × (member "pay_keysend" (scopes_to_nip47_methods scopes) ≡ member "pay_invoice" scopes)
scopes_to_nip47_methods-spends scopes = (
  scopes_to_nip47_methods-granted "pay_invoice" scopes ∙ (granted-spends scopes).0,
  scopes_to_nip47_methods-granted "pay_keysend" scopes ∙ (granted-spends scopes).1,
)
