-- ===== src/Helpers/Domain/Hostname.antt =====
-- A domain that passes is made of letters, digits, hyphens and dots, so nothing can be injected with it.
use Prim.Native.Char.{Char}
use Prim.Native.String as S
use sovran_bitcoin.Base.{
  ℕ, ◌≤◌, String, ◌≡◌, refl, inl, inr, Bool, true, false, Option, none, some, List, [], ◌∷◌, All,
  ◌&&◌, ◌||◌, not, leb, ltb, Bool-cases, arith,
}
use sovran_bitcoin.Base.Text.{nonempty, canonical}
use sovran_bitcoin.Helpers.Domain.{
  letter?, alnum?, inner?, dot?, label_rest, is_label, all_letters, is_top, onto_first, labels,
  are_labels, any_unsafe, validate_domain_value, if_valid, from_file, nwc_domain,
}

abbrev pub host? : Char → Bool
host? c = inner? c || dot? c

unfoldable pub all_host : String → Bool
all_host S.[] = true
all_host (S.◌∷◌ c s) = host? c && all_host s

all_inner : String → Bool
all_inner S.[] = true
all_inner (S.◌∷◌ c s) = inner? c && all_inner s

abbrev IsInner : String → Type 0
IsInner s = all_inner s ≡ true

and_left : (a b : Bool) → (a && b) ≡ true → a ≡ true
and_left a b h = ground arith

and_right : (a b : Bool) → (a && b) ≡ true → b ≡ true
and_right a b h = ground arith

both : (a b : Bool) → a ≡ true → b ≡ true → (a && b) ≡ true
both a b h k = ground arith

alnum-inner : (c : Char) → alnum? c ≡ true → inner? c ≡ true
alnum-inner c h = rw h refl

label_rest-IsInner : (last : Char) (s : String) → label_rest last s ≡ true → IsInner s
unfolding label_rest all_inner
label_rest-IsInner last S.[] h = refl
label_rest-IsInner last (S.◌∷◌ c s) h =
    both (inner? c) (all_inner s) (and_left (inner? c) (label_rest c s) h)
      (label_rest-IsInner c s (and_right (inner? c) (label_rest c s) h))

is_label-IsInner : (s : String) → is_label s ≡ true → IsInner s
unfolding is_label all_inner
is_label-IsInner S.[] h = refl
is_label-IsInner (S.◌∷◌ c s) h =
    let rest = and_right (alnum? c) (label_rest c s && leb (S.len (S.◌∷◌ c s)) 63) h in
    both (inner? c) (all_inner s)
      (alnum-inner c (and_left (alnum? c) (label_rest c s && leb (S.len (S.◌∷◌ c s)) 63) h))
      (label_rest-IsInner c s (and_left (label_rest c s) (leb (S.len (S.◌∷◌ c s)) 63) rest))

all_letters-IsInner : (s : String) → all_letters s ≡ true → IsInner s
unfolding all_letters all_inner
all_letters-IsInner S.[] h = refl
all_letters-IsInner (S.◌∷◌ c s) h =
    both (inner? c) (all_inner s) (rw (and_left (letter? c) (all_letters s) h) refl)
      (all_letters-IsInner s (and_right (letter? c) (all_letters s) h))

are_labels-IsInner : (ls : List String) → are_labels ls ≡ true → All IsInner ls
unfolding are_labels
are_labels-IsInner [] h = cc
are_labels-IsInner (l ∷ []) h = absurd (cc)
are_labels-IsInner (l ∷ top ∷ []) h = (
  is_label-IsInner l (and_left (is_label l) (is_top top) h),
  (
    all_letters-IsInner top
        (and_left (all_letters top) (leb 2 (S.len top)) (and_right (is_label l) (is_top top) h)),
    tt,
  ),
)
are_labels-IsInner (l ∷ m ∷ n ∷ ls) h = (
  is_label-IsInner l (and_left (is_label l) (are_labels (m ∷ n ∷ ls)) h),
  are_labels-IsInner (m ∷ n ∷ ls) (and_right (is_label l) (are_labels (m ∷ n ∷ ls)) h),
)

-- A character that went onto the first label.
first_label :
    (c : Char) (ls : List String)
    → All IsInner (onto_first c ls)
    → (inner? c ≡ true) × All IsInner ls
unfolding all_inner
first_label c [] h = (and_left (inner? c) true h.0, tt)
first_label c (l ∷ ls) h =
    (and_left (inner? c) (all_inner l) h.0, (and_right (inner? c) (all_inner l) h.0, h.1))

labels-host : (s : String) → All IsInner (labels s) → all_host s ≡ true
unfolding labels all_host
labels-host S.[] h = refl
labels-host (S.◌∷◌ c s) h = elim (Bool-cases (dot? c)) [
  | inl dot ↦
      let h' : All IsInner ("" ∷ labels s) = rw dot at h in
      both (host? c) (all_host s) (or_right (inner? c) (dot? c) dot) (labels-host s h'.1)
  | inr plain ↦
      let parts = first_label c (labels s) (rw plain at h) in
      both (host? c) (all_host s) (or_left (inner? c) (dot? c) parts.0) (labels-host s parts.1)
]
  where
    or_left : (a b : Bool) → a ≡ true → (a || b) ≡ true
    or_left a b h = ground arith

    or_right : (a b : Bool) → b ≡ true → (a || b) ≡ true
    or_right a b h = ground arith

-- A domain that passes has only such characters, and at most 253 of them.
validate_domain_value-host :
    (domain : String)
    → validate_domain_value domain ≡ true
    → (all_host domain ≡ true) × (S.len domain ≤ 253)
unfolding validate_domain_value
validate_domain_value-host domain h =
    elim (Bool-cases (not (nonempty domain) || ltb 253 (S.len domain))) [
      | inl bad ↦ absurd (clash (rw bad at h))
      | inr fine ↦ elim (Bool-cases (any_unsafe domain)) [
        | inl unsafe ↦ absurd (clash (rw (fine, unsafe) at h))
        | inr safe ↦ (
          labels-host domain (are_labels-IsInner (labels domain) (rw (fine, safe) at h)),
          short (nonempty domain) (S.len domain) fine,
        )
      ]
    ]
  where
    clash : false ≡ true → ⊥
    clash h = cc

    short : (b : Bool) (n : ℕ) → (not b || ltb 253 n) ≡ false → n ≤ 253
    short b n h = ground arith

if_valid-host :
    (domain found : String)
    → if_valid domain ≡ some found
    → (all_host found ≡ true) × (S.len found ≤ 253)
if_valid-host domain found h = elim (Bool-cases (validate_domain_value domain)) [
  | inl good ↦ rw (← some_inj domain found (rw good at h)) (validate_domain_value-host domain good)
  | inr bad ↦ absurd (not_some found (rw bad at h))
]
  where
    some_inj : (a b : String) → some a ≡ some b → a ≡ b
    some_inj a b e = cc

    not_some : (b : String) → ◌≡◌ {A = Option String} none (some b) → ⊥
    not_some b e = cc

-- Whatever the environment variable and the domain file hold, the domain that is found has only
-- letters, digits, hyphens and dots, and so no white space, no line break and no `#`, and it has at most
-- 253 characters.
pub nwc_domain-host :
    (variable domain : String) (file : Option String)
    → nwc_domain variable file ≡ some domain
    → (all_host domain ≡ true) × (S.len domain ≤ 253)
unfolding nwc_domain
nwc_domain-host variable domain file h = elim (Bool-cases (nonempty (canonical variable))) [
  | inl given ↦ if_valid-host (canonical variable) domain (rw given at h)
  | inr absent ↦ read file (rw absent at h)
]
  where
    read :
        (content : Option String)
        → from_file content ≡ some domain
        → (all_host domain ≡ true) × (S.len domain ≤ 253)
    read none e = absurd (cc)
    read (some text) e = if_valid-host (canonical (S.slice text 0 256)) domain e
